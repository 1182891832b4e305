-- ===== src/Parser.antt =====
-- src/parser.c: the configuration file. What fgets and sscanf read of a line is an argument: its
-- first word and its number, an `unsigned long`. So is whether `errno` is ERANGE after the lines.
pub mod Settings
use simulazione_transazioni.Prelude.{
  ℕ, ◌+◌, ◌==◌, Bool, List, [], ◌∷◌, Option, none, some, if◌then◌else◌, ltb, leb, length,
}
use simulazione_transazioni.Prelude.Int.{ℤ, negsuc}
use simulazione_transazioni.Prelude.Words.{u32}
use simulazione_transazioni.Common.{Parameters, so_block_size, success}
use Prim.Native.String.{String}
use text.Mathlib.Text.{◌==◌ as ◌spells◌}

-- Lines of the file.
abbrev pub num_parameters : ℕ
num_parameters = 13

abbrev pub conf_error : ℤ
conf_error = negsuc 0

-- What sscanf reads of a line. The source has room for a word of fewer than 64 bytes.
pub record Setting : Type 0 where
  pub token : String
  pub value : ℕ

-- What assign_defaults writes, in every field.
unfoldable pub assign_defaults : Parameters
assign_defaults = record {
  so_user_num = 100;
  so_nodes_num = 10;
  so_budget_init = 1000;
  so_reward = 1;
  so_min_trans_gen_nsec = 100000000;
  so_max_trans_gen_nsec = 200000000;
  so_retry = 20;
  so_tp_size = 1000;
  so_min_trans_proc_nsec = 100000000;
  so_max_trans_proc_nsec = 200000000;
  so_sim_sec = 10;
  so_friends_num = 3;
  so_hops = 10;
}

-- The chain of comparisons, the body of the second loop of parse_parameters.
unfoldable pub assign : Setting → Parameters → Parameters
assign s par =
    if s.token spells "SO_USER_NUM"
    then record par { so_user_num = u32 s.value }
    else if s.token spells "SO_NODES_NUM"
    then record par { so_nodes_num = u32 s.value }
    else if s.token spells "SO_BUDGET_INIT"
    then record par { so_budget_init = u32 s.value }
    else if s.token spells "SO_REWARD"
    then record par { so_reward = if leb s.value 100 then s.value else par.so_reward }
    else if s.token spells "SO_MIN_TRANS_GEN_NSEC"
    then record par { so_min_trans_gen_nsec = s.value }
    else if s.token spells "SO_MAX_TRANS_GEN_NSEC"
    then record par { so_max_trans_gen_nsec = s.value }
    else if s.token spells "SO_RETRY"
    then record par { so_retry = u32 s.value }
    else if s.token spells "SO_TP_SIZE"
    then record par { so_tp_size = u32 s.value }
    else if s.token spells "SO_MIN_TRANS_PROC_NSEC"
    then record par { so_min_trans_proc_nsec = s.value }
    else if s.token spells "SO_MAX_TRANS_PROC_NSEC"
    then record par { so_max_trans_proc_nsec = s.value }
    else if s.token spells "SO_SIM_SEC"
    then record par { so_sim_sec = u32 s.value }
    else if s.token spells "SO_FRIENDS_NUM"
    then record par { so_friends_num = u32 s.value }
    else if s.token spells "SO_HOPS"
    then record par { so_hops = u32 s.value }
    else par

unfoldable pub assign_all : List Setting → Parameters → Parameters
assign_all [] par = par
assign_all (s ∷ ss) par = assign_all ss (assign s par)

-- The tests after `CONF ERRORS CORRECTION`, one after the other, from that of the generation times.
unfoldable pub normalize_gen : Parameters → Parameters
normalize_gen par = record par {
  so_min_trans_gen_nsec =
      if ltb par.so_max_trans_gen_nsec par.so_min_trans_gen_nsec
      then par.so_max_trans_gen_nsec
      else par.so_min_trans_gen_nsec;
}

unfoldable pub normalize_proc : Parameters → Parameters
normalize_proc par = record par {
  so_min_trans_proc_nsec =
      if ltb par.so_max_trans_proc_nsec par.so_min_trans_proc_nsec
      then par.so_max_trans_proc_nsec
      else par.so_min_trans_proc_nsec;
}

unfoldable pub normalize_tp_size : Parameters → Parameters
normalize_tp_size par = record par {
  so_tp_size = if leb par.so_tp_size so_block_size then so_block_size + 1 else par.so_tp_size;
}

unfoldable pub normalize_friends : Parameters → Parameters
normalize_friends par = record par {
  so_friends_num =
      if ltb par.so_nodes_num par.so_friends_num then par.so_nodes_num else par.so_friends_num;
}

unfoldable pub correct : Bool → Parameters → Parameters
unfolding assign_defaults normalize_gen normalize_proc normalize_tp_size normalize_friends
correct erange par =
    normalize_friends
      (normalize_tp_size (normalize_proc (normalize_gen (if erange then assign_defaults else par))))

-- The file by its lines, `none` if it cannot be opened. `none` as the result: the file has more
-- lines than the arrays hold, or so few that words are compared that were never read.
unfoldable pub parse_parameters : Bool → Option (List Setting) → Option (ℤ × Parameters)
unfolding assign_all correct
parse_parameters erange none = some (conf_error, assign_defaults)
parse_parameters erange (some lines) =
    if length lines == num_parameters
    then some (success, correct erange (assign_all lines assign_defaults))
    else none
