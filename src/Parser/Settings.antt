-- ===== src/Parser/Settings.antt =====
-- What parse_parameters of src/parser.c makes of a configuration: parameters in their ranges, and
-- those that the file gives.
use simulazione_transazioni.Prelude.{
  ℕ, ◌+◌, ◌^◌, ◌≤◌, ◌<◌, ◌≡◌, ap, ◌∙◌, Bool, true, false, List, [], ◌∷◌, some, if◌then◌else◌,
  length, arith, leb, ltb,
}
use simulazione_transazioni.Prelude.Words.{u32}
use simulazione_transazioni.Common.{Parameters, so_block_size, success}
use text.Mathlib.Text.{◌==◌ as ◌spells◌}
use simulazione_transazioni.Parser.{
  Setting, assign_defaults, assign, assign_all, normalize_gen, normalize_proc, normalize_tp_size,
  normalize_friends, correct, parse_parameters, num_parameters,
}

-- What the rest of the program relies on.
pub record IsSound (par : Parameters) : Type 0 where
  pub reward : par.so_reward ≤ 100
  pub gen : par.so_min_trans_gen_nsec ≤ par.so_max_trans_gen_nsec
  pub proc : par.so_min_trans_proc_nsec ≤ par.so_max_trans_proc_nsec
  pub tp_size : so_block_size < par.so_tp_size
  pub friends : par.so_friends_num ≤ par.so_nodes_num

in_range :
    (v : ℕ) (par : Parameters)
    → par.so_reward ≤ 100
    → (if leb v 100 then v else par.so_reward) ≤ 100
in_range v par h = ground arith

-- The bound on a field, as a record, through which a conditional is read.
record HasReward (par : Parameters) : Type 0 where
  bound : par.so_reward ≤ 100

if-HasReward :
    (b : Bool) (p : Parameters) {q : Parameters}
    → p.so_reward ≤ 100
    → HasReward q
    → HasReward (if b then p else q)
if-HasReward true p h i = record { bound = h }
if-HasReward false p h i = i

assign-HasReward : (s : Setting) (par : Parameters) → par.so_reward ≤ 100 → HasReward (assign s par)
unfolding assign
assign-HasReward s par h =
    let none_of_them : HasReward par = record { bound = h } in
    let rest =
      if-HasReward (s.token spells "SO_HOPS") (record par { so_hops = u32 s.value }) h
        none_of_them in
    let rest =
      if-HasReward (s.token spells "SO_FRIENDS_NUM") (record par { so_friends_num = u32 s.value }) h
        rest in
    let rest =
      if-HasReward (s.token spells "SO_SIM_SEC") (record par { so_sim_sec = u32 s.value }) h rest in
    let rest =
      if-HasReward (s.token spells "SO_MAX_TRANS_PROC_NSEC")
        (record par { so_max_trans_proc_nsec = s.value }) h rest in
    let rest =
      if-HasReward (s.token spells "SO_MIN_TRANS_PROC_NSEC")
        (record par { so_min_trans_proc_nsec = s.value }) h rest in
    let rest =
      if-HasReward (s.token spells "SO_TP_SIZE") (record par { so_tp_size = u32 s.value }) h rest in
    let rest =
      if-HasReward (s.token spells "SO_RETRY") (record par { so_retry = u32 s.value }) h rest in
    let rest =
      if-HasReward (s.token spells "SO_MAX_TRANS_GEN_NSEC")
        (record par { so_max_trans_gen_nsec = s.value }) h rest in
    let rest =
      if-HasReward (s.token spells "SO_MIN_TRANS_GEN_NSEC")
        (record par { so_min_trans_gen_nsec = s.value }) h rest in
    let rest =
      if-HasReward (s.token spells "SO_REWARD")
        (record par { so_reward = if leb s.value 100 then s.value else par.so_reward })
        (in_range s.value par h) rest in
    let rest =
      if-HasReward (s.token spells "SO_BUDGET_INIT") (record par { so_budget_init = u32 s.value }) h
        rest in
    let rest =
      if-HasReward (s.token spells "SO_NODES_NUM") (record par { so_nodes_num = u32 s.value }) h
        rest in
    let rest =
      if-HasReward (s.token spells "SO_USER_NUM") (record par { so_user_num = u32 s.value }) h
        rest in
    rest

assign_all-reward :
    (ss : List Setting) (par : Parameters)
    → par.so_reward ≤ 100
    → (assign_all ss par).so_reward ≤ 100
unfolding assign_all
assign_all-reward [] par h = h
assign_all-reward (s ∷ ss) par h =
    assign_all-reward ss (assign s par) (assign-HasReward s par h).bound

correct-IsSound :
    (erange : Bool) (par : Parameters) → par.so_reward ≤ 100 → IsSound (correct erange par)
unfolding correct normalize_gen normalize_proc normalize_tp_size normalize_friends assign_defaults
correct-IsSound true par h = record {
  reward = omega arith;
  gen = omega arith;
  proc = omega arith;
  tp_size = omega arith;
  friends = omega arith;
}
correct-IsSound false par h = record {
  reward = h;
  gen = ground arith;
  proc = ground arith;
  tp_size = ground arith;
  friends = ground arith;
}

-- The lines that say what `par` is, in the order of `struct parameters`.
abbrev pub lines_of : Parameters → List Setting
lines_of par =
    record { token = "SO_USER_NUM"; value = par.so_user_num }
    ∷ record { token = "SO_NODES_NUM"; value = par.so_nodes_num }
    ∷ record { token = "SO_BUDGET_INIT"; value = par.so_budget_init }
    ∷ record { token = "SO_REWARD"; value = par.so_reward }
    ∷ record { token = "SO_MIN_TRANS_GEN_NSEC"; value = par.so_min_trans_gen_nsec }
    ∷ record { token = "SO_MAX_TRANS_GEN_NSEC"; value = par.so_max_trans_gen_nsec }
    ∷ record { token = "SO_RETRY"; value = par.so_retry }
    ∷ record { token = "SO_TP_SIZE"; value = par.so_tp_size }
    ∷ record { token = "SO_MIN_TRANS_PROC_NSEC"; value = par.so_min_trans_proc_nsec }
    ∷ record { token = "SO_MAX_TRANS_PROC_NSEC"; value = par.so_max_trans_proc_nsec }
    ∷ record { token = "SO_SIM_SEC"; value = par.so_sim_sec }
    ∷ record { token = "SO_FRIENDS_NUM"; value = par.so_friends_num }
    ∷ record { token = "SO_HOPS"; value = par.so_hops }
    ∷ []

-- The `unsigned int` fields hold such.
pub record FitsWords (par : Parameters) : Type 0 where
  pub user_num : par.so_user_num < 2 ^ 32
  pub nodes_num : par.so_nodes_num < 2 ^ 32
  pub budget_init : par.so_budget_init < 2 ^ 32
  pub retry : par.so_retry < 2 ^ 32
  pub tp_size : par.so_tp_size < 2 ^ 32
  pub sim_sec : par.so_sim_sec < 2 ^ 32
  pub friends_num : par.so_friends_num < 2 ^ 32
  pub hops : par.so_hops < 2 ^ 32

u32_id : (n : ℕ) → n < 2 ^ 32 → u32 n ≡ n
u32_id n h = omega arith

assign_all-lines_of :
    (par p : Parameters) → FitsWords par → IsSound par → assign_all (lines_of par) p ≡ par
unfolding assign_all assign
assign_all-lines_of par p w is =
    let kept : (if leb par.so_reward 100 then par.so_reward else p.so_reward) ≡ par.so_reward =
      ground (arith, is.reward) in
    λ i. record par {
      so_user_num = u32_id par.so_user_num w.user_num i;
      so_nodes_num = u32_id par.so_nodes_num w.nodes_num i;
      so_budget_init = u32_id par.so_budget_init w.budget_init i;
      so_reward = kept i;
      so_retry = u32_id par.so_retry w.retry i;
      so_tp_size = u32_id par.so_tp_size w.tp_size i;
      so_sim_sec = u32_id par.so_sim_sec w.sim_sec i;
      so_friends_num = u32_id par.so_friends_num w.friends_num i;
      so_hops = u32_id par.so_hops w.hops i;
    }

correct_sound : (par : Parameters) → IsSound par → correct false par ≡ par
unfolding correct normalize_gen normalize_proc normalize_tp_size normalize_friends
correct_sound par is =
    let gen : (if ltb par.so_max_trans_gen_nsec par.so_min_trans_gen_nsec
          then par.so_max_trans_gen_nsec
          else par.so_min_trans_gen_nsec)
        ≡ par.so_min_trans_gen_nsec =
      ground (arith, is.gen) in
    let proc : (if ltb par.so_max_trans_proc_nsec par.so_min_trans_proc_nsec
          then par.so_max_trans_proc_nsec
          else par.so_min_trans_proc_nsec)
        ≡ par.so_min_trans_proc_nsec =
      ground (arith, is.proc) in
    let tp : (if leb par.so_tp_size so_block_size then so_block_size + 1 else par.so_tp_size)
        ≡ par.so_tp_size =
      ground (arith, is.tp_size) in
    let friends : (if ltb par.so_nodes_num par.so_friends_num
          then par.so_nodes_num
          else par.so_friends_num)
        ≡ par.so_friends_num =
      ground (arith, is.friends) in
    λ i. record par {
      so_min_trans_gen_nsec = gen i;
      so_min_trans_proc_nsec = proc i;
      so_tp_size = tp i;
      so_friends_num = friends i;
    }

-- For parameters that are in their ranges and fit their types, a file with a line for each, in the
-- order of the struct, is read back as them when no number was out of range: nothing is corrected.
pub parse_parameters-lines_of :
    (par : Parameters)
    → FitsWords par
    → IsSound par
    → parse_parameters false (some (lines_of par)) ≡ some (success, par)
unfolding parse_parameters
parse_parameters-lines_of par w is = λ i. some (
  success,
  (ap (correct false) (assign_all-lines_of par assign_defaults w is) ∙ correct_sound par is) i,
)

-- Every file of 13 lines, whatever they say and whether or not a number was out of range, is read,
-- and the parameters are sound: the reward is at most 100, no minimum time is above its maximum, a
-- pool holds more than a block, and a node has no more friends than there are nodes.
pub parse_parameters-IsSound :
    (erange : Bool) (lines : List Setting)
    → length lines ≡ num_parameters
    → (par : Parameters) × (parse_parameters erange (some lines) ≡ some (success, par))
      × IsSound par
unfolding parse_parameters assign_defaults
parse_parameters-IsSound erange lines h = (
  correct erange (assign_all lines assign_defaults),
  rw (h),
  correct-IsSound erange (assign_all lines assign_defaults)
      (assign_all-reward lines assign_defaults (omega arith)),
)
