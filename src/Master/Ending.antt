-- ===== src/Master/Ending.antt =====
-- How the simulation of src/master.c ends: start_continuous_print and master_interrupt_handle.
pub mod Watch
pub mod Reason
use simulazione_transazioni.Prelude.{
  ℕ, zero, suc, ◌-◌, ◌*◌, ◌==◌, List, [], ◌∷◌, Option, none, some, if◌then◌else◌, take,
}
use simulazione_transazioni.Prelude.Words.{u32}
use simulazione_transazioni.Common.{
  Parameters, User, Node, Block, Term, users_dead, ledger_full, so_registry_size,
}
use simulazione_transazioni.Print.{num_blocks}
use simulazione_transazioni.Master.{count_users, count_nodes, users_are_dead}

-- What the shared arrays hold in a second.
pub record Snapshot : Type 0 where
  pub users : List User
  pub nodes : List Node

-- A line of start_continuous_print.
pub record Line : Type 0 where
  pub time_left : ℕ
  pub active_users : ℕ
  pub active_nodes : ℕ

unfoldable pub print_line : Parameters → ℕ → Snapshot → Line
unfolding count_users count_nodes
print_line par time s = record {
  time_left = time;
  active_users = (count_users (take par.so_user_num s.users) (0, 0)).0;
  active_nodes = count_nodes (take (u32 (par.so_nodes_num * 2)) s.nodes) 0;
}

-- The loop of start_continuous_print: the time left, and the arrays as they are in each second. The
-- lines that are printed, and the reason for which SIGINT is raised, whose handler does not come
-- back.
unfoldable pub start_continuous_print : Parameters → ℕ → List Snapshot → List Line × Option Term
unfolding users_are_dead print_line
start_continuous_print par zero later = ([], none)
start_continuous_print par (suc time) [] = ([], none)
start_continuous_print par (suc time) (s ∷ later) =
    let (lines, reason) = start_continuous_print par time later in
    if users_are_dead par s.users
    then ([], some users_dead)
    else (print_line par time s ∷ lines, reason)

-- The reason that master_interrupt_handle gives in the end.
unfoldable pub final_reason : List Block → Term → Term
unfolding num_blocks
final_reason ledger term_reason =
    if num_blocks ledger == so_registry_size - 1 then ledger_full else term_reason
