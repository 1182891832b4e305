-- ===== src/Tests/Startup.antt =====
-- A simulation with one node and two users, from its start to its end.
use simulazione_transazioni.Prelude.{
  ◌-◌, ◌≡◌, refl, arith, none, List, [], ◌∷◌, All-replicate, length, not,
}
use simulazione_transazioni.Prelude.Int.{pos, negsuc}
use simulazione_transazioni.Common.{
  Node, User, Block, available, alive, dead, time_elapsed, so_registry_size,
}
use simulazione_transazioni.Ledger.{is_free}
use simulazione_transazioni.Ledger.Append.{written}
use simulazione_transazioni.Sys.{trans}
use simulazione_transazioni.Print.{is_written, num_blocks}
use simulazione_transazioni.Master.Startup.Active.{Begins, start_nodes-Begins}
use simulazione_transazioni.Master.Startup.Handshake.{Meets, send_friend_list-Meets}
use simulazione_transazioni.Sys.Decimal.{decimal, digits}
use simulazione_transazioni.Master.Arguments.Attached.{Attaches, make_arguments-Attaches}
use simulazione_transazioni.Master.Ending.{Snapshot}
use simulazione_transazioni.Master.Ending.Watch.{Watches, start_continuous_print-Watches}
use simulazione_transazioni.Master.Ending.Reason.{StartWithReward, Tells, final_reason-Tells}
use simulazione_transazioni.Tests.Data.{par, message, zero_block, empty_ledger}
use simulazione_transazioni.Tests.Race.{empty_ledger-IsLedger}

abbrev slot : Node
slot = record { pid = pos 0; balance = 0; tp_size = pos 0; status = available }

abbrev entry : User
entry = record { pid = pos 0; balance = 0; status = alive }

start_nodes-Begins_example :
    Begins par (pos 200 ∷ []) (pos 100 ∷ pos 101 ∷ []) (slot ∷ slot ∷ []) (entry ∷ entry ∷ [])
start_nodes-Begins_example =
    start_nodes-Begins par (pos 200 ∷ []) (pos 100 ∷ pos 101 ∷ []) (slot ∷ slot ∷ [])
      (entry ∷ entry ∷ []) (omega arith) (omega arith) refl refl (refl, (refl, tt))
      ((λ e. ground arith), tt) (omega arith) (omega arith) refl refl

abbrev nodes : List Node
nodes = record slot { pid = pos 200 } ∷ slot ∷ []

send_friend_list-Meets_example : Meets (λ f. pos 0) (λ i. i) par nodes (trans (message 1) ∷ [])
send_friend_list-Meets_example =
    send_friend_list-Meets (λ f. pos 0) (λ i. i) par nodes (trans (message 1) ∷ []) (omega arith)
      (omega arith) ((λ e. ground arith), tt) tt (λ f. refl)

abbrev lively : Snapshot
lively = record { users = entry ∷ entry ∷ []; nodes = nodes }

abbrev deserted : Snapshot
deserted = record { users = entry ∷ record entry { status = dead } ∷ []; nodes = nodes }

-- In the second second all users but one are dead.
start_continuous_print-Watches_example : Watches par 3 (lively ∷ deserted ∷ deserted ∷ [])
start_continuous_print-Watches_example =
    start_continuous_print-Watches par 3 (lively ∷ deserted ∷ deserted ∷ []) (omega arith)
      (omega arith) (omega arith)

empty_ledger-StartWithReward : StartWithReward empty_ledger
unfolding empty_ledger is_written is_free
empty_ledger-StartWithReward =
    All-replicate (λ (b : Block). is_written b ≡ not (is_free b)) so_registry_size zero_block refl

final_reason-Tells_example :
    (num_blocks empty_ledger ≡ length (written empty_ledger) - 1) × Tells empty_ledger time_elapsed
final_reason-Tells_example =
    final_reason-Tells empty_ledger time_elapsed empty_ledger-IsLedger empty_ledger-StartWithReward

make_arguments-Attaches_example :
    Attaches (λ _. []) none (pos 32768) (pos 32769) (pos 32767) (pos 32770) (pos 0) (pos 2) (pos 1)
make_arguments-Attaches_example =
    make_arguments-Attaches (λ _. []) none (pos 32768) (pos 32769) (pos 32767) (pos 32770) (pos 0)
      (pos 2) (pos 1) (omega arith) (omega arith) (omega arith) (omega arith) (omega arith)
      (omega arith) (omega arith)

decimal_test : decimal (negsuc 41) ≡ b'-' ∷ b'4' ∷ b'2' ∷ []
unfolding decimal digits
decimal_test = refl
