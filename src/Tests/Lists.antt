-- ===== src/Tests/Lists.antt =====
-- The pool of a node and the outgoing list of a user, with one cell and with two.
use simulazione_transazioni.Prelude.{ℕ, ◌≡◌, refl, arith, [], ◌∷◌, ◌==◌, if◌then◌else◌}
use simulazione_transazioni.Prelude.Int.{pos}
use simulazione_transazioni.Common.{MsgbufTrans, Transaction}
use simulazione_transazioni.Memory.{null, Cell, unused, live, Memory, ok}
use simulazione_transazioni.Memory.Chain.{cell, Chain}
use simulazione_transazioni.Pool.{Pool}
use simulazione_transazioni.Pool.Queue.{
  IsPool, Adds, Removes, add_to_pool-append, remove_from_pool-cons,
}
use simulazione_transazioni.LinkedList.{push}
use simulazione_transazioni.LinkedList.Push.{Appended, push-append}
use simulazione_transazioni.LinkedList.Remove.{Cuts, find_and_remove-Cuts}
use simulazione_transazioni.Tests.Data.{message, payment}

abbrev one_message : Memory MsgbufTrans
one_message = record {
  slot = λ p. if p == 8 then live (cell (message 1) null) else unused;
  stale_reads = 0;
}

abbrev one_pool : Pool
one_pool = record { head = 8; tail = 8; size = 1 }

one_pool-IsPool : IsPool one_message one_pool ((8, message 1) ∷ [])
one_pool-IsPool = record { chain = (null, refl, omega arith, refl, refl, refl); tail = refl }

abbrev raw : Cell MsgbufTrans
raw = cell (message 0) 99

add_to_pool-append_example : Adds 9 raw (message 2) one_message one_pool ((8, message 1) ∷ [])
add_to_pool-append_example =
    add_to_pool-append 9 raw (message 2) one_message one_pool ((8, message 1) ∷ []) (omega arith)
      (λ c e. cc) one_pool-IsPool

remove_from_pool-cons_example : Removes one_message one_pool (message 0) 8 (message 1) []
remove_from_pool-cons_example =
    remove_from_pool-cons one_message one_pool (message 0) 8 (message 1) [] one_pool-IsPool

abbrev sent : ℕ → Transaction
sent n = payment n (pos 100) (pos 101) 10 1

-- Cells 8 and 4, in this order.
abbrev two_sent : Memory Transaction
two_sent = record {
  slot = λ p.
      if p == 8
      then live (cell (sent 1) 4)
      else if p == 4
      then live (cell (sent 2) null)
      else unused;
  stale_reads = 0;
}

two_sent-Chain : Chain two_sent.slot 8 ((8, sent 1) ∷ (4, sent 2) ∷ [])
two_sent-Chain = (4, refl, omega arith, refl, refl, (null, refl, omega arith, refl, refl, refl))

push-append_example :
    (push 2 8 6 (cell (sent 0) 99) (sent 3) two_sent
      ≡ ok tt (Appended 6 (cell (sent 0) 99) (sent 3) two_sent (8, sent 1) ((4, sent 2) ∷ [])))
    × Chain
        (Appended 6 (cell (sent 0) 99) (sent 3) two_sent (8, sent 1) ((4, sent 2) ∷ [])).slot
        8
        ((8, sent 1) ∷ (4, sent 2) ∷ (6, sent 3) ∷ [])
push-append_example =
    push-append 6 (cell (sent 0) 99) (sent 3) two_sent 2 8 (8, sent 1) ((4, sent 2) ∷ [])
      two_sent-Chain (omega arith) (omega arith) (λ c e. cc)

find_and_remove-Cuts_example : Cuts (sent 2) 8 2 two_sent ((8, sent 1) ∷ (4, sent 2) ∷ [])
find_and_remove-Cuts_example =
    find_and_remove-Cuts (sent 2) 8 2 two_sent ((8, sent 1) ∷ (4, sent 2) ∷ []) two_sent-Chain
      (omega arith)
