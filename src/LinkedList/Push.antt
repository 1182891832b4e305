-- ===== src/LinkedList/Push.antt =====
-- push of src/utils/lklist.c appends.
use simulazione_transazioni.Prelude.{
  zero, suc, ◌<◌, ◌≡◌, ◌≢◌, false, List, [], ◌∷◌, ◌++◌, arith, length,
}
use simulazione_transazioni.Common.{Transaction}
use simulazione_transazioni.Memory.{
  Ptr, null, Cell, Slot, live, Memory, ok, load, store, malloc, write,
}
use simulazione_transazioni.Memory.Chain.{
  cell, has, Chain, last, IsDead, not-has_of_dead, last_live, Chain-extend, ne_last_of_not_has,
}
use simulazione_transazioni.LinkedList.{push_loop, push}

abbrev pub Entry : Type 0
Entry = Ptr × Transaction

module _ (fresh : Ptr) (raw : Cell Transaction) (t : Transaction) (m : Memory Transaction) where
  abbrev at_end : Ptr → Transaction → Ptr → Slot Transaction
  at_end p u =
      write (write (write m.slot fresh (live raw)) fresh (live (cell t null))) p
        (live (cell u fresh))

  abbrev pub Appended : Entry → List Entry → Memory Transaction
  Appended x xs = record m { slot = at_end (last x xs).0 (last x xs).1 }

  push_loop-run :
      (k curr : Ptr) (x : Entry) (xs : List Entry)
      → Chain m.slot curr (x ∷ xs)
      → length xs < k
      → fresh ≢ null
      → has fresh (x ∷ xs) ≡ false
      → push_loop k curr fresh raw t m ≡ ok tt (Appended x xs)
  unfolding push_loop load store malloc
  push_loop-run zero curr x xs c enough nn out = absurd (omega arith)
  push_loop-run (suc k) curr (a, u) [] (q, e, ne, at, _, end) enough nn out = ground (arith, end)
  push_loop-run (suc k) curr (a, u) ((b, w) ∷ xs) (q, e, ne, at, apart, c) enough nn out =
      ground (arith, c.1, c.2, push_loop-run k q (b, w) xs c)

  -- With a round for each cell, push ends without a fault: when malloc gives an address that is not
  -- NULL and not in use, the new transaction stands behind those of a list that is not empty, whose
  -- head stays the same; no freed cell is read, and memory changes only at the new address and in
  -- the last cell.
  pub push-append :
      (k head : Ptr) (x : Entry) (xs : List Entry)
      → Chain m.slot head (x ∷ xs)
      → length xs < k
      → fresh ≢ null
      → IsDead (m.slot fresh)
      → (push k head fresh raw t m ≡ ok tt (Appended x xs))
        × Chain (Appended x xs).slot head ((x ∷ xs) ++ (fresh, t) ∷ [])
  unfolding push
  push-append k head x xs c enough nn dead =
      let out = not-has_of_dead m.slot head fresh (x ∷ xs) c dead in
      let (at, ne) = last_live m.slot head x xs c in
      let apart = ne_last_of_not_has fresh x xs out in
      (
        push_loop-run k head x xs c enough nn out,
        Chain-extend m.slot (at_end (last x xs).0 (last x xs).1) head x xs fresh t c nn out
            (ground arith) (ground arith) (λ a i other. ground arith),
      )
