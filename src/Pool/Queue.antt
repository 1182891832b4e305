-- ===== src/Pool/Queue.antt =====
-- The pool of src/utils/pool.c as a first-in first-out queue of messages.
use simulazione_transazioni.Prelude.{
  suc, ◌+◌, ◌≡◌, ◌≢◌, refl, sym, ap, ◌∙◌, false, List, [], ◌∷◌, ◌++◌, arith, ◌==◌, if◌then◌else◌,
}
use simulazione_transazioni.Common.{MsgbufTrans, success, error}
use simulazione_transazioni.Memory.{
  Ptr, null, Cell, Slot, live, freed, Memory, ok, load, store, free, malloc, write,
}
use simulazione_transazioni.Memory.Chain.{
  cell, has, Chain, last, IsDead, frame, not-has_of_dead, last_live, Chain-extend, last-append,
  ne_last_of_not_has, ne_of_has, ne_of_has,
}
use simulazione_transazioni.Pool.{
  Pool, transaction_pool_init, set_next, add_to_pool, remove_from_pool,
}

abbrev pub tail_ptr : List (Ptr × MsgbufTrans) → Ptr
tail_ptr [] = null
tail_ptr (x ∷ xs) = (last x xs).0

-- The pool holds the messages `xs`, oldest first, each with the address of its cell.
pub record IsPool (m : Memory MsgbufTrans) (pool : Pool) (xs : List (Ptr × MsgbufTrans))
    : Type 0 where
  pub chain : Chain m.slot pool.head xs
  pub tail : pool.tail ≡ tail_ptr xs

abbrev pub Entry : Type 0
Entry = Ptr × MsgbufTrans

-- Memory `m'` is `m` but at the addresses of `xs`.
abbrev pub SameOutside : List Entry → Memory MsgbufTrans → Memory MsgbufTrans → Type 0
SameOutside xs m m' = (a : Ptr) → has a xs ≡ false → m'.slot a ≡ m.slot a

transaction_pool_init-IsPool : (m : Memory MsgbufTrans) → IsPool m transaction_pool_init []
unfolding transaction_pool_init
transaction_pool_init-IsPool m = record { chain = refl; tail = refl }

module _ (fresh : Ptr) (raw : Cell MsgbufTrans) (message : MsgbufTrans) (m : Memory MsgbufTrans)
    (pool : Pool) where
  -- What goes into the new cell: all of the message but its `mtype`.
  abbrev pub added : MsgbufTrans
  added = record message { mtype = raw.value.mtype }

  abbrev pub Adds : List Entry → Type 0
  Adds xs =
      (pool' : Pool) × (m' : Memory MsgbufTrans) × (add_to_pool fresh raw pool message m
        ≡ ok (success, pool') m')
      × IsPool m' pool' (xs ++ (fresh, added) ∷ [])
      × SameOutside ((fresh, added) ∷ xs) m m'
      × (m'.stale_reads ≡ m.stale_reads)
      × (pool'.size ≡ pool.size)

  module _ (nn : fresh ≢ null) where
    add_empty : pool.head ≡ null → pool.tail ≡ null → Adds []
    unfolding add_to_pool malloc load store
    add_empty e t = (
      record pool { head = fresh; tail = fresh },
      record m { slot = write (write m.slot fresh (live raw)) fresh (live (cell added null)) },
      ground arith,
      record { chain = (null, refl, nn, ground arith, refl, refl); tail = refl },
      λ a h. ground arith,
      refl,
      refl,
    )

    add_behind :
        (x : Entry) (xs : List Entry)
        → IsPool m pool (x ∷ xs)
        → IsDead (m.slot fresh)
        → Adds (x ∷ xs)
    unfolding add_to_pool malloc load store set_next
    add_behind (b, w) xs is dead =
        let t = (last (b, w) xs).0 in
        let u = (last (b, w) xs).1 in
        let f = write (write m.slot fresh (live raw)) fresh (live (cell added null)) in
        let g = write f t (live (cell u fresh)) in
        let (t_live, t_ne) = last_live m.slot pool.head (b, w) xs is.chain in
        let fresh_out = not-has_of_dead m.slot pool.head fresh ((b, w) ∷ xs) is.chain dead in
        let apart : fresh ≢ t = ne_last_of_not_has fresh (b, w) xs fresh_out in
        let head_ne : pool.head ≢ null = λ e. is.chain.2 (sym is.chain.1 ∙ e) in
        (
          record pool { head = pool.head; tail = fresh },
          record m { slot = g },
          ground (arith, is.tail),
          record {
            chain =
                Chain-extend m.slot g pool.head (b, w) xs fresh added is.chain nn fresh_out
                  (ground arith) (ground arith) (λ a i other. ground arith);
            tail = sym (ap (λ (e : Entry). e.0) (last-append (b, w) xs (fresh, added)));
          },
          λ a h. ground (arith, ne_last_of_not_has a (b, w) xs),
          refl,
          refl,
        )

  -- When malloc gives an address that is not NULL and not in use, add_to_pool succeeds and puts the
  -- message, all but its `mtype`, behind those of the pool; it reads no freed cell, changes memory
  -- only at the new address and in the cells of the pool, and leaves the `size` to its caller.
  pub add_to_pool-append :
      (xs : List Entry) → fresh ≢ null → IsDead (m.slot fresh) → IsPool m pool xs → Adds xs
  add_to_pool-append [] nn dead is = add_empty nn is.chain is.tail
  add_to_pool-append (x ∷ xs) nn dead is = add_behind nn x xs is dead

-- The end of the list after the first cell is taken.
tail_ptr-rest :
    (x : Entry) (xs : List Entry) (f : Ptr → Slot MsgbufTrans) (q t : Ptr)
    → Chain f q xs
    → t ≡ (last x xs).0
    → (if q == null then null else t) ≡ tail_ptr xs
tail_ptr-rest x [] f q t c e = ground arith
tail_ptr-rest x ((b, w) ∷ xs) f q t (_, is, ne, _, _, _) e = ground arith

module _ (m : Memory MsgbufTrans) (pool : Pool) (old : MsgbufTrans) where
  -- What remains of the pool when its oldest message, that of cell `a`, is taken.
  abbrev pub Removes : Ptr → MsgbufTrans → List Entry → Type 0
  Removes a v xs =
      (pool' : Pool) × (m' : Memory MsgbufTrans) × (remove_from_pool pool old m
        ≡ ok (success, v, pool') m')
      × IsPool m' pool' xs
      × ((c : Cell MsgbufTrans) × (m'.slot a ≡ freed c))
      × SameOutside ((a, v) ∷ []) m m'
      × (m'.stale_reads ≡ m.stale_reads + 1)
      × (pool'.size ≡ pool.size)

  -- From a pool that holds a message remove_from_pool returns the oldest one, frees its cell and
  -- keeps the others in order; it leaves the `size` to its caller. It reads the cell that it has
  -- freed, once.
  pub remove_from_pool-cons :
      (a : Ptr) (v : MsgbufTrans) (xs : List Entry) → IsPool m pool ((a, v) ∷ xs) → Removes a v xs
  unfolding remove_from_pool load free
  remove_from_pool-cons a v xs is =
      let (q, e, ne, at, out, rest) = is.chain in
      let f = write m.slot a (freed (cell v q)) in
      let tail = if q == null then null else pool.tail in
      (
        record pool { head = q; tail = tail },
        record m { slot = f; stale_reads = suc m.stale_reads },
        ground (arith, e, ne, at),
        record {
          chain = frame m.slot f q xs rest (λ b i. ground (arith, ne_of_has a b xs out i));
          tail = tail_ptr-rest (a, v) xs m.slot q pool.tail rest is.tail;
        },
        (cell v q, ground arith),
        λ b h. ground arith,
        omega arith,
        refl,
      )

  -- On an empty pool it returns ERROR and changes nothing.
  pub remove_from_pool-nil :
      IsPool m pool [] → remove_from_pool pool old m ≡ ok (error, old, pool) m
  unfolding remove_from_pool
  remove_from_pool-nil is = ground (arith, is.chain)
