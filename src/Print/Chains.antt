-- ===== src/Print/Chains.antt =====
-- print_outgoing_pool and print_transaction_pool of src/print.c: the transactions that they print,
-- over the cells in memory. A loop runs on fuel: one round for each cell, and one more, is enough.
use simulazione_transazioni.Prelude.{
  ℕ, zero, suc, ◌<◌, ◌≡◌, refl, List, [], ◌∷◌, map, arith, length, ◌==◌, if◌then◌else◌,
}
use simulazione_transazioni.Common.{Transaction, MsgbufTrans}
use simulazione_transazioni.Memory.{
  Ptr, null, Cmd, Memory, ok, fault, out_of_fuel, pure, ◌>>=◌, load,
}
use simulazione_transazioni.Memory.Chain.{Chain}
use simulazione_transazioni.Pool.{Pool}
use simulazione_transazioni.Pool.Queue.{IsPool, tail_ptr}

-- `tmp` is dereferenced before it is compared.
unfoldable pub print_outgoing_pool : ℕ → Ptr → Cmd Transaction (List Transaction)
print_outgoing_pool zero tmp = λ _. out_of_fuel
print_outgoing_pool (suc k) tmp = do
  c ← load tmp
  let rest = print_outgoing_pool k c.next
  if c.next == null then pure [] else (do ts ← rest; pure (c.value ∷ ts))

-- The loop of print_transaction_pool, from `head` on.
unfoldable pub print_loop : ℕ → Ptr → Cmd MsgbufTrans (List Transaction)
print_loop zero head = λ _. out_of_fuel
print_loop (suc k) head =
    let rest = λ (p : Ptr). print_loop k p in
    if head == null
    then pure []
    else (do c ← load head; ts ← rest c.next; pure (c.value.user_trans ∷ ts))

-- The pool itself is moved on.
unfoldable pub print_transaction_pool : ℕ → Pool → Cmd MsgbufTrans (List Transaction × Pool)
unfolding print_loop
print_transaction_pool fuel trans_pool = do
  ts ← print_loop fuel trans_pool.head
  pure (ts, record trans_pool { head = null })

abbrev pub Sent : Type 0
Sent = Ptr × Transaction

-- All transactions but the last.
abbrev pub but_last : Sent → List Sent → List Transaction
but_last x [] = []
but_last x (y ∷ ys) = x.1 ∷ but_last y ys

print_outgoing_pool-run :
    (m : Memory Transaction) (k p : ℕ) (x : Sent) (xs : List Sent)
    → Chain m.slot p (x ∷ xs)
    → length xs < k
    → print_outgoing_pool k p m ≡ ok (but_last x xs) m
unfolding print_outgoing_pool load
print_outgoing_pool-run m zero p x xs c enough = absurd (omega arith)
print_outgoing_pool-run m (suc k) p (a, t) [] (q, e, ne, at, _, end) enough = ground (arith, end)
print_outgoing_pool-run m (suc k) p (a, t) ((b, u) ∷ xs) (q, e, ne, at, out, c) enough =
    ground (arith, c.1, c.2, print_outgoing_pool-run m k q (b, u) xs c)

print_loop-run :
    (m : Memory MsgbufTrans) (k p : ℕ) (xs : List (Ptr × MsgbufTrans))
    → Chain m.slot p xs
    → length xs < k
    → print_loop k p m ≡ ok (map (λ (x : Ptr × MsgbufTrans). x.1.user_trans) xs) m
unfolding print_loop load
print_loop-run m zero p xs c enough = absurd (omega arith)
print_loop-run m (suc k) p [] c enough = ground (arith, c)
print_loop-run m (suc k) p ((a, t) ∷ xs) (q, e, ne, at, out, c) enough =
    ground (arith, print_loop-run m k q xs c)

module _ (m : Memory Transaction) (k head : Ptr) (x : Sent) (xs : List Sent) where
  -- With a round for each cell of an outgoing list that is not empty, print_outgoing_pool ends,
  -- changes nothing in memory, and prints all transactions of the list, in order, but the last; on
  -- an empty list it faults.
  pub print_outgoing_pool_lem :
      Chain m.slot head (x ∷ xs)
      → length xs < k
      → (print_outgoing_pool k head m ≡ ok (but_last x xs) m)
        × (print_outgoing_pool k null m ≡ fault)
  unfolding print_outgoing_pool load
  print_outgoing_pool_lem c enough = (
    print_outgoing_pool-run m k head x xs c enough,
    elim k as (λ n. length xs < n → print_outgoing_pool n null m ≡ fault) [
      | zero ↦ λ h. absurd (omega arith)
      | suc n ↦ λ h. refl
    ]
        enough,
  )

module _ (m : Memory MsgbufTrans) (k : ℕ) (pool : Pool) (xs : List (Ptr × MsgbufTrans)) where
  -- For a pool that holds the messages `xs`, and more rounds than it has, print_transaction_pool ends,
  -- prints their transactions, oldest first, and leaves memory as it was, but the pool with no
  -- head: it is empty then, and only its tail still points to the last cell.
  pub print_transaction_pool_lem :
      IsPool m pool xs
      → length xs < k
      → print_transaction_pool k pool m
        ≡ ok
            (
              map (λ (x : Ptr × MsgbufTrans). x.1.user_trans) xs,
              record { head = null; tail = tail_ptr xs; size = pool.size },
            )
            m
  unfolding print_transaction_pool
  print_transaction_pool_lem is enough =
      rw (print_loop-run m k pool.head xs is.chain enough, is.tail) refl
