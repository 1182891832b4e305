-- ===== src/Users/Cycle/Fresh.antt =====
-- A transaction of src/users.c with a time of its own, behind the outgoing list.
use simulazione_transazioni.Prelude.{
  ◌≡◌, ◌≢◌, sym, true, false, List, [], ◌∷◌, ◌++◌, arith, Bool-cases, inl, inr, All, All-snoc,
}
use simulazione_transazioni.Prelude.Int.{ℤ, ◌+ℤ◌, int_laws}
use simulazione_transazioni.Common.{Transaction, Timespec}
use simulazione_transazioni.LinkedList.{compare_transactions}
use simulazione_transazioni.Users.Wallet.{cost}
use simulazione_transazioni.Users.Wallet.Count.{spent}
use simulazione_transazioni.Users.Wallet.Pending.{Distinct, Clear}

-- The clock shows a time that no transaction of the list has.
abbrev pub IsLater : Timespec → List Transaction → Type 0
IsLater now = All (λ (t : Transaction). t.timestamp ≢ now)

compare_transactions-time :
    (t u : Transaction) → compare_transactions t u ≡ true → t.timestamp ≡ u.timestamp
unfolding compare_transactions
compare_transactions-time t u e = ground arith

later_differs : (t u : Transaction) → u.timestamp ≢ t.timestamp → compare_transactions t u ≡ false
later_differs t u ne = elim (Bool-cases (compare_transactions t u)) [
  | inl same ↦ absurd (ne (sym (compare_transactions-time t u same)))
  | inr other ↦ other
]

module _ (t : Transaction) where
  pub Distinct-snoc :
      (out : List Transaction) → Distinct out → IsLater t.timestamp out → Distinct (out ++ t ∷ [])
  Distinct-snoc [] d h = (tt, tt)
  Distinct-snoc (u ∷ us) d h = (
    All-snoc (λ (v : Transaction). compare_transactions v u ≡ false) us t d.0
        (later_differs t u h.0),
    Distinct-snoc us d.1 h.1,
  )

  pub Clear-snoc :
      (my_pid : ℤ) (ts out : List Transaction)
      → Clear my_pid ts out
      → IsLater t.timestamp ts
      → Clear my_pid ts (out ++ t ∷ [])
  Clear-snoc my_pid [] out c h = tt
  Clear-snoc my_pid (u ∷ ts) out c h = (
    λ mine.
        All-snoc (λ (v : Transaction). compare_transactions v u ≡ false) out t (c.0 mine)
          (later_differs t u h.0),
    Clear-snoc my_pid ts out c.1 h.1,
  )

  pub spent-snoc : (out : List Transaction) → spent (out ++ t ∷ []) ≡ spent out +ℤ cost t
  unfolding spent
  spent-snoc [] = omega int_laws
  spent-snoc (u ∷ us) = rw (spent-snoc us) (omega int_laws)
