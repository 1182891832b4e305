-- ===== src/Users/Wallet/Pending.antt =====
-- The outgoing list of a user of src/users.c after get_balance: what is not on the ledger yet.
use simulazione_transazioni.Prelude.{
  ◌≡◌, refl, ap, ◌∙◌, Bool, true, false, List, [], ◌∷◌, arith, if◌then◌else◌, Bool-cases, inl, inr,
  All,
}
use simulazione_transazioni.Prelude.Int.{ℤ, ◌==ℤ◌, ==ℤ_iff}
use simulazione_transazioni.Common.{Transaction}
use simulazione_transazioni.LinkedList.{compare_transactions}
use simulazione_transazioni.LinkedList.Contents.{remove_first}
use simulazione_transazioni.Users.Wallet.Count.{All-remove_first}

compare_transactions-same :
    (u t v : Transaction)
    → compare_transactions u t ≡ true
    → compare_transactions v t ≡ compare_transactions v u
unfolding compare_transactions
compare_transactions-same u t v e =
    ground (arith, ==ℤ_iff u.amount t.amount, ==ℤ_iff u.receiver t.receiver)

-- No transaction of the list compares equal to `t`.
abbrev pub Misses : List Transaction → Transaction → Type 0
Misses out t = All (λ (u : Transaction). compare_transactions u t ≡ false) out

-- No two transactions of the list compare equal.
abbrev pub Distinct : List Transaction → Type 0
Distinct [] = Unit {0}
Distinct (u ∷ us) = Misses us u × Distinct us

Misses-same :
    (u t : Transaction) (out : List Transaction)
    → compare_transactions u t ≡ true
    → Misses out u
    → Misses out t
Misses-same u t [] e h = tt
Misses-same u t (v ∷ out) e h = (compare_transactions-same u t v e ∙ h.0, Misses-same u t out e h.1)

remove_first-Misses :
    (t : Transaction) (out : List Transaction) → Distinct out → Misses (remove_first t out) t
unfolding remove_first
remove_first-Misses t [] h = tt
remove_first-Misses t (u ∷ us) h = elim (Bool-cases (compare_transactions u t)) [
  | inl hit ↦ rw hit (Misses-same u t us hit h.0)
  | inr miss ↦ rw miss (miss, remove_first-Misses t us h.1)
]

remove_first-Distinct :
    (t : Transaction) (out : List Transaction) → Distinct out → Distinct (remove_first t out)
unfolding remove_first
remove_first-Distinct t [] h = tt
remove_first-Distinct t (u ∷ us) h = elim (Bool-cases (compare_transactions u t)) [
  | inl hit ↦ rw hit h.1
  | inr miss ↦ rw miss (
    All-remove_first (λ (v : Transaction). compare_transactions v u ≡ false) t us h.0,
    remove_first-Distinct t us h.1,
  )
]

remove_first-missing :
    (t : Transaction) (out : List Transaction) → Misses out t → remove_first t out ≡ out
unfolding remove_first
remove_first-missing t [] h = refl
remove_first-missing t (u ∷ us) h = rw h.0 (ap (◌∷◌ u) (remove_first-missing t us h.1))

module _ (my_pid : ℤ) where
  -- The outgoing list after the transactions `ts` were read on the ledger.
  unfoldable pub pending_after : List Transaction → List Transaction → List Transaction
  pending_after [] out = out
  pending_after (t ∷ ts) out =
      pending_after ts (if t.sender ==ℤ my_pid then remove_first t out else out)

  -- The transactions that the user itself sent.
  unfoldable pub own : List Transaction → List Transaction
  own [] = []
  own (t ∷ ts) = if t.sender ==ℤ my_pid then t ∷ own ts else own ts

  -- No transaction that the user sent and that stands in `ts` compares equal to one in `out`.
  abbrev pub Clear : List Transaction → List Transaction → Type 0
  Clear ts out = All (λ (t : Transaction). (t.sender ==ℤ my_pid) ≡ true → Misses out t) ts

  -- What one transaction of the ledger does to the list.
  abbrev pub without : Bool → Transaction → List Transaction → List Transaction
  without b t out = if b then remove_first t out else out

  without-All :
      (P : Transaction → Type 0) (b : Bool) (t : Transaction) (out : List Transaction)
      → All P out
      → All P (without b t out)
  without-All P true t out h = All-remove_first P t out h
  without-All P false t out h = h

  without-Distinct :
      (b : Bool) (t : Transaction) (out : List Transaction)
      → Distinct out
      → Distinct (without b t out)
  without-Distinct true t out h = remove_first-Distinct t out h
  without-Distinct false t out h = h

  without-clear :
      (b : Bool) (t : Transaction) (out : List Transaction)
      → (b ≡ true → Misses out t)
      → without b t out ≡ out
  without-clear true t out h = remove_first-missing t out (h refl)
  without-clear false t out h = refl

  pub pending_after-missing :
      (ts out : List Transaction) → Clear ts out → pending_after ts out ≡ out
  unfolding pending_after
  pending_after-missing [] out h = refl
  pending_after-missing (t ∷ ts) out h =
      ap (pending_after ts) (without-clear (t.sender ==ℤ my_pid) t out h.0)
      ∙ pending_after-missing ts out h.1

  pub pending_after-Distinct :
      (ts out : List Transaction) → Distinct out → Distinct (pending_after ts out)
  unfolding pending_after
  pending_after-Distinct [] out h = h
  pending_after-Distinct (t ∷ ts) out h =
      pending_after-Distinct ts (without (t.sender ==ℤ my_pid) t out)
        (without-Distinct (t.sender ==ℤ my_pid) t out h)

  pub pending_after-All :
      (P : Transaction → Type 0) (ts out : List Transaction)
      → All P out
      → All P (pending_after ts out)
  unfolding pending_after
  pending_after-All P [] out h = h
  pending_after-All P (t ∷ ts) out h =
      pending_after-All P ts (without (t.sender ==ℤ my_pid) t out)
        (without-All P (t.sender ==ℤ my_pid) t out h)

  pub pending_after-Clear :
      (ts out : List Transaction) → Distinct out → Clear ts (pending_after ts out)
  unfolding pending_after
  pending_after-Clear [] out h = tt
  pending_after-Clear (t ∷ ts) out h = (
    λ mine.
        pending_after-All (λ (u : Transaction). compare_transactions u t ≡ false) ts
          (without (t.sender ==ℤ my_pid) t out) (rw mine (remove_first-Misses t out h)),
    pending_after-Clear ts (without (t.sender ==ℤ my_pid) t out)
        (without-Distinct (t.sender ==ℤ my_pid) t out h),
  )
