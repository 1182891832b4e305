-- ===== src/Economy/Trade.antt =====
-- What the transactions between the users of src/users.c come to for all of them together.
use simulazione_transazioni.Prelude.{
  ◌≡◌, ◌≢◌, refl, sym, ap, ◌∙◌, false, List, [], ◌∷◌, arith, All, if◌then◌else◌, Bool-cases, inl,
  inr, count_if,
}
use simulazione_transazioni.Prelude.Int.{
  ℤ, pos, pos_part, eq_of_parts, ◌+ℤ◌, ◌-ℤ◌, ◌==ℤ◌, ==ℤ_iff, ==ℤ_ne, int_laws,
}
use simulazione_transazioni.Prelude.Words.{add_i32-eq-add}
use simulazione_transazioni.Common.{Transaction}
use simulazione_transazioni.Ledger.Blocks.{total_reward}
use simulazione_transazioni.Users.Wallet.{cost}
use simulazione_transazioni.Users.Wallet.Count.{spent, received}
use simulazione_transazioni.Users.Wallet.Pending.{own}
use simulazione_transazioni.Economy.{total, IsBetween}

-- `c`, if the pid is `x`.
abbrev pub only : ℤ → ℤ → ℤ → ℤ
only x c p = if x ==ℤ p then c else pos 0

zero_plus : {a b : ℤ} → a ≡ b → pos 0 +ℤ a ≡ b
zero_plus e = ap (◌+ℤ◌ (pos 0)) e ∙ omega int_laws

total-only_none :
    (x c : ℤ) (ps : List ℤ) → count_if (λ p. x ==ℤ p) ps ≡ 0 → total (only x c) ps ≡ pos 0
total-only_none x c [] h = refl
total-only_none x c (p ∷ ps) h = elim (Bool-cases (x ==ℤ p)) [
  | inl hit ↦ absurd (ground arith)
  | inr miss ↦ rw miss (zero_plus (total-only_none x c ps (ground arith)))
]

-- Over pids of which one is `x`, that sums up to `c`.
pub total-only : (x c : ℤ) (ps : List ℤ) → count_if (λ p. x ==ℤ p) ps ≡ 1 → total (only x c) ps ≡ c
total-only x c [] h = absurd (omega arith)
total-only x c (p ∷ ps) h = elim (Bool-cases (x ==ℤ p)) [
  | inl hit ↦ rw hit (ap (◌+ℤ◌ c) (total-only_none x c ps (ground arith)) ∙ omega int_laws)
  | inr miss ↦ rw miss (zero_plus (total-only x c ps (ground arith)))
]

pub total-cong : (f g : ℤ → ℤ) → ((p : ℤ) → f p ≡ g p) → (ps : List ℤ) → total f ps ≡ total g ps
total-cong f g h [] = refl
total-cong f g h (p ∷ ps) = λ j. h p j +ℤ total-cong f g h ps j

total-linear :
    (f g k : ℤ → ℤ) (ps : List ℤ)
    → total (λ p. f p -ℤ g p +ℤ k p) ps ≡ total f ps -ℤ total g ps +ℤ total k ps
total-linear f g k [] = omega int_laws
total-linear f g k (p ∷ ps) = ap (◌+ℤ◌ (f p -ℤ g p +ℤ k p)) (total-linear f g k ps) ∙ omega int_laws

-- What the transactions give a user, less what they cost it.
abbrev pub net : List Transaction → ℤ → ℤ
net ts p = received p ts -ℤ spent (own p ts)

net-cons :
    (t : Transaction) (ts : List Transaction) (p : ℤ)
    → t.sender ≢ t.receiver
    → net (t ∷ ts) p ≡ only t.receiver t.amount p -ℤ only t.sender (cost t) p +ℤ net ts p
unfolding received own spent
net-cons t ts p others = elim (Bool-cases (t.sender ==ℤ p)) [
  | inl mine ↦
      let not_to : (t.receiver ==ℤ p) ≡ false =
        ==ℤ_ne t.receiver p (λ e. others ((==ℤ_iff t.sender p).0 mine ∙ sym e)) in
      rw (mine, not_to) (omega int_laws)
  | inr theirs ↦ elim (Bool-cases (t.receiver ==ℤ p)) [
    | inl got ↦ rw (theirs, got) (omega int_laws)
    | inr away ↦ rw (theirs, away) (omega int_laws)
  ]
]

total-nothing : (ps : List ℤ) → total (net []) ps ≡ pos 0 -ℤ pos 0
unfolding received own spent
total-nothing [] = omega int_laws
total-nothing (p ∷ ps) = ap (◌+ℤ◌ (net [] p)) (total-nothing ps) ∙ omega int_laws

-- The cost is not cut off, and the reward is a number.
cost-IsBetween :
    (users : List ℤ) (t : Transaction)
    → IsBetween users t
    → t.amount -ℤ cost t ≡ pos 0 -ℤ pos (pos_part t.reward)
unfolding cost
cost-IsBetween users t h =
    rw (add_i32-eq-add t.amount t.reward h.fits)
      (eq_of_parts _ _ (omega (arith, int_laws, h.rewarded)))

-- The users together lose the rewards, and nothing else.
pub total-net :
    (users : List ℤ) (ts : List Transaction)
    → All (IsBetween users) ts
    → total (net ts) users ≡ pos 0 -ℤ pos (total_reward ts)
unfolding total_reward
total-net users [] h = total-nothing users
total-net users (t ∷ ts) h =
    total-cong _ _ (λ p. net-cons t ts p h.0.others) users
    ∙ total-linear (only t.receiver t.amount) (only t.sender (cost t)) (net ts) users
    ∙ (λ j.
        total-only t.receiver t.amount users h.0.to j
        -ℤ total-only t.sender (cost t) users h.0.from j
        +ℤ total-net users ts h.1 j)
    ∙ ap (λ (x : ℤ). x +ℤ (pos 0 -ℤ pos (total_reward ts))) (cost-IsBetween users t h.0)
    ∙ omega int_laws
