-- ===== src/Print/Ranks.antt =====
-- The tables of the wealthiest processes in print_most_significant_processes of src/print.c.
use simulazione_transazioni.Prelude.{
  ℕ, ◌+◌, ◌≤◌, ◌≡◌, Bool, List, [], ◌∷◌, ◌++◌, arith, if◌then◌else◌, ltb, Bool-cases, inl, inr, All,
  All-weaken, length, count_if, count_if-append,
}
use simulazione_transazioni.Print.{Place, Places, rank_high, rank_all, no_places}

-- No entry has more than `n`.
abbrev pub Below : ℕ → List Place → Type 0
Below n = All (λ (x : Place). x.balance ≤ n)

Below-more : {a b : ℕ} → a ≤ b → (xs : List Place) → Below a xs → Below b xs
Below-more le = All-weaken (λ (x : Place) (h : x.balance ≤ _). omega arith)

-- How many entries are more than `n` and all entries before them.
unfoldable pub maxima : ℕ → List Place → ℕ
maxima n [] = 0
maxima n (x ∷ xs) = if ltb n x.balance then 1 + maxima x.balance xs else maxima n xs

-- The entries that are not in the table: `others`, and those that a new greatest one pushed off the
-- second place.
pub record Rest : Type 0 where
  pub others : List Place
  pub displaced : List Place

-- The table `t` and the rest hold the entries `xs`, each as often.
abbrev pub Holds : List Place → Places → Rest → Type 0
Holds xs t r =
    (p : Place → Bool)
    → count_if p (t.first ∷ t.second ∷ t.third ∷ []) + count_if p r.others + count_if p r.displaced
      ≡ count_if p xs

-- The table is in order, and nothing of the rest but what was pushed off belongs into it.
pub record IsInOrder (t : Places) (r : Rest) : Type 0 where
  pub second : t.second.balance ≤ t.first.balance
  pub third : t.third.balance ≤ t.second.balance
  pub others : Below t.third.balance r.others
  pub displaced : Below t.second.balance r.displaced

-- What the loop over `xs` makes of the table `t` with the rest `r`.
abbrev pub Ranked : List Place → Places → Rest → Places → Rest → Type 0
Ranked xs t r t' r' =
    IsInOrder t' r'
    × ((p : Place → Bool)
        → count_if p (t'.first ∷ t'.second ∷ t'.third ∷ [])
            + count_if p r'.others
            + count_if p r'.displaced
          ≡ count_if p (t.first ∷ t.second ∷ t.third ∷ [])
            + count_if p r.others
            + count_if p r.displaced
            + count_if p xs)
    × (length r'.displaced ≡ length r.displaced + maxima t.first.balance xs)

-- A round, for which `rest` tells where the entry that is left over goes.
module _ (x : Place) (t : Places) (r : Rest) (h : IsInOrder t r) where
  rank_high-Ranked :
      (r' : Rest) × Ranked (x ∷ []) t r (rank_high x t) r'
      × ((xs : List Place)
          → maxima t.first.balance (x ∷ xs)
            ≡ maxima t.first.balance (x ∷ []) + maxima (rank_high x t).first.balance xs)
  unfolding rank_high maxima
  rank_high-Ranked = elim (Bool-cases (ltb t.first.balance x.balance)) [
    | inl best ↦
        let le : t.first.balance ≤ x.balance = ground arith in
        (
          record { others = r.others; displaced = t.second ∷ r.displaced },
          rw best (
            record {
              second = le;
              third = omega (arith, h.second, h.third);
              others = h.others;
              displaced = (h.second, Below-more h.second r.displaced h.displaced);
            },
            (λ p. omega arith),
            omega arith,
          ),
          (λ xs. rw best (omega arith)),
        )
    | inr other ↦ elim (Bool-cases (ltb t.second.balance x.balance)) [
      | inl good ↦
          let le : t.second.balance ≤ x.balance = ground arith in
          let under : x.balance ≤ t.first.balance = ground arith in
          (
            record { others = t.third ∷ r.others; displaced = r.displaced },
            rw (other, good)
                (
                  record {
                    second = under;
                    third = le;
                    others = (h.third, Below-more h.third r.others h.others);
                    displaced = Below-more le r.displaced h.displaced;
                  },
                  (λ p. omega arith),
                  omega arith,
                ),
            (λ xs. rw (other, good) (omega arith)),
          )
      | inr low ↦ elim (Bool-cases (ltb t.third.balance x.balance)) [
        | inl fair ↦
            let le : t.third.balance ≤ x.balance = ground arith in
            let under : x.balance ≤ t.second.balance = ground arith in
            (
              record { others = t.third ∷ r.others; displaced = r.displaced },
              rw (other, low, fair)
                  (
                    record {
                      second = h.second;
                      third = under;
                      others = (le, Below-more le r.others h.others);
                      displaced = h.displaced;
                    },
                    (λ p. omega arith),
                    omega arith,
                  ),
              (λ xs. rw (other, low, fair) (omega arith)),
            )
        | inr poor ↦
            let under : x.balance ≤ t.third.balance = ground arith in
            (
              record { others = x ∷ r.others; displaced = r.displaced },
              rw (other, low, poor)
                  (
                    record {
                      second = h.second;
                      third = h.third;
                      others = (under, h.others);
                      displaced = h.displaced;
                    },
                    (λ p. omega arith),
                    omega arith,
                  ),
              (λ xs. rw (other, low, poor) (omega arith)),
            )
      ]
    ]
  ]

rank_all-Ranked :
    (xs : List Place) (t : Places) (r : Rest)
    → IsInOrder t r
    → (r' : Rest) × Ranked xs t r (rank_all rank_high xs t) r'
unfolding rank_all
rank_all-Ranked [] t r h = (r, (h, (λ p. omega arith), unfold maxima in omega arith))
rank_all-Ranked (x ∷ xs) t r h =
    let (r₁, one, more) = rank_high-Ranked x t r h in
    let (r₂, (order, counts, pushed)) = rank_all-Ranked xs (rank_high x t) r₁ one.0 in
    (r₂, (order, (λ p. omega (arith, counts p, one.1 p)), omega (arith, pushed, one.2, more xs)))

-- After the loop over the entries `xs`, from three places of balance 0 and pid 0, the table and a
-- rest hold just the entries and those three, each with its pid and as often as before. The first
-- place is at least the second, the second at least the third. Of the rest the others are at most the
-- third place. Only as many as there are entries that are more than 0 and than all before them may
-- be more than the third place; they are at most the second. So the first two places are the
-- greatest entries, and the third need not be the next.
pub rank_all-Sorted :
    (xs : List Place)
    → (r : Rest) × IsInOrder (rank_all rank_high xs (no_places 0)) r
      × Holds
          (xs ++ (no_places 0).first ∷ (no_places 0).second ∷ (no_places 0).third ∷ [])
          (rank_all rank_high xs (no_places 0))
          r
      × (length r.displaced ≡ maxima 0 xs)
rank_all-Sorted xs =
    let start : Rest = record { others = []; displaced = [] } in
    let (r, (order, counts, pushed)) =
      rank_all-Ranked xs (no_places 0) start
        (record { second = omega arith; third = omega arith; others = tt; displaced = tt }) in
    (
      r,
      order,
      (λ p. omega (
        arith,
        counts p,
        count_if-append p xs
            ((no_places 0).first ∷ (no_places 0).second ∷ (no_places 0).third ∷ []),
      )),
      omega (arith, pushed),
    )
