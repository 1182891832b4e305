-- ===== src/Rand.antt =====
-- The macro RAND of src/include/common.h.
use simulazione_transazioni.Prelude.{
  ℕ, zero, suc, ◌+◌, ◌-◌, ◌%◌, ◌^◌, ◌≤◌, ◌<◌, ◌≡◌, refl, ap, Option, none, some, arith,
}
use simulazione_transazioni.Prelude.Words.{u32, sub_u32}

-- The macro RAND on unsigned bounds; `draw` is what `rand` gives. `none`: a division by 0.
unfoldable pub rand_between : ℕ → ℕ → ℕ → Option ℕ
rand_between draw min max = elim (u32 (sub_u32 max min + 1)) [
  | zero ↦ none
  | suc n ↦ some (u32 (draw % suc n + min))
]

mod_small : (n : ℕ) → n < 2 ^ 32 → u32 n ≡ n
mod_small n h = omega arith

-- The amount that is drawn lies between 2 and the balance.
pub rand_between_lem :
    (draw max : ℕ)
    → 2 ≤ max
    → max < 2 ^ 32
    → (n : ℕ) × (rand_between draw 2 max ≡ some n) × (2 ≤ n) × (n ≤ max)
unfolding rand_between
rand_between_lem draw max le small =
    let span : u32 (sub_u32 max 2 + 1) ≡ suc (max - 2) = omega arith in
    let below : draw % suc (max - 2) < suc (max - 2) = omega arith in
    (
      draw % suc (max - 2) + 2,
      rw (rand_between, span) (ap some (mod_small (draw % suc (max - 2) + 2) (omega arith))),
      omega arith,
      omega arith,
    )

-- RAND from 0 to `n` is the remainder by `n + 1`.
pub rand_from_0_lem :
    (draw n : ℕ) → suc n < 2 ^ 32 → rand_between draw 0 (sub_u32 (suc n) 1) ≡ some (draw % suc n)
unfolding rand_between
rand_from_0_lem draw n small =
    let span : u32 (sub_u32 (sub_u32 (suc n) 1) 0 + 1) ≡ suc n = omega arith in
    let below : draw % suc n < suc n = omega arith in
    rw (rand_between, span) (ap some (omega arith))

-- For a number that is not 0, RAND up to one less gives an index below it.
pub rand_from_0 :
    (draw n : ℕ)
    → 0 < n
    → n < 2 ^ 32
    → (i : ℕ) × (rand_between draw 0 (sub_u32 n 1) ≡ some i) × (i < n) × (i ≡ draw % n)
rand_from_0 draw zero some_left small = absurd (omega arith)
rand_from_0 draw (suc n) some_left small =
    (draw % suc n, rand_from_0_lem draw n small, omega arith, refl)
