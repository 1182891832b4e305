-- ===== src/Prelude/Words.antt =====
-- The machine words of the C types `unsigned int` and `int`: an unsigned value is a number below
-- 2 ^ 32, an `int` an integer, and a conversion keeps the bit pattern.
use Prim.Native.Nat.{ℕ, ◌+◌, ◌-◌, ◌%◌, ◌^◌, ◌≤◌, ◌<◌}
use mathlib.Core.Path.{◌≡◌}
use native.Mathlib.Omega.{arith}
use simulazione_transazioni.Prelude.Tests.{ltb, if◌then◌else◌}
use simulazione_transazioni.Prelude.Int.{ℤ, pos, negsuc, pos_part, neg_part, ◌+ℤ◌}

abbrev pub u32 : ℕ → ℕ
u32 n = n % 2 ^ 32

-- (unsigned int) of an integer.
unfoldable pub u32_of_ℤ : ℤ → ℕ
u32_of_ℤ (pos n) = n % 2 ^ 32
u32_of_ℤ (negsuc n) = 2 ^ 32 - 1 - n % 2 ^ 32

-- (int) of an unsigned value below 2 ^ 32.
unfoldable pub i32_of_u32 : ℕ → ℤ
i32_of_u32 w = if ltb w (2 ^ 31) then pos w else negsuc (2 ^ 32 - w - 1)

-- Wrapping `int` addition.
unfoldable pub add_i32 : ℤ → ℤ → ℤ
add_i32 a b = i32_of_u32 (u32_of_ℤ (a +ℤ b))

-- Unsigned subtraction wraps.
abbrev pub sub_u32 : ℕ → ℕ → ℕ
sub_u32 a b = (a + 2 ^ 32 - b) % 2 ^ 32

-- An integer that an `int` holds.
abbrev pub IsI32 : ℤ → Type 0
IsI32 a = (pos_part a < 2 ^ 31) × (neg_part a ≤ 2 ^ 31)

i32_of_u32-u32_of_ℤ : (a : ℤ) → IsI32 a → i32_of_u32 (u32_of_ℤ a) ≡ a
unfolding i32_of_u32 u32_of_ℤ
i32_of_u32-u32_of_ℤ (pos n) h = ground arith
i32_of_u32-u32_of_ℤ (negsuc n) h = ground arith

-- An `int` sum that does not overflow is the sum.
pub add_i32-eq-add : (a b : ℤ) → IsI32 (a +ℤ b) → add_i32 a b ≡ a +ℤ b
unfolding add_i32
add_i32-eq-add a b h = i32_of_u32-u32_of_ℤ (a +ℤ b) h

pub i32_of_u32_small : (n : ℕ) → n < 2 ^ 31 → i32_of_u32 n ≡ pos n
unfolding i32_of_u32
i32_of_u32_small n h = ground arith

pub u32_of_ℤ_bound : (a : ℤ) → u32_of_ℤ a < 2 ^ 32
unfolding u32_of_ℤ
u32_of_ℤ_bound (pos n) = omega arith
u32_of_ℤ_bound (negsuc n) = omega arith

-- (unsigned long) of an integer.
unfoldable pub u64_of_ℤ : ℤ → ℕ
u64_of_ℤ (pos n) = n % 2 ^ 64
u64_of_ℤ (negsuc n) = 2 ^ 64 - 1 - n % 2 ^ 64
