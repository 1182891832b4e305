-- ===== src/Users/Sending/Amounts.antt =====
-- The reward that a user of src/users.c takes off the amount that it sends.
use simulazione_transazioni.Prelude.{ℕ, ◌*◌, ◌^◌, ◌≤◌, arith}
use native.Mathlib.Nat.{mul-le-mul_right, mod-le}
use simulazione_transazioni.Prelude.Words.{u32}
use simulazione_transazioni.Users.Sending.{reward_of}

mul_le : (r a : ℕ) → r ≤ 100 → r * a ≤ 100 * a
mul_le r a h = mul-le-mul_right a h

u32_le : (n : ℕ) → u32 n ≤ n
u32_le n = mod-le n (2 ^ 32)

-- A reward is never more than what it is taken from, even when the product wraps.
pub reward_of_le : (amount reward : ℕ) → reward ≤ 100 → reward_of amount reward ≤ amount
unfolding reward_of
reward_of_le amount reward h =
    let p = mul_le reward amount h in let q = u32_le (reward * amount) in omega (arith, p, q)
