-- ===== src/Economy.antt =====
-- The money of the whole simulation: the balances that the users of src/users.c and the nodes of
-- src/nodes.c read off one ledger, and the blocks that the nodes write to it.
pub mod Trade
pub mod Pay
pub mod Conserved
pub mod Kept
pub mod Finish
use simulazione_transazioni.Prelude.{
  ℕ, ◌-◌, ◌≡◌, ◌≢◌, ◌⊎◌, true, List, [], ◌∷◌, length, All, count_if,
}
use simulazione_transazioni.Prelude.Int.{ℤ, pos, neg_part, ◌+ℤ◌, ◌==ℤ◌}
use simulazione_transazioni.Prelude.Words.{IsI32}
use simulazione_transazioni.Common.{Transaction, Block, so_block_size}
use simulazione_transazioni.Users.Wallet.{block_flag}
use simulazione_transazioni.Ledger.{is_free}
use simulazione_transazioni.Ledger.Blocks.{total_reward}
use simulazione_transazioni.Nodes.Earned.{own_reward}

-- The sum of a quantity over a list.
abbrev pub total {ℓ} : {A : Type ℓ} → (A → ℤ) → List A → ℤ
total f [] = pos 0
total f (x ∷ xs) = f x +ℤ total f xs

-- Just one of the pids is `x`.
abbrev pub Once : List ℤ → ℤ → Type 0
Once pids x = count_if (λ p. x ==ℤ p) pids ≡ 1

-- A transaction between two of the users, whose cost an `int` holds.
pub record IsBetween (users : List ℤ) (t : Transaction) : Type 0 where
  pub from : Once users t.sender
  pub to : Once users t.receiver
  pub others : t.sender ≢ t.receiver
  pub fits : IsI32 (t.amount +ℤ t.reward)
  pub rewarded : neg_part t.reward ≡ 0

-- A block with a time, that pays just its rewards to one of the nodes.
pub record IsFair (users nodes : List ℤ) (b : Block) : Type 0 where
  pub pay : Transaction
  pub sent : List Transaction
  pub shape : b.trans_list ≡ pay ∷ sent
  pub nine : length sent ≡ so_block_size - 1
  pub timed : block_flag b ≢ 0
  pub to_node : Once nodes pay.receiver
  pub exact : pay.amount ≡ pos (total_reward sent)
  pub between : All (IsBetween users) sent

-- A free slot, with no time, that pays nothing.
abbrev pub IsBlank : Block → Type 0
IsBlank b = (block_flag b ≡ 0) × ((n : ℤ) → own_reward n b ≡ pos 0) × (is_free b ≡ true)

-- Fair blocks, and behind them blank slots.
abbrev pub IsBooked : List ℤ → List ℤ → List Block → Type 0
IsBooked users nodes [] = Unit {0}
IsBooked users nodes (b ∷ l) =
    (IsBlank b × All IsBlank l) ⊎ (IsFair users nodes b × IsBooked users nodes l)
