-- ===== src/Master/Ending/Reason.antt =====
-- The reason that master_interrupt_handle of src/master.c gives: whether the ledger is full.
use simulazione_transazioni.Prelude.{
  ℕ, suc, ◌+◌, ◌-◌, ◌==◌, ◌≤◌, ◌<◌, ◌≡◌, ◌⊎◌, inl, inr, refl, ap, ◌∙◌, false, not, List, [], ◌∷◌,
  some, if◌then◌else◌, length, get_elem?, take_all, All, arith, Bool-cases,
}
use simulazione_transazioni.Common.{Block, Term, ledger_full, so_registry_size}
use simulazione_transazioni.Ledger.{is_free}
use simulazione_transazioni.Ledger.Append.{written, length-written}
use simulazione_transazioni.Ledger.Race.Slots.{IsLedger}
use simulazione_transazioni.Print.{is_written, last_index, num_blocks}
use simulazione_transazioni.Master.Ending.{final_reason}

-- A slot is written when its first transaction is a reward transaction.
abbrev pub StartWithReward : List Block → Type 0
StartWithReward = All (λ (b : Block). is_written b ≡ not (is_free b))

-- The written blocks have the numbers from `k` on.
abbrev Numbered : ℕ → List Block → Type 0
Numbered k l =
    (i : ℕ) (b : Block) → get_elem? l i ≡ some b → is_free b ≡ false → b.block_index ≡ k + i

next_number :
    (n k i d : ℕ)
    → i ≡ k + 0
    → (if n == 0 then i else k + 1 + n - 1) ≡ (if suc n == 0 then d else k + suc n - 1)
next_number n k i d e = ground arith

one_less : (n : ℕ) → (if n == 0 then 0 else 0 + n - 1) ≡ n - 1
one_less n = ground arith

last_index_lem :
    (l : List Block) (k d : ℕ)
    → StartWithReward l
    → Numbered k l
    → last_index l d ≡ (if length (written l) == 0 then d else k + length (written l) - 1)
unfolding last_index written
last_index_lem [] k d h num = refl
last_index_lem (b ∷ l) k d h num = elim (Bool-cases (is_free b)) [
  | inl free ↦ rw (last_index, h.0, free, written) refl
  | inr full ↦
      let ih =
        last_index_lem l (k + 1) b.block_index h.1 (λ i c at w. num (suc i) c at w ∙ omega arith) in
      let first = num 0 b refl full in
      rw (last_index, h.0, full, written)
        (ih ∙ next_number (length (written l)) k b.block_index d first)
]

num_blocks_all :
    (ledger : List Block)
    → length ledger ≡ so_registry_size
    → num_blocks ledger ≡ last_index ledger 0
unfolding num_blocks
num_blocks_all ledger e =
    ap (λ (l : List Block). last_index l 0) (take_all so_registry_size ledger e)

last_is_full :
    (m n : ℕ) (a b : Term)
    → m ≡ n - 1
    → n ≤ so_registry_size
    → ((n ≡ so_registry_size) × ((if m == so_registry_size - 1 then a else b) ≡ a))
      ⊎ ((n < so_registry_size) × ((if m == so_registry_size - 1 then a else b) ≡ b))
last_is_full m n a b e h = elim (Bool-cases (m == so_registry_size - 1)) [
  | inl last ↦ inl (ground arith, rw last refl)
  | inr other ↦ inr (ground arith, rw other refl)
]

module _ (ledger : List Block) where
  num_blocks-written :
      IsLedger ledger → StartWithReward ledger → num_blocks ledger ≡ length (written ledger) - 1
  num_blocks-written ok h =
      num_blocks_all ledger ok.size
      ∙ last_index_lem ledger 0 0 h (λ i b at full. ok.numbered i b at full ∙ omega arith)
      ∙ one_less (length (written ledger))

  -- What the reason is.
  abbrev pub Tells : Term → Type 0
  Tells term_reason =
      ((length (written ledger) ≡ so_registry_size)
        × (final_reason ledger term_reason ≡ ledger_full))
      ⊎ ((length (written ledger) < so_registry_size)
          × (final_reason ledger term_reason ≡ term_reason))

  -- For a ledger of the size of the registry whose written slots stand in front, numbered by their
  -- places, and are those that start with a reward transaction: print_num_blocks returns one less than
  -- the number of the written blocks, 0 for none, and the reason that the handler of SIGINT of the
  -- master gives is that the ledger is full exactly when all slots are written, and is the one that
  -- was set before otherwise.
  pub final_reason-Tells :
      (term_reason : Term)
      → IsLedger ledger
      → StartWithReward ledger
      → (num_blocks ledger ≡ length (written ledger) - 1) × Tells term_reason
  unfolding final_reason
  final_reason-Tells term_reason ok h =
      let count = num_blocks-written ok h in
      let full =
        last_is_full (num_blocks ledger) (length (written ledger)) ledger_full term_reason count
          (omega (arith, length-written ledger, ok.size)) in
      (count, full)
