-- ===== src/Ledger/Race/Slots.antt =====
-- Ledgers seen slot by slot, and what a write to one slot keeps.
use simulazione_transazioni.Prelude.{
  ℕ, zero, suc, ◌+◌, ◌<◌, ◌≤◌, ◌≡◌, ◌≢◌, refl, ap, true, false, List, [], ◌∷◌, some, arith, length,
  length-set, get_elem?, set, ◌∙◌, get_elem?-set_self, get_elem?-set_ne,
}
use mathlib.Core.Path.{subst, sym}
use mathlib.Core.Bool.{false≢true}
use native.Mathlib.Decide.{dec_lt, ℕ_discrete}
use simulazione_transazioni.Common.{Block, so_registry_size}
use simulazione_transazioni.Ledger.{slot_is_free, is_free, confirm_block}
use simulazione_transazioni.Ledger.Append.{is_free-confirm}

-- The ledger keeps its size; the written slots stand in front of the free ones; each written block
-- has the number of its slot.
pub record IsLedger (ledger : List Block) : Type 0 where
  pub size : length ledger ≡ so_registry_size
  pub prefixed :
      (i j : ℕ)
      → i < j
      → j < so_registry_size
      → slot_is_free ledger i ≡ true
      → slot_is_free ledger j ≡ true
  pub numbered :
      (i : ℕ) (b : Block) → get_elem? ledger i ≡ some b → is_free b ≡ false → b.block_index ≡ i

abbrev pub Behind : List Block → ℕ → Type 0
Behind ledger n = (j : ℕ) → j < n → slot_is_free ledger j ≡ false

slot_is_free-set_self :
    (l : List Block) (i : ℕ) (b : Block) → i < length l → slot_is_free (set l i b) i ≡ is_free b
unfolding slot_is_free
slot_is_free-set_self l i b h = rw (get_elem?-set_self l i b h, slot_is_free)

slot_is_free-set_ne :
    (l : List Block) (i j : ℕ) (b : Block) → i ≢ j → slot_is_free (set l i b) j ≡ slot_is_free l j
unfolding slot_is_free
slot_is_free-set_ne l i j b h = rw (get_elem?-set_ne l b h, slot_is_free)

slot_is_free_out : (l : List Block) (i : ℕ) → length l ≤ i → slot_is_free l i ≡ false
unfolding slot_is_free
slot_is_free_out [] i h = refl
slot_is_free_out (x ∷ l) zero h = absurd (omega arith)
slot_is_free_out (x ∷ l) (suc i) h = slot_is_free_out l i (omega arith)

set_out {ℓ} : {A : Type ℓ} (l : List A) (i : ℕ) (v : A) → length l ≤ i → set l i v ≡ l
set_out [] i v h = refl
set_out (x ∷ l) zero v h = absurd (omega arith)
set_out (x ∷ l) (suc i) v h = ap (◌∷◌ x) (set_out l i v (omega arith))

-- A written block that replaces the one in slot `i` leaves the written slots written.
pub Behind-set :
    (l : List Block) (i : ℕ) (b : Block) (n : ℕ)
    → is_free b ≡ false
    → Behind l n
    → Behind (set l i b) n
Behind-set l i b n full behind j h = elim (ℕ_discrete i j) [
  | yes same ↦ elim (dec_lt i (length l)) [
    | yes inside ↦ rw (← same) (slot_is_free-set_self l i b inside ∙ full)
    | no outside ↦ rw (set_out l i b (omega arith)) (behind j h)
  ]
  | no other ↦ slot_is_free-set_ne l i j b other ∙ behind j h
]

numbered_set :
    (l : List Block) (i : ℕ) (b : Block)
    → (is_free b ≡ false → b.block_index ≡ i)
    → ((j : ℕ) (c : Block) → get_elem? l j ≡ some c → is_free c ≡ false → c.block_index ≡ j)
    → (j : ℕ) (c : Block) → get_elem? (set l i b) j ≡ some c
    → is_free c ≡ false
    → c.block_index ≡ j
numbered_set l i b e h j c at full = elim (ℕ_discrete i j) [
  | yes same ↦ elim (dec_lt i (length l)) [
    | yes inside ↦
        let got : get_elem? (set l i b) j ≡ some b =
          rw (← same) (get_elem?-set_self l i b inside) in
        let is : c ≡ b = cc in rw is (e (ap is_free (sym is) ∙ full) ∙ same)
    | no outside ↦ h j c (rw (set_out l i b (omega arith)) at at) full
  ]
  | no other ↦ h j c (sym (get_elem?-set_ne l b other) ∙ at) full
]

pub IsLedger-set :
    (l : List Block) (i : ℕ) (b : Block)
    → is_free b ≡ false
    → b.block_index ≡ i
    → Behind l i
    → IsLedger l
    → IsLedger (set l i b)
IsLedger-set l i b full index behind ok = record {
  size = length-set l i b ∙ ok.size;
  prefixed = λ j k lt top e. elim (ℕ_discrete i j) [
    | yes same ↦ absurd (clash j same (omega arith) e)
    | no other ↦ later j k other lt (sym (slot_is_free-set_ne l i j b other) ∙ e) top
  ];
  numbered = numbered_set l i b (λ _. index) ok.numbered;
}
  where
    clash : (j : ℕ) → i ≡ j → j < length l → slot_is_free (set l i b) j ≡ true → ⊥
    clash j same top e = false≢true (
        sym (
          subst (λ m. slot_is_free (set l m b) j ≡ false) (sym same)
            (slot_is_free-set_self l j b top ∙ full))
        ∙ e)

    later :
        (j k : ℕ)
        → i ≢ j
        → j < k
        → slot_is_free l j ≡ true
        → k < so_registry_size
        → slot_is_free (set l i b) k ≡ true
    later j k other lt e top = elim (ℕ_discrete i k) [
      | yes same ↦ absurd (false≢true (sym (behind j (omega arith)) ∙ e))
      | no far ↦ slot_is_free-set_ne l i k b far ∙ ok.prefixed j k lt top e
    ]

-- Confirming the block of a slot changes no test.
slot_is_free-confirm :
    (l : List Block) (i : ℕ) (b : Block) (j : ℕ)
    → get_elem? l i ≡ some b
    → slot_is_free (set l i (confirm_block b)) j ≡ slot_is_free l j
unfolding slot_is_free
slot_is_free-confirm [] i b j at = refl
slot_is_free-confirm (x ∷ l) zero b zero at =
    is_free-confirm b b.block_index ∙ (let is : b ≡ x = cc in ap is_free is)
slot_is_free-confirm (x ∷ l) zero b (suc j) at = refl
slot_is_free-confirm (x ∷ l) (suc i) b zero at = refl
slot_is_free-confirm (x ∷ l) (suc i) b (suc j) at = slot_is_free-confirm l i b j at

numbered_confirm :
    (l : List Block) (i : ℕ) (b : Block)
    → get_elem? l i ≡ some b
    → IsLedger l
    → (j : ℕ) (c : Block) → get_elem? (set l i (confirm_block b)) j ≡ some c
    → is_free c ≡ false
    → c.block_index ≡ j
unfolding confirm_block
numbered_confirm l i b at ok =
    numbered_set l i (confirm_block b)
      (λ full. ok.numbered i b at (sym (is_free-confirm b b.block_index) ∙ full)) ok.numbered

pub IsLedger-confirm :
    (l : List Block) (i : ℕ) (b : Block)
    → get_elem? l i ≡ some b
    → IsLedger l
    → IsLedger (set l i (confirm_block b))
IsLedger-confirm l i b at ok = record {
  size = length-set l i (confirm_block b) ∙ ok.size;
  prefixed = λ j k lt top e.
      slot_is_free-confirm l i b k at
      ∙ ok.prefixed j k lt top (sym (slot_is_free-confirm l i b j at) ∙ e);
  numbered = numbered_confirm l i b at ok;
}

pub Behind-confirm :
    (l : List Block) (i : ℕ) (b : Block) (n : ℕ)
    → get_elem? l i ≡ some b
    → Behind l n
    → Behind (set l i (confirm_block b)) n
Behind-confirm l i b n at behind j h = slot_is_free-confirm l i b j at ∙ behind j h

pub Behind-suc : (l : List Block) (n : ℕ) → Behind l n → slot_is_free l n ≡ false → Behind l (n + 1)
Behind-suc l n behind full j h = elim (ℕ_discrete j n) [
  | yes same ↦ rw same full
  | no other ↦ behind j (omega arith)
]
