-- ===== src/Ledger/Append.antt =====
-- insert_block_in_ledger of src/nodes.c as an append to the list of the blocks written so far.
use simulazione_transazioni.Prelude.{
  ℕ, zero, suc, ◌<◌, ◌≤◌, ◌≡◌, refl, ap, ◌⊎◌, inl, inr, true, false, List, [], ◌∷◌, ◌++◌, none,
  some, arith, if◌then◌else◌, ltb, lt→ltb, le→ltb_false, All, length, length-set, get_elem?, set,
  Bool-cases, map, ◌∙◌,
}
use mathlib.Core.Option
use mathlib.Core.Path.{subst}
use native.Mathlib.Decide.{dec_lt}
use simulazione_transazioni.Common.{Block, Transaction, so_registry_size}
use simulazione_transazioni.Ledger.{
  is_free, find_slot, confirm, confirm_block, insert_block_in_ledger,
}

-- The blocks that have been written: those before the first free slot.
unfoldable pub written : List Block → List Block
written [] = []
written (b ∷ l) = if is_free b then [] else b ∷ written l

abbrev pub AllFree : List Block → Type 0
AllFree = All (λ b. is_free b ≡ true)

-- Behind the first free slot every slot is free.
abbrev pub IsPrefixed : List Block → Type 0
IsPrefixed [] = Unit {0}
IsPrefixed (b ∷ l) = ((is_free b ≡ true) × AllFree l) ⊎ ((is_free b ≡ false) × IsPrefixed l)

is_free-confirm_list :
    (ts : List Transaction) (i : ℕ)
    → is_free (record { trans_list = map confirm ts; block_index = i })
      ≡ is_free (record { trans_list = ts; block_index = i })
unfolding is_free
is_free-confirm_list [] i = refl
is_free-confirm_list (t ∷ []) i = refl
is_free-confirm_list (t ∷ u ∷ ts) i = refl

-- Confirming a block and numbering it does not make its slot free.
pub is_free-confirm :
    (b : Block) (i : ℕ) → is_free (confirm_block (record b { block_index = i })) ≡ is_free b
unfolding confirm_block is_free
is_free-confirm b i = is_free-confirm_list b.trans_list i

find_slot-cons :
    (k i : ℕ) (b : Block) (l : List Block)
    → find_slot k (suc i) (b ∷ l) ≡ Option.map suc (find_slot k i l)
unfolding find_slot
find_slot-cons zero i b l = refl
find_slot-cons (suc k) i b l = ground (arith, find_slot-cons k (suc i) b l)

-- The loop finds the slot behind the written blocks, if there is one.
pub find_slot-written :
    (l : List Block)
    → find_slot (length l) 0 l
      ≡ (if ltb (length (written l)) (length l) then some (length (written l)) else none)
unfolding find_slot written
find_slot-written [] = refl
find_slot-written (b ∷ l) = ground (arith, find_slot-written l, find_slot-cons (length l) 0 b l)

pub length-written : (l : List Block) → length (written l) ≤ length l
unfolding written
length-written [] = omega arith
length-written (b ∷ l) = ground (arith, length-written l)

written-AllFree : (l : List Block) → AllFree l → written l ≡ []
unfolding written
written-AllFree [] h = refl
written-AllFree (b ∷ l) h = rw h.0

AllFree-IsPrefixed : (l : List Block) → AllFree l → IsPrefixed l
AllFree-IsPrefixed [] h = tt
AllFree-IsPrefixed (b ∷ l) h = inl h

-- A block in the slot behind the written ones is one more written block.
module _ (x : Block) (full : is_free x ≡ false) where
  pub written-set :
      (l : List Block)
      → IsPrefixed l
      → length (written l) < length l
      → written (set l (length (written l)) x) ≡ written l ++ x ∷ []
  unfolding written
  written-set [] p h = absurd (omega arith)
  written-set (b ∷ l) (inl (e, fr)) h = rw e (rw full (ap (◌∷◌ x) (written-AllFree l fr)))
  written-set (b ∷ l) (inr (e, p)) h = rw e (rw e (ap (◌∷◌ b) (written-set l p (ground arith))))

  pub IsPrefixed-set : (l : List Block) → IsPrefixed l → IsPrefixed (set l (length (written l)) x)
  unfolding written
  IsPrefixed-set [] p = tt
  IsPrefixed-set (b ∷ l) (inl (e, fr)) = rw e (inr (full, AllFree-IsPrefixed l fr))
  IsPrefixed-set (b ∷ l) (inr (e, p)) = rw e (inr (e, IsPrefixed-set l p))

-- The same for a ledger whose size is known.
pub find_slot-written_at :
    (n : ℕ) (l : List Block)
    → length l ≡ n
    → find_slot n 0 l ≡ (if ltb (length (written l)) n then some (length (written l)) else none)
find_slot-written_at n l e =
    subst
      (λ m.
        find_slot m 0 l ≡ (if ltb (length (written l)) m then some (length (written l)) else none))
      e (find_slot-written l)

-- The slot behind the written blocks is free.
pub written-next :
    (l : List Block)
    → length (written l) < length l
    → (b : Block) × (get_elem? l (length (written l)) ≡ some b) × (is_free b ≡ true)
unfolding written
written-next [] h = absurd (omega arith)
written-next (b ∷ l) h = elim (Bool-cases (is_free b)) [
  | inl free ↦ (b, rw free refl, free)
  | inr full ↦ rw full (written-next l (ground arith))
]

-- The call finds room: the written blocks become the old ones and behind them the new one,
-- confirmed and numbered by its place, in a ledger of the same size and shape.
abbrev pub Appends : Block → List Block → Type 0
Appends new_block l =
    (length (written l) < so_registry_size)
    × (l' : List Block) × (insert_block_in_ledger new_block l ≡ some l')
    × (written l'
        ≡ written l ++ confirm_block (record new_block { block_index = length (written l) }) ∷ [])
    × (length l' ≡ so_registry_size)
    × IsPrefixed l'

-- The call finds every slot written, and gives up.
abbrev pub FindsFull : Block → List Block → Type 0
FindsFull new_block l =
    (length (written l) ≡ so_registry_size) × (insert_block_in_ledger new_block l ≡ none)

-- While there is room, the slot behind the written blocks is set.
pub insert_block_in_ledger-set :
    (nb : Block) (l : List Block)
    → length l ≡ so_registry_size
    → length (written l) < so_registry_size
    → insert_block_in_ledger nb l
      ≡ some (
          set l
            (length (written l))
            (confirm_block (record nb { block_index = length (written l) })))
unfolding insert_block_in_ledger
insert_block_in_ledger-set nb l size room =
    let n = length (written l) in
    rw
      (
        find_slot-written_at so_registry_size l size,
        insert_block_in_ledger,
        lt→ltb n so_registry_size room,
      )
      refl

-- On a ledger of the size of the registry whose written slots stand in front of the free ones, and
-- for a block whose second transaction has a sender other than 0, insert_block_in_ledger appends
-- the block, confirmed and numbered by its place, to the written blocks while there are fewer than
-- the registry holds, and keeps the size and the shape of the ledger; when all slots are written it
-- gives up.
pub insert_block_in_ledger-append :
    (new_block : Block) (l : List Block)
    → is_free new_block ≡ false
    → length l ≡ so_registry_size
    → IsPrefixed l
    → Appends new_block l ⊎ FindsFull new_block l
unfolding insert_block_in_ledger
insert_block_in_ledger-append nb l full size p =
    let found = find_slot-written_at so_registry_size l size in
    let n = length (written l) in
    let x = confirm_block (record nb { block_index = n }) in
    let x_full : is_free x ≡ false = is_free-confirm nb n ∙ full in
    elim (dec_lt n so_registry_size) [
      | yes room ↦ inl (
        room,
        set l n x,
        insert_block_in_ledger-set nb l size room,
        written-set x x_full l p (omega arith),
        length-set l n x ∙ size,
        IsPrefixed-set x x_full l p,
      )
      | no fewer ↦ inr (
        omega (arith, length-written l),
        rw (found, insert_block_in_ledger, le→ltb_false n so_registry_size (omega arith)) refl,
      )
    ]
