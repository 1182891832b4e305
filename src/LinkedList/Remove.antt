-- ===== src/LinkedList/Remove.antt =====
-- find_and_remove of src/utils/lklist.c takes the first match out.
use simulazione_transazioni.Prelude.{
  ℕ, zero, suc, ◌<◌, ◌≤◌, ◌≡◌, ◌≢◌, refl, ap, ◌∙◌, true, false, List, [], ◌∷◌, map, arith,
  if◌then◌else◌, length, Bool-cases, inl, inr,
}
use simulazione_transazioni.Common.{Transaction}
use simulazione_transazioni.Memory.{Ptr, null, live, freed, Memory, ok, load, store, free, write}
use simulazione_transazioni.Memory.Chain.{cell, has, Chain, frame, ne_of_has}
use simulazione_transazioni.LinkedList.{compare_transactions, unlink, find_loop, find_and_remove}
use simulazione_transazioni.LinkedList.Contents.{remove_first}
use simulazione_transazioni.LinkedList.Push.{Entry}

-- The list without the first cell whose transaction compares equal.
unfoldable pub cut : Transaction → List Entry → List Entry
cut t [] = []
cut t ((a, u) ∷ xs) = if compare_transactions u t then xs else (a, u) ∷ cut t xs

abbrev pub contents : List Entry → List Transaction
contents = map λ x. x.1

contents-cut :
    (t : Transaction) (xs : List Entry) → contents (cut t xs) ≡ remove_first t (contents xs)
unfolding cut remove_first
contents-cut t [] = refl
contents-cut t ((a, u) ∷ xs) = ground (arith, contents-cut t xs)

has-cut :
    (a : Ptr) (t : Transaction) (xs : List Entry) → has a xs ≡ false → has a (cut t xs) ≡ false
unfolding cut
has-cut a t [] h = refl
has-cut a t ((b, u) ∷ xs) h = ground (arith, has-cut a t xs)

module _ (t : Transaction) (head : Ptr) where
  -- What the loop does from the cell `curr` on, behind the cell `prev`.
  abbrev CutsBehind : ℕ → Memory Transaction → Ptr → Transaction → Ptr → List Entry → Type 0
  CutsBehind k m prev v curr xs =
      (m' : Memory Transaction) × (q : Ptr) × (find_loop k head prev curr t m ≡ ok head m')
      × Chain m'.slot q (cut t xs)
      × (m'.slot prev ≡ live (cell v q))
      × ((a : Ptr) → has a xs ≡ false → a ≢ prev → m'.slot a ≡ m.slot a)

  hit-CutsBehind :
      (k : ℕ) (m : Memory Transaction) (prev curr : Ptr) (v : Transaction) (a : Ptr)
      (u : Transaction) (xs : List Entry)
      → compare_transactions u t ≡ true
      → Chain m.slot curr ((a, u) ∷ xs)
      → prev ≢ null
      → m.slot prev ≡ live (cell v curr)
      → has prev ((a, u) ∷ xs) ≡ false
      → has head ((a, u) ∷ xs) ≡ false
      → CutsBehind (suc k) m prev v curr ((a, u) ∷ xs)
  unfolding find_loop cut load store free unlink
  hit-CutsBehind k m prev curr v a u xs hit (q, e, ne, at, out, c) pn p_at p_out h_out =
      let f = write (write m.slot a (freed (cell u q))) prev (live (cell v q)) in
      (
        record m { slot = f; stale_reads = suc m.stale_reads },
        q,
        ground (arith, hit, e, ne, at),
        rw hit (
            frame m.slot f q xs c
              (λ b i. ground (arith, ne_of_has a b xs out i, ne_of_has prev b xs))),
        ground arith,
        λ b o other. ground arith,
      )

  find_loop-CutsBehind :
      (k : ℕ) (m : Memory Transaction) (prev curr : Ptr) (v : Transaction) (x : Entry)
      (xs : List Entry)
      → Chain m.slot curr (x ∷ xs)
      → length xs < k
      → prev ≢ null
      → m.slot prev ≡ live (cell v curr)
      → has prev (x ∷ xs) ≡ false
      → has head (x ∷ xs) ≡ false
      → CutsBehind k m prev v curr (x ∷ xs)
  unfolding find_loop cut load
  find_loop-CutsBehind zero m prev curr v x xs c enough pn p_at p_out h_out = absurd (omega arith)
  find_loop-CutsBehind (suc k) m prev curr v (a, u) [] ch enough pn p_at p_out h_out =
      let (q, e, ne, at, out, c) = ch in
      elim (Bool-cases (compare_transactions u t)) [
        | inl hit ↦ hit-CutsBehind k m prev curr v a u [] hit ch pn p_at p_out h_out
        | inr miss ↦ (
          m,
          curr,
          ground (arith, miss, e, ne, at, c),
          rw miss (null, e, ne, ground (arith, at, c), refl, refl),
          p_at,
          λ b o other. refl,
        )
      ]
  find_loop-CutsBehind (suc k) m prev curr v (a, u) ((b, w) ∷ ys) ch enough pn p_at p_out h_out =
      let (q, e, ne, at, out, c) = ch in
      elim (Bool-cases (compare_transactions u t)) [
        | inl hit ↦ hit-CutsBehind k m prev curr v a u ((b, w) ∷ ys) hit ch pn p_at p_out h_out
        | inr miss ↦
            let (m', r, run, chain, linked, same) =
              find_loop-CutsBehind k m a q u (b, w) ys c (omega arith) ne at out (ground arith) in
            (
              m',
              curr,
              ground (arith, miss, e, ne, at, c.1, c.2, run),
              rw miss (r, e, ne, linked, has-cut a t ((b, w) ∷ ys) out, chain),
              same prev (ground arith) (ground arith) ∙ p_at,
              λ d o other. same d (ground arith) (ground arith),
            )
      ]

  -- What find_and_remove returns: the head of the list without the first match, all whose other
  -- cells are those of before.
  abbrev pub Cuts : ℕ → Memory Transaction → List Entry → Type 0
  Cuts k m xs =
      (m' : Memory Transaction) × (head' : Ptr) × (find_and_remove k head t m ≡ ok head' m')
      × Chain m'.slot head' (cut t xs)
      × (contents (cut t xs) ≡ remove_first t (contents xs))
      × ((a : Ptr) → has a xs ≡ false → m'.slot a ≡ m.slot a)

  -- With a round for each cell, find_and_remove ends without a fault on every list: it takes out the
  -- first transaction that compares equal, if there is one, keeps the others in order, and changes
  -- memory only in the cells of the list.
  pub find_and_remove-Cuts :
      (k : ℕ) (m : Memory Transaction) (xs : List Entry)
      → Chain m.slot head xs
      → length xs ≤ k
      → Cuts k m xs
  unfolding find_and_remove cut load free
  find_and_remove-Cuts k m [] c enough =
      (m, head, ground (arith, c), c, contents-cut t [], λ a o. refl)
  find_and_remove-Cuts zero m (x ∷ xs) c enough = absurd (omega arith)
  find_and_remove-Cuts (suc k) m ((a, u) ∷ []) (q, e, ne, at, out, c) enough =
      elim (Bool-cases (compare_transactions u t)) [
        | inl hit ↦ (
          record m { slot = write m.slot a (freed (cell u q)); stale_reads = suc m.stale_reads },
          q,
          ground (arith, hit, e, ne, at),
          rw hit c,
          contents-cut t ((a, u) ∷ []),
          λ b o. ground arith,
        )
        | inr miss ↦ (
          m,
          head,
          ground (arith, miss, e, ne, at, c),
          rw miss (null, e, ne, ground (arith, at, c), refl, refl),
          contents-cut t ((a, u) ∷ []),
          λ b o. refl,
        )
      ]
  find_and_remove-Cuts (suc k) m ((a, u) ∷ (b, w) ∷ ys) (q, e, ne, at, out, c) enough =
      elim (Bool-cases (compare_transactions u t)) [
        | inl hit ↦
            let f = write m.slot a (freed (cell u q)) in
            (
              record m { slot = f; stale_reads = suc m.stale_reads },
              q,
              ground (arith, hit, e, ne, at),
              rw hit (
                  frame m.slot f q ((b, w) ∷ ys) c
                    (λ d i. ground (arith, ne_of_has a d ((b, w) ∷ ys) out i))),
              contents-cut t ((a, u) ∷ (b, w) ∷ ys),
              λ d o. ground arith,
            )
        | inr miss ↦
            let h_out : has head ((b, w) ∷ ys) ≡ false = ap (λ r. has r ((b, w) ∷ ys)) e ∙ out in
            let (m', r, run, chain, linked, same) =
              find_loop-CutsBehind k m a q u (b, w) ys c (omega arith) ne at out h_out in
            (
              m',
              head,
              ground (arith, miss, e, ne, at, c.1, c.2, run),
              rw miss (r, e, ne, linked, has-cut a t ((b, w) ∷ ys) out, chain),
              contents-cut t ((a, u) ∷ (b, w) ∷ ys),
              λ d o. same d (ground arith) (ground arith),
            )
      ]
