-- ===== src/Memory/Chain.antt =====
-- Singly linked lists in memory: what a pointer leads to, and what a change of memory keeps of it.
use simulazione_transazioni.Prelude.{
  ◌≡◌, ◌≢◌, refl, sym, ap, ◌∙◌, Bool, true, false, ◌||◌, List, [], ◌∷◌, ◌++◌, arith, ◌==◌,
  Bool-cases, inl, inr,
}
use mathlib.Core.Bool.{false≢true, or_assoc}
use simulazione_transazioni.Memory.{Ptr, null, Cell, Slot, live}

module _ {A : Type 0} where
  abbrev pub cell : A → Ptr → Cell A
  cell v q = record { value = v; next = q }

  abbrev pub has : Ptr → List (Ptr × A) → Bool
  has a [] = false
  has a ((b, _) ∷ xs) = (a == b) || has a xs

  -- From `p` the `next` pointers lead through the distinct cells `xs` to NULL.
  abbrev pub Chain : (Ptr → Slot A) → Ptr → List (Ptr × A) → Type 0
  Chain f p [] = p ≡ null
  Chain f p ((a, v) ∷ xs) =
      (q : Ptr) × (p ≡ a) × (a ≢ null) × (f a ≡ live (cell v q)) × (has a xs ≡ false) × Chain f q xs

  abbrev pub last : Ptr × A → List (Ptr × A) → Ptr × A
  last x [] = x
  last x (y ∷ ys) = last y ys

  abbrev pub IsDead : Slot A → Type 0
  IsDead s = (c : Cell A) → s ≢ live c

  pub frame :
      (f g : Ptr → Slot A) (p : Ptr) (xs : List (Ptr × A))
      → Chain f p xs
      → ((a : Ptr) → has a xs ≡ true → g a ≡ f a)
      → Chain g p xs
  frame f g p [] c same = c
  frame f g p ((a, v) ∷ xs) (q, e, ne, at, out, c) same =
      (q, e, ne, same a (ground arith) ∙ at, out, frame f g q xs c (λ b i. same b (ground arith)))

  pub not-has_of_dead :
      (f : Ptr → Slot A) (p a : Ptr) (xs : List (Ptr × A))
      → Chain f p xs
      → IsDead (f a)
      → has a xs ≡ false
  not-has_of_dead f p a [] c dead = refl
  not-has_of_dead f p a ((b, v) ∷ xs) (q, e, ne, at, out, c) dead = elim (Bool-cases (a == b)) [
    | inl same ↦ let is : a ≡ b = ground arith in absurd (dead (cell v q) (ap f is ∙ at))
    | inr other ↦ rw other (not-has_of_dead f q a xs c dead)
  ]

  pub has-last : (x : Ptr × A) (xs : List (Ptr × A)) → has (last x xs).0 (x ∷ xs) ≡ true
  has-last (a, v) [] = ground arith
  has-last (a, v) (y ∷ ys) = rw (has-last y ys) (ground arith)

  has-append : (a : Ptr) (xs ys : List (Ptr × A)) → has a (xs ++ ys) ≡ (has a xs || has a ys)
  has-append a [] ys = refl
  has-append a ((b, v) ∷ xs) ys = rw (has-append a xs ys, or_assoc)

  -- The last cell is live and points at NULL.
  pub last_live :
      (f : Ptr → Slot A) (p : Ptr) (x : Ptr × A) (xs : List (Ptr × A))
      → Chain f p (x ∷ xs)
      → (f (last x xs).0 ≡ live (cell (last x xs).1 null)) × ((last x xs).0 ≢ null)
  last_live f p x [] (q, e, ne, at, out, c) = (at ∙ ap (λ r. live (cell x.1 r)) c, ne)
  last_live f p x (y ∷ ys) (q, e, ne, at, out, c) = last_live f q y ys c

  -- A new cell that the last one points at extends the list.
  pub Chain-extend :
      (f g : Ptr → Slot A) (p : Ptr) (x : Ptr × A) (xs : List (Ptr × A)) (fresh : Ptr) (v : A)
      → Chain f p (x ∷ xs)
      → fresh ≢ null
      → has fresh (x ∷ xs) ≡ false
      → g fresh ≡ live (cell v null)
      → g (last x xs).0 ≡ live (cell (last x xs).1 fresh)
      → ((a : Ptr) → has a (x ∷ xs) ≡ true → a ≢ (last x xs).0 → g a ≡ f a)
      → Chain g p ((x ∷ xs) ++ (fresh, v) ∷ [])
  Chain-extend f g p (a, u) [] fresh v (q, e, ne, at, out, c) nn apart new linked same =
      (fresh, e, ne, linked, ground arith, (null, refl, nn, new, refl, refl))
  Chain-extend f g p (a, u) ((b, w) ∷ ys) fresh v (q, e, ne, at, out, c) nn apart new linked same =
      let at_last : has (last (b, w) ys).0 ((b, w) ∷ ys) ≡ true = has-last (b, w) ys in
      let inner : a ≢ (last (b, w) ys).0 =
        λ is. false≢true (sym out ∙ ap (λ r. has r ((b, w) ∷ ys)) is ∙ at_last) in
      (
        q,
        e,
        ne,
        same a (ground arith) inner ∙ at,
        has-append a ((b, w) ∷ ys) ((fresh, v) ∷ []) ∙ rw out (ground arith),
        Chain-extend f g q (b, w) ys fresh v c nn (ground arith) new linked
            (λ r i. same r (ground arith)),
      )

  pub last-append : (x : Ptr × A) (xs : List (Ptr × A)) (y : Ptr × A) → last x (xs ++ y ∷ []) ≡ y
  last-append x [] y = refl
  last-append x (z ∷ xs) y = last-append z xs y

  pub ne_last_of_not_has :
      (a : Ptr) (x : Ptr × A) (xs : List (Ptr × A)) → has a (x ∷ xs) ≡ false → a ≢ (last x xs).0
  ne_last_of_not_has a x xs out e =
      false≢true (sym out ∙ ap (λ r. has r (x ∷ xs)) e ∙ has-last x xs)

  pub ne_of_has : (a b : Ptr) (xs : List (Ptr × A)) → has a xs ≡ false → has b xs ≡ true → a ≢ b
  ne_of_has a b xs out i e = false≢true (sym out ∙ ap (λ r. has r xs) e ∙ i)
