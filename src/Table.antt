-- ===== src/Table.antt =====
-- The shared arrays of processes: the searches get_pid_nodeIndex of src/nodes.c and
-- get_pid_userIndex of src/users.c, which are one loop over two types, and a write to an entry.
use simulazione_transazioni.Prelude.{
  ℕ, zero, suc, ◌+◌, ◌<◌, ◌≡◌, refl, List, [], ◌∷◌, Option, none, some, arith, if◌then◌else◌,
  Bool-cases, inl, inr, get_elem?, set, length, get_elem?-set_self,
}
use simulazione_transazioni.Prelude.Int.{ℤ, pos, negsuc, ◌==ℤ◌, ==ℤ_iff}
use simulazione_transazioni.Common.{error}

module _ {A : Type 0} (pid_of : A → ℤ) where
  -- The loop, the rounds left and `i`: the index of the first entry with the pid, or `error`. The
  -- array has as many entries as there are rounds.
  unfoldable pub index_loop : ℕ → ℕ → ℤ → List A → ℤ
  index_loop zero i pid xs = error
  index_loop (suc k) i pid [] = error
  index_loop (suc k) i pid (x ∷ xs) =
      let rest = index_loop k (suc i) pid xs in if pid_of x ==ℤ pid then pos i else rest

  abbrev Found : ℕ → ℕ → ℤ → List A → ℕ → Type 0
  Found k i pid xs j =
      (m : ℕ) × (x : A) × (j ≡ i + m) × (m < k) × (get_elem? xs m ≡ some x) × (pid_of x ≡ pid)

  index_loop-Found :
      (k i : ℕ) (pid : ℤ) (xs : List A) (j : ℕ) → index_loop k i pid xs ≡ pos j → Found k i pid xs j
  unfolding index_loop
  index_loop-Found zero i pid xs j e = ground arith
  index_loop-Found (suc k) i pid [] j e = ground arith
  index_loop-Found (suc k) i pid (x ∷ xs) j e = elim (Bool-cases (pid_of x ==ℤ pid)) [
    | inl hit ↦ (0, x, ground arith, omega arith, refl, (==ℤ_iff (pid_of x) pid).0 hit)
    | inr miss ↦
        let (m, y, at, lt, got, is) =
          index_loop-Found k (suc i) pid xs j (rw (miss, index_loop) at e) in
        (suc m, y, omega arith, omega arith, got, is)
  ]

  -- An index that the search returns is that of an entry with the pid asked for.
  pub index_loop-some :
      (k : ℕ) (pid : ℤ) (xs : List A) (j : ℕ)
      → index_loop k 0 pid xs ≡ pos j
      → (x : A) × (get_elem? xs j ≡ some x) × (pid_of x ≡ pid) × (j < k)
  index_loop-some k pid xs j e =
      let (m, x, at, lt, got, is) = index_loop-Found k 0 pid xs j e in
      let same : j ≡ m = omega arith in (x, ground arith, is, omega arith)

  -- A write that keeps the pid of an entry keeps the search.
  pub index_loop-set :
      (k j : ℕ) (pid : ℤ) (xs : List A) (i : ℕ) (v : A) {x : A}
      → get_elem? xs i ≡ some x
      → pid_of v ≡ pid_of x
      → index_loop k j pid (set xs i v) ≡ index_loop k j pid xs
  unfolding index_loop
  index_loop-set zero j pid xs i v e same = refl
  index_loop-set (suc k) j pid [] i v e same = refl
  index_loop-set (suc k) j pid (y ∷ xs) zero v {x} e same = let is : y ≡ x = cc in rw (same, is)
  index_loop-set (suc k) j pid (y ∷ xs) (suc i) v e same =
      rw (index_loop-set k (suc j) pid xs i v e same)

module _ {A : Type 0} where
  -- A write to the entry at an index; `none` if it is no index of the array.
  unfoldable pub update_at : List A → ℤ → (A → A) → Option (List A)
  update_at xs (negsuc _) f = none
  update_at xs (pos i) f = elim (get_elem? xs i) [ none ↦ none | some x ↦ some (set xs i (f x)) ]

  pub update_at-some :
      (xs : List A) (i : ℕ) (f : A → A) {x : A}
      → get_elem? xs i ≡ some x
      → update_at xs (pos i) f ≡ some (set xs i (f x))
  unfolding update_at
  update_at-some xs i f at = rw (at, update_at)

  pub length-get_elem? : (xs : List A) (i : ℕ) {x : A} → get_elem? xs i ≡ some x → i < length xs
  length-get_elem? [] i e = ground arith
  length-get_elem? (x ∷ xs) zero e = omega arith
  length-get_elem? (x ∷ xs) (suc i) e = omega (arith, length-get_elem? xs i e)

  pub get-set_self :
      (xs : List A) (i : ℕ) (v : A) {x : A}
      → get_elem? xs i ≡ some x
      → get_elem? (set xs i v) i ≡ some v
  get-set_self xs i v e = get_elem?-set_self xs i v (length-get_elem? xs i e)

  pub get_elem?-some : (xs : List A) (i : ℕ) → i < length xs → (x : A) × (get_elem? xs i ≡ some x)
  get_elem?-some [] i h = elim h [ ]
  get_elem?-some (x ∷ xs) zero h = (x, refl)
  get_elem?-some (x ∷ xs) (suc i) h = get_elem?-some xs i (omega arith)
