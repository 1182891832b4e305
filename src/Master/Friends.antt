-- ===== src/Master/Friends.antt =====
-- make_friend_list of src/master.c: how many friends it draws, and which.
use simulazione_transazioni.Prelude.{
  ℕ, zero, suc, ◌+◌, ◌-◌, ◌%◌, ◌≤◌, ◌<◌, ◌≡◌, refl, sym, ap, ◌∙◌, leb, true, List, [], ◌∷◌, some,
  if◌then◌else◌, length, arith, Bool-cases, inl, inr, ltb, ltb→lt, lt→ltb,
}
use simulazione_transazioni.Prelude.Int.{ℤ}
use simulazione_transazioni.Common.{Parameters, Node}
use simulazione_transazioni.Table.{get_elem?-some}
use mathlib.Core.Bool.{false≢true}
use simulazione_transazioni.Master.{is_chosen, choose, friends_at, make_friend_list}

-- Strictly ascending numbers from `i` up to below `n`.
abbrev pub Ascending : ℕ → ℕ → List ℕ → Type 0
Ascending i n [] = Unit
Ascending i n (x ∷ xs) = (i ≤ x) × (x < n) × Ascending (suc x) n xs

Ascending-le : (i j n : ℕ) (xs : List ℕ) → i ≤ j → Ascending j n xs → Ascending i n xs
Ascending-le i j n [] h a = tt
Ascending-le i j n (x ∷ xs) h (le, lt, rest) = (omega arith, lt, rest)

module _ (n f : ℕ) (draw : ℕ → ℕ) where
  -- A round with as many nodes left as friends to find takes its node.
  chosen_last : (i j k : ℕ) → n - i ≡ suc k → suc k ≤ f - j → is_chosen n f i j (draw i) ≡ true
  unfolding is_chosen
  chosen_last i j k e h =
      let small : draw i % suc k < suc k = omega arith in
      rw (is_chosen, e) (lt→ltb (draw i % suc k) (f - j) (omega arith))

  abbrev Chosen : ℕ → ℕ → List ℕ → Type 0
  Chosen i j xs = (length xs ≡ f - j) × Ascending i n xs

  -- What the loop stores when `k` rounds are left, which are enough for what it has to find.
  abbrev Chooses : ℕ → Type 0
  Chooses k = (i j : ℕ) → i + k ≡ n → j ≤ f → f - j ≤ k → Chosen i j (choose n f draw k i j)

  choose_on :
      (k i j : ℕ)
      → i + suc k ≡ n
      → j < f
      → f - j ≤ suc k
      → Chooses k
      → Chosen i j (
          if is_chosen n f i j (draw i)
          then i ∷ choose n f draw k (suc i) (suc j)
          else choose n f draw k (suc i) j)
  choose_on k i j e lt h ih = elim (Bool-cases (is_chosen n f i j (draw i))) [
    | inl hit ↦
        let (len, up) = ih (suc i) (suc j) (omega arith) lt (omega arith) in
        rw hit (omega (arith, len), (omega arith, omega arith, up))
    | inr miss ↦
        let enough : f - j ≤ k = elim (Bool-cases (leb (f - j) k)) [
          | inl le ↦ ground arith
          | inr more ↦
              absurd (false≢true (sym miss ∙ chosen_last i j k (omega arith) (ground arith)))
        ] in
        let (len, up) = ih (suc i) j (omega arith) (omega arith) enough in
        rw miss (len, Ascending-le i (suc i) n (choose n f draw k (suc i) j) (omega arith) up)
  ]

  choose_lem : (k : ℕ) → Chooses k
  unfolding choose
  choose_lem zero i j e le h = (omega arith, tt)
  choose_lem (suc k) i j e le h = elim (Bool-cases (ltb j f)) [
    | inl more ↦
        let it = choose_on k i j e (ltb→lt j f more) h (choose_lem k) in
        rw (more, lt→ltb i n (omega arith)) it
    | inr done ↦ rw done (ground arith, tt)
  ]

friends_at-some :
    (nodes : List Node) (i n : ℕ) (is : List ℕ)
    → Ascending i n is
    → n ≤ length nodes
    → (fs : List ℤ) × (friends_at nodes is ≡ some fs) × (length fs ≡ length is)
unfolding friends_at
friends_at-some nodes i n [] a h = ([], refl, refl)
friends_at-some nodes i n (x ∷ xs) (le, lt, up) h =
    let (fs, e, len) = friends_at-some nodes (suc x) n xs up h in
    let (node, at) = get_elem?-some nodes x (omega arith) in
    (node.pid ∷ fs, rw (friends_at, at, e), ap suc len)

module _ (draw : ℕ → ℕ) (par : Parameters) (nodes : List Node) where
  abbrev pub Draws : Type 0
  Draws =
      (is : List ℕ) × (friends : List ℤ) × (make_friend_list draw par nodes ≡ some friends)
      × (friends_at nodes is ≡ some friends)
      × Ascending 0 par.so_nodes_num is
      × (length friends ≡ par.so_friends_num)

  -- When there are at least as many nodes as friends to find, and an entry for each of them,
  -- make_friend_list gives exactly SO_FRIENDS_NUM friends, whatever `rand` draws: the pids at
  -- strictly ascending indexes below SO_NODES_NUM, so that no node is chosen twice.
  pub make_friend_list-Draws :
      par.so_friends_num ≤ par.so_nodes_num → par.so_nodes_num ≤ length nodes → Draws
  unfolding make_friend_list
  make_friend_list-Draws few long =
      let n = par.so_nodes_num in
      let is = choose n par.so_friends_num draw n 0 0 in
      let (len, up) =
        choose_lem n par.so_friends_num draw n 0 0 (omega arith) (omega arith) (omega arith) in
      let (fs, e, same) = friends_at-some nodes 0 n is up long in
      (is, fs, e, e, up, omega (arith, same, len))
