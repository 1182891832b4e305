-- ===== src/Economy/Finish.antt =====
-- The end of the simulation: the users of src/users.c and the nodes of src/nodes.c run their
-- handlers of SIGINT, in whatever order, and src/print.c prints the table.
pub mod Users
pub mod Nodes
pub mod Table
use simulazione_transazioni.Prelude.{
  ℕ, zero, suc, ◌+◌, ◌≡◌, ◌≢◌, refl, sym, ap, ◌∙◌, ◌⊎◌, inl, inr, true, false, List, [], ◌∷◌, map,
  Option, none, some, arith, All, get_elem?, set, count_if, Bool-cases,
}
use simulazione_transazioni.Prelude.Int.{ℤ, pos, ◌==ℤ◌, ==ℤ_iff, ==ℤ_ne, ==ℤ_refl}
use simulazione_transazioni.Common.{Parameters, User, Node, Block}
use simulazione_transazioni.Nodes.{node_interrupt_handle}
use simulazione_transazioni.Users.State.{UserState}
use simulazione_transazioni.Users.Signals.{on_interrupt}
use simulazione_transazioni.Economy.{Once}

-- The handlers of the users `us`, one after the other, on the shared array.
unfoldable pub finish_users : List UserState → List User → Option (List User)
unfolding on_interrupt
finish_users [] users = some users
finish_users (s ∷ us) users = elim (on_interrupt false (record s { users_pid = users })) [
  | none ↦ none
  | some s' ↦ finish_users us s'.users_pid
]

-- The handlers of the nodes with these pids.
unfoldable pub finish_nodes : Parameters → List Block → List ℤ → List Node → Option (List Node)
unfolding node_interrupt_handle
finish_nodes par ledger [] nodes = some nodes
finish_nodes par ledger (p ∷ ps) nodes = elim (node_interrupt_handle par p ledger nodes) [
  | none ↦ none
  | some nodes' ↦ finish_nodes par ledger ps nodes'
]

-- The pid is among those given.
abbrev pub IsAmong : List ℤ → ℤ → Type 0
IsAmong pids x = count_if (λ p. x ==ℤ p) pids ≢ 0

pub IsAmong-other : (p x : ℤ) (ps : List ℤ) → x ≢ p → IsAmong (p ∷ ps) x → IsAmong ps x
IsAmong-other p x ps ne h = let miss = ==ℤ_ne x p ne in ground (arith, miss, h)

module _ {A : Type 0} (pid_of : A → ℤ) (Good : A → Type 0) where
  -- Good already, or still to be written.
  abbrev pub Awaits : List ℤ → A → Type 0
  Awaits ps a = Good a ⊎ IsAmong ps (pid_of a)

  -- The entry with this pid is written, and is good then.
  pub record Writes (p : ℤ) (xs ys : List A) : Type 0 where
    pub index : ℕ
    pub old : A
    pub new : A
    pub got : get_elem? xs index ≡ some old
    pub was : pid_of old ≡ p
    pub is : pid_of new ≡ p
    pub good : Good new
    pub result : ys ≡ set xs index new

  Awaits-other : (p : ℤ) (ps : List ℤ) (a : A) → pid_of a ≢ p → Awaits (p ∷ ps) a → Awaits ps a
  Awaits-other p ps a ne (inl good) = inl good
  Awaits-other p ps a ne (inr h) = inr (IsAmong-other p (pid_of a) ps ne h)

  others-Awaits :
      (p : ℤ) (ps : List ℤ) (xs : List A)
      → count_if (λ q. p ==ℤ q) (map pid_of xs) ≡ 0
      → All (Awaits (p ∷ ps)) xs
      → All (Awaits ps) xs
  others-Awaits p ps [] none_there h = tt
  others-Awaits p ps (x ∷ xs) none_there h = elim (Bool-cases (p ==ℤ pid_of x)) [
    | inl hit ↦ absurd (ground arith)
    | inr miss ↦ (
      Awaits-other p ps x (λ e. absurd (let hit = (==ℤ_iff p (pid_of x)).1 (sym e) in ground arith))
          h.0,
      others-Awaits p ps xs (ground arith) h.1,
    )
  ]

  once-there :
      (p : ℤ) (xs : List A) (i : ℕ) {x : A}
      → get_elem? xs i ≡ some x
      → pid_of x ≡ p
      → count_if (λ q. p ==ℤ q) (map pid_of xs) ≢ 0
  once-there p [] i e is = cc
  once-there p (y ∷ xs) zero {x} e is =
      let hit : (p ==ℤ pid_of y) ≡ true = (==ℤ_iff p (pid_of y)).1 (sym (cc)) in ground arith
  once-there p (y ∷ xs) (suc i) e is =
      let h = once-there p xs i e is in λ z. absurd (h (omega arith))

  set-Awaits :
      (p : ℤ) (ps : List ℤ) (xs : List A) (i : ℕ) (x v : A)
      → get_elem? xs i ≡ some x
      → pid_of x ≡ p
      → Good v
      → count_if (λ q. p ==ℤ q) (map pid_of xs) ≡ 1
      → All (Awaits (p ∷ ps)) xs
      → All (Awaits ps) (set xs i v)
  set-Awaits p ps [] i x v e is good once h = tt
  set-Awaits p ps (y ∷ xs) zero x v e is good once h =
      let hit : (p ==ℤ pid_of y) ≡ true = (==ℤ_iff p (pid_of y)).1 (sym (cc)) in
      (inl good, others-Awaits p ps xs (ground arith) h.1)
  set-Awaits p ps (y ∷ xs) (suc i) x v e is good once h =
      let there = once-there p xs i e is in
      elim (Bool-cases (p ==ℤ pid_of y)) [
        | inl hit ↦ absurd (there (ground arith))
        | inr miss ↦ (
          Awaits-other p ps y
              (λ z. absurd (let hit = (==ℤ_iff p (pid_of y)).1 (sym z) in ground arith)) h.0,
          set-Awaits p ps xs i x v e is good (ground arith) h.1,
        )
      ]

  map-set_same :
      (xs : List A) (i : ℕ) (x v : A)
      → get_elem? xs i ≡ some x
      → pid_of v ≡ pid_of x
      → map pid_of (set xs i v) ≡ map pid_of xs
  map-set_same [] i x v e same = refl
  map-set_same (y ∷ xs) zero x v e same = let is : y ≡ x = cc in rw (same, is)
  map-set_same (y ∷ xs) (suc i) x v e same = ap (◌∷◌ (pid_of y)) (map-set_same xs i x v e same)

  pub Writes-Awaits :
      (p : ℤ) (ps : List ℤ) (xs ys : List A)
      → Writes p xs ys
      → Once (map pid_of xs) p
      → All (Awaits (p ∷ ps)) xs
      → All (Awaits ps) ys × (map pid_of ys ≡ map pid_of xs)
  Writes-Awaits p ps xs ys w once h = rw w.result (
    set-Awaits p ps xs w.index w.old w.new w.got w.was w.good once h,
    map-set_same xs w.index w.old w.new w.got (w.is ∙ sym w.was),
  )

  -- When nothing is left to be written, every entry is good.
  pub Awaits-empty : (xs : List A) → All (Awaits []) xs → All Good xs
  Awaits-empty [] h = tt
  Awaits-empty (x ∷ xs) (inl good, h) = (good, Awaits-empty xs h)
  Awaits-empty (x ∷ xs) (inr left, h) = absurd (left refl)
