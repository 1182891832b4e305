-- ===== src/Users/Sending/Choice.antt =====
-- The random choices of a receiver and of a node in src/users.c: whom they return, and when.
use simulazione_transazioni.Prelude.{
  ℕ, suc, ◌%◌, ◌^◌, ◌<◌, ◌≡◌, ◌≢◌, ◌⊎◌, inl, inr, refl, sym, ◌∙◌, Bool, Bool-cases, true, false,
  List, [], ◌∷◌, length, some, arith, get_elem?,
}
use simulazione_transazioni.Prelude.Int.{ℤ, pos, ◌==ℤ◌, ==ℤ_iff}
use simulazione_transazioni.Prelude.Words.{sub_u32}
use mathlib.Core.Path.{subst}
use mathlib.Core.Bool.{false≢true}
use simulazione_transazioni.Rand.{rand_from_0_lem}
use simulazione_transazioni.Table.{get_elem?-some}
use simulazione_transazioni.Common.{User, is_dead}
use simulazione_transazioni.Users.State.{UserState}
use simulazione_transazioni.Users.Sending.{can_receive, pick, random_pid, get_random_user_pid}

module _ {A : Type 0} (pid_of : A → ℤ) (test : A → Bool) (n : ℕ) (entries : List A) where
  -- An entry that passes the test, with a pid.
  abbrev pub IsGood : A → Type 0
  IsGood a = (test a ≡ true) × (pid_of a ≢ pos 0)

  -- One of the draws leads to such an entry.
  abbrev pub Hits : List ℕ → Type 0
  Hits [] = ⊥
  Hits (d ∷ ds) = ((a : A) × (get_elem? entries (d % suc n) ≡ some a) × IsGood a) ⊎ Hits ds

  abbrev pub Picks : List ℕ → Type 0
  Picks draws =
      (j : ℕ) × (a : A) × (random_pid pid_of test (sub_u32 (suc n) 1) entries draws
        ≡ some (pid_of a))
      × (get_elem? entries j ≡ some a)
      × IsGood a

  module _ (small : suc n < 2 ^ 32) (long : length entries ≡ suc n) where
    -- The value after a round at an entry that is not chosen is 0.
    round_lem :
        (d : ℕ) (ds : List ℕ) (a : A)
        → get_elem? entries (d % suc n) ≡ some a
        → Picks ds ⊎ IsGood a
        → Picks (d ∷ ds)
    unfolding random_pid pick
    round_lem d ds a at next = elim (Bool-cases (test a)) [
      | inl passes ↦ elim (Bool-cases (pid_of a ==ℤ pos 0)) [
        | inl no_pid ↦ elim next [
          | inl (j, b, e, got, good) ↦ (
            j,
            b,
            rw (random_pid, rand_from_0_lem d n small, pick, at, passes, no_pid) e,
            got,
            good,
          )
          | inr good ↦ absurd (good.1 ((==ℤ_iff (pid_of a) (pos 0)).0 no_pid))
        ]
        | inr has_pid ↦ (
          d % suc n,
          a,
          rw (random_pid, rand_from_0_lem d n small, pick, at, passes, has_pid) refl,
          at,
          (passes, λ z. false≢true (sym has_pid ∙ (==ℤ_iff (pid_of a) (pos 0)).1 z)),
        )
      ]
      | inr fails ↦ elim next [
        | inl (j, b, e, got, good) ↦
            (j, b, rw (random_pid, rand_from_0_lem d n small, pick, at, fails) e, got, good)
        | inr good ↦ absurd (false≢true (sym fails ∙ good.0))
      ]
    ]

    random_pid-Picks : (draws : List ℕ) → Hits draws → Picks draws
    random_pid-Picks [] h = elim h [ ]
    random_pid-Picks (d ∷ ds) h =
        let (a, at) = get_elem?-some entries (d % suc n) (omega arith) in
        elim h [
          | inl (b, at_b, good) ↦
              let same : a ≡ b = cc in round_lem d ds a at (inr (subst IsGood (sym same) good))
          | inr later ↦ round_lem d ds a at (inl (random_pid-Picks ds later))
        ]

-- The users that may receive a transaction of `my_pid`.
abbrev pub IsReceiver : ℤ → User → Type 0
IsReceiver my_pid u = (is_dead u.status ≡ false) × (u.pid ≢ my_pid) × (u.pid ≢ pos 0)

can_receive-IsReceiver :
    (my_pid : ℤ) (u : User) → can_receive my_pid u ≡ true → u.pid ≢ pos 0 → IsReceiver my_pid u
unfolding can_receive
can_receive-IsReceiver my_pid u e ne = elim (Bool-cases (is_dead u.status)) [
  | inl gone ↦ absurd (false≢true (rw gone at e))
  | inr lives ↦ elim (Bool-cases (u.pid ==ℤ my_pid)) [
    | inl me ↦ absurd (false≢true (rw (lives, me) at e))
    | inr other ↦ (lives, (λ z. false≢true (sym other ∙ (==ℤ_iff u.pid my_pid).1 z)), ne)
  ]
]

module _ (s : UserState) (n : ℕ) where
  -- One of the numbers drawn is the index, modulo SO_USER_NUM, of a user that may receive.
  abbrev pub HitsReceiver : List ℕ → Type 0
  HitsReceiver = Hits (λ (u : User). u.pid) (can_receive s.my_pid) n s.users_pid

  -- For an array of SO_USER_NUM users, at least one and fewer than 2 ^ 32, get_random_userPID ends as
  -- soon as a draw leads to a user that is not dead, is not the caller and has a pid other than 0,
  -- and returns the pid of such a user.
  pub get_random_user_pid-IsReceiver :
      (draws : List ℕ)
      → s.par.so_user_num ≡ suc n
      → suc n < 2 ^ 32
      → length s.users_pid ≡ suc n
      → HitsReceiver draws
      → (j : ℕ) × (u : User) × (get_random_user_pid draws s ≡ some u.pid)
        × (get_elem? s.users_pid j ≡ some u)
        × IsReceiver s.my_pid u
  unfolding get_random_user_pid
  get_random_user_pid-IsReceiver draws num small long hits =
      let (j, u, e, got, (passes, ne)) =
        random_pid-Picks (λ (u : User). u.pid) (can_receive s.my_pid) n s.users_pid small long draws
          hits in
      (j, u, rw (get_random_user_pid, num) e, got, can_receive-IsReceiver s.my_pid u passes ne)
