-- ===== src/Master/Ending/Watch.antt =====
-- The loop of start_continuous_print of src/master.c: how long it runs, and what it prints.
use simulazione_transazioni.Prelude.{
  ℕ, zero, suc, ◌+◌, ◌-◌, ◌*◌, ◌^◌, ◌≤◌, ◌<◌, ◌≡◌, ◌⊎◌, inl, inr, refl, ap, ◌∙◌, true, false, List,
  [], ◌∷◌, none, some, Option, length, get_elem?, take, count_if, arith, Bool-cases,
}
use simulazione_transazioni.Prelude.Words.{u32}
use simulazione_transazioni.Common.{Parameters, User, Term, users_dead, is_dead}
use mathlib.Core.Path.{subst}
use simulazione_transazioni.Master.{is_alive, is_active, users_are_dead}
use simulazione_transazioni.Master.Counts.{count_nodes_lem, count_users_lem}
use simulazione_transazioni.Master.Ending.{Snapshot, Line, print_line, start_continuous_print}

module _ (par : Parameters) where
  -- The users who are dead.
  abbrev pub dead_in : Snapshot → ℕ
  dead_in s = count_if (λ (u : User). is_dead u.status) (take par.so_user_num s.users)

  -- A line tells the time that is left, the users alive and the nodes available.
  abbrev pub Tells : ℕ → Snapshot → Line → Type 0
  Tells time s line =
      (line.time_left ≡ time)
      × (line.active_users
          ≡ count_if (λ (u : User). is_alive u.status) (take par.so_user_num s.users))
      × (line.active_nodes ≡ count_if is_active (take (u32 (par.so_nodes_num * 2)) s.nodes))

  print_line-Tells : (time : ℕ) (s : Snapshot) → Tells time s (print_line par time s)
  unfolding print_line
  print_line-Tells time s = (
    refl,
    (count_users_lem (take par.so_user_num s.users) 0 0).0 ∙ omega arith,
    count_nodes_lem (take (u32 (par.so_nodes_num * 2)) s.nodes) 0 ∙ omega arith,
  )

  module _ (some_users : 1 ≤ par.so_user_num) (few : par.so_user_num < 2 ^ 32) where
    users_are_dead_lem :
        (s : Snapshot)
        → ((users_are_dead par s.users ≡ true) × (par.so_user_num ≤ dead_in s + 1))
          ⊎ ((users_are_dead par s.users ≡ false) × (dead_in s + 1 < par.so_user_num))
    unfolding users_are_dead
    users_are_dead_lem s =
        let dead = (count_users_lem (take par.so_user_num s.users) 0 0).1 in
        elim (Bool-cases (users_are_dead par s.users)) [
          | inl over ↦ inl (over, ground (arith, dead))
          | inr on ↦ inr (on, ground (arith, dead))
        ]

  -- Each line is about the second that it is printed in, in which the simulation goes on.
  abbrev pub Printed : ℕ → List Snapshot → List Line → Type 0
  Printed time later lines =
      (i : ℕ) (line : Line)
      → get_elem? lines i ≡ some line
      → (s : Snapshot) × (get_elem? later i ≡ some s)
        × (dead_in s + 1 < par.so_user_num)
        × (suc i ≤ time)
        × Tells (time - suc i) s line

  -- The time is over, or the users are dead in the second after the last line.
  abbrev pub Ends : ℕ → List Snapshot → List Line → Option Term → Type 0
  Ends time later lines reason =
      ((reason ≡ none) × (length lines ≡ time))
      ⊎ ((reason ≡ some users_dead)
          × (length lines < time)
          × (s : Snapshot) × (get_elem? later (length lines) ≡ some s)
          × (par.so_user_num ≤ dead_in s + 1))

  abbrev pub Watches : ℕ → List Snapshot → Type 0
  Watches time later =
      (lines : List Line) × (reason : Option Term) × (start_continuous_print par time later
        ≡ (lines, reason))
      × Printed time later lines
      × Ends time later lines reason

  Printed-cons :
      (time : ℕ) (s : Snapshot) (later : List Snapshot) (lines : List Line)
      → dead_in s + 1 < par.so_user_num
      → Printed time later lines
      → Printed (suc time) (s ∷ later) (print_line par time s ∷ lines)
  Printed-cons time s later lines on rest zero line e =
      let same : print_line par time s ≡ line = cc in
      let (left, active, nodes) = print_line-Tells time s in
      (
        s,
        refl,
        on,
        omega arith,
        subst (Tells (suc time - 1) s) same (left ∙ omega arith, active, nodes),
      )
  Printed-cons time s later lines on rest (suc i) line e =
      let (t, at, lives, lt, (left, active, nodes)) = rest i line e in
      (t, at, lives, omega arith, (left ∙ omega arith, active, nodes))

  Ends-cons :
      (time : ℕ) (s : Snapshot) (later : List Snapshot) (line : Line) (lines : List Line)
      (reason : Option Term)
      → Ends time later lines reason
      → Ends (suc time) (s ∷ later) (line ∷ lines) reason
  Ends-cons time s later line lines reason (inl (none_raised, len)) = inl (none_raised, ap suc len)
  Ends-cons time s later line lines reason (inr (raised, lt, t, at, gone)) =
      inr (raised, omega arith, t, at, gone)

  -- For at least one user, fewer than 2 ^ 32: the loop of start_continuous_print ends after SO_SIM_SEC
  -- seconds at most. Each line that it prints tells the time that is left and how many users are
  -- alive and how many nodes available in that second, and at least two users are not dead then. Either
  -- it prints a line for each second, or it stops short in the first second in which all users but
  -- one are dead, and this is the reason that it leaves.
  pub start_continuous_print-Watches :
      (time : ℕ) (later : List Snapshot)
      → 1 ≤ par.so_user_num
      → par.so_user_num < 2 ^ 32
      → time ≤ length later
      → Watches time later
  unfolding start_continuous_print
  start_continuous_print-Watches zero later some_users few h =
      ([], none, refl, (λ i line e. cc), inl (refl, refl))
  start_continuous_print-Watches (suc time) [] some_users few h = absurd (omega arith)
  start_continuous_print-Watches (suc time) (s ∷ later) some_users few h =
      let (lines, reason, run, printed, ends) =
        start_continuous_print-Watches time later some_users few (omega arith) in
      elim (users_are_dead_lem some_users few s) [
        | inl (over, gone) ↦ (
          [],
          some users_dead,
          rw (start_continuous_print, over) refl,
          (λ i line e. cc),
          inr (refl, omega arith, s, refl, gone),
        )
        | inr (on, left) ↦ (
          print_line par time s ∷ lines,
          reason,
          rw (start_continuous_print, on, run) refl,
          Printed-cons time s later lines left printed,
          Ends-cons time s later (print_line par time s) lines reason ends,
        )
      ]
