-- ===== src/Master/Startup/Active.antt =====
-- Who is active after the loops of main of src/master.c that spawn the nodes and the users.
use simulazione_transazioni.Prelude.{
  suc, ◌+◌, ◌*◌, ◌^◌, ◌≤◌, ◌<◌, ◌≡◌, ◌≢◌, ◌⊎◌, inl, inr, refl, ap, ◌∙◌, Bool, false, not, List, [],
  ◌∷◌, some, if◌then◌else◌, length, take_all, All, count_if, arith, Bool-cases,
}
use simulazione_transazioni.Prelude.Int.{ℤ, pos, negsuc, ◌==ℤ◌, ==ℤ_ne}
use simulazione_transazioni.Common.{Parameters, Node, User, is_dead}
use simulazione_transazioni.Master.{
  Spawner, is_active, is_alive, count_nodes, count_users, users_are_dead,
}
use simulazione_transazioni.Master.Counts.{count_nodes_lem, count_users_lem}
use simulazione_transazioni.Master.Startup.{start_nodes, start_users}
use simulazione_transazioni.Master.Startup.Spawned.{
  started_node, started_user, started, start_nodes_lem, start_users_lem,
}

-- The fork succeeded.
abbrev pub forked : ℤ → Bool
forked pid = not (pid ==ℤ negsuc 0)

abbrev HasNone : Node → Type 0
HasNone n = n.pid ≡ pos 0

started_node-active :
    (pid : ℤ) (n : Node) → HasNone n → pid ≢ pos 0 → is_active (started_node pid n) ≡ forked pid
unfolding is_active
started_node-active pid n unused known = elim (Bool-cases (pid ==ℤ negsuc 0)) [
  | inl failed ↦ rw (failed, is_active, unused) refl
  | inr done ↦ rw (done, is_active, ==ℤ_ne pid (pos 0) known) refl
]

idle : (n : Node) → HasNone n → is_active n ≡ false
unfolding is_active
idle n h = ground arith

none_active : (nodes : List Node) → All HasNone nodes → count_if is_active nodes ≡ 0
none_active [] h = refl
none_active (n ∷ nodes) h = rw (idle n h.0) (omega (arith, none_active nodes h.1))

count_if-started :
    (pids : List ℤ) (nodes : List Node)
    → length pids ≤ length nodes
    → All HasNone nodes
    → All (λ (p : ℤ). p ≢ pos 0) pids
    → count_if is_active (started started_node pids nodes) ≡ count_if forked pids
count_if-started [] nodes h none_yet known = none_active nodes none_yet
count_if-started (p ∷ ps) [] h none_yet known = absurd (omega arith)
count_if-started (p ∷ ps) (n ∷ nodes) h none_yet known =
    rw (started_node-active p n none_yet.0 known.0) (
      ap (◌+◌ (if forked p then 1 else 0))
        (count_if-started ps nodes (omega arith) none_yet.1 known.1))

all_alive :
    (pids : List ℤ) (users : List User)
    → length pids ≡ length users
    → (count_if (λ (u : User). is_alive u.status) (started started_user pids users) ≡ length users)
      × (count_if (λ (u : User). is_dead u.status) (started started_user pids users) ≡ 0)
unfolding is_alive is_dead
all_alive [] [] h = (refl, refl)
all_alive [] (u ∷ users) h = absurd (omega arith)
all_alive (p ∷ ps) [] h = absurd (omega arith)
all_alive (p ∷ ps) (u ∷ users) h =
    let (a, d) = all_alive ps users (omega arith) in (omega (arith, a), omega (arith, d))

length-started :
    {A : Type 0} (f : ℤ → A → A) (pids : List ℤ) (xs : List A)
    → length (started f pids xs) ≡ length xs
length-started f [] xs = refl
length-started f (p ∷ ps) [] = refl
length-started f (p ∷ ps) (x ∷ xs) = ap suc (length-started f ps xs)

module _ (par : Parameters) (node_pids user_pids : List ℤ) (nodes : List Node)
    (users : List User) where
  -- The state after both loops, and what start_continuous_print then counts.
  abbrev pub Begins : Type 0
  Begins =
      (s : Spawner) × (users' : List User) × (start_nodes par 0 node_pids
          (record { over_buf = 0; nodes = nodes })
        ≡ some s)
      × (start_users 0 user_pids users ≡ some users')
      × ((s.over_buf ≡ 0) ⊎ (s.over_buf ≡ par.so_nodes_num))
      × (s.nodes ≡ started started_node node_pids nodes)
      × (users' ≡ started started_user user_pids users)
      × (count_nodes s.nodes 0 ≡ count_if forked node_pids)
      × ((count_users users' (0, 0)).0 ≡ par.so_user_num)
      × (users_are_dead par users' ≡ false)

  -- For at least one node and two users, arrays of twice SO_NODES_NUM nodes without a pid and of
  -- SO_USER_NUM users, fewer than 2 ^ 32, and one answer of fork for each, none of them 0: the loops of
  -- main write to each of the first SO_NODES_NUM nodes and to each user the pid that its fork gave, if
  -- it did not fail, balance 0 and that it is available or alive, and to no other node, and leave the
  -- counter of the extra nodes where these begin. start_continuous_print then counts as active just
  -- the nodes whose fork succeeded, and all users, and does not take the users for dead.
  pub start_nodes-Begins :
      0 < par.so_nodes_num
      → par.so_nodes_num * 2 < 2 ^ 32
      → length node_pids ≡ par.so_nodes_num
      → length nodes ≡ par.so_nodes_num * 2
      → All (λ (n : Node). n.pid ≡ pos 0) nodes
      → All (λ (p : ℤ). p ≢ pos 0) node_pids
      → 2 ≤ par.so_user_num
      → par.so_user_num < 2 ^ 32
      → length user_pids ≡ par.so_user_num
      → length users ≡ par.so_user_num
      → Begins
  unfolding users_are_dead
  start_nodes-Begins some_nodes few forks long unused known two small user_forks all =
      let (over, first, run) =
        start_nodes_lem par some_nodes few node_pids 0 [] nodes (inl refl) (omega arith) in
      let users' = started started_user user_pids users in
      let (alive, dead) = all_alive user_pids users (omega arith) in
      let (counts, gone) = count_users_lem users' 0 0 in
      (
        record { over_buf = over; nodes = started started_node node_pids nodes },
        users',
        run,
        start_users_lem user_pids [] users (omega arith),
        first,
        refl,
        refl,
        count_nodes_lem (started started_node node_pids nodes) 0
            ∙ ap (◌+◌ 0) (count_if-started node_pids nodes (omega arith) unused known)
            ∙ omega arith,
        omega (arith, counts, alive),
        rw
            (
              users_are_dead,
              take_all par.so_user_num users' (length-started started_user user_pids users ∙ all),
            )
            (ground (arith, gone, dead)),
      )
