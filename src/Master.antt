-- ===== src/Master.antt =====
-- src/master.c: the choice of the friends of a node, the slots of the nodes that are spawned, and
-- the counts of the continuous print. What `rand` and `fork` answer are arguments.
pub mod Arguments
pub mod Counts
pub mod Ending
pub mod Friends
pub mod Slots
pub mod Startup
use simulazione_transazioni.Prelude.{
  ℕ, zero, suc, ◌+◌, ◌-◌, ◌*◌, ◌%◌, Bool, true, false, ◌&&◌, not, List, [], ◌∷◌, Option, none, some,
  if◌then◌else◌, ltb, leb, ◌==◌, get_elem?, set, take,
}
use simulazione_transazioni.Prelude.Int.{ℤ, pos, negsuc, ◌==ℤ◌}
use simulazione_transazioni.Prelude.Words.{u32, sub_u32}
use simulazione_transazioni.Common.{
  is_dead, Parameters, Node, NodeStatus, available, full, User, UserStatus, alive, broke, dead,
  error,
}
use simulazione_transazioni.Table.{update_at}

-- The test of a round of make_friend_list; `draw` is what `rand` gives.
unfoldable pub is_chosen : ℕ → ℕ → ℕ → ℕ → ℕ → Bool
is_chosen num_nodes num_friends i_nodes i_friends draw =
    let to_iterate = num_nodes - i_nodes in
    let to_find = num_friends - i_friends in
    elim to_iterate [ zero ↦ false | suc k ↦ ltb (draw % suc k) to_find ]

module _ (num_nodes num_friends : ℕ) (draw : ℕ → ℕ) where
  -- The first loop of make_friend_list: the rounds left, `iNodes` and `iFriends`. The indexes that
  -- it stores are returned, and `draw i` is the number drawn in round `i`.
  unfoldable pub choose : ℕ → ℕ → ℕ → List ℕ
  choose zero i_nodes i_friends = []
  choose (suc k) i_nodes i_friends =
      let taken = choose k (suc i_nodes) (suc i_friends) in
      let passed = choose k (suc i_nodes) i_friends in
      if ltb i_friends num_friends && ltb i_nodes num_nodes
      then if is_chosen num_nodes num_friends i_nodes i_friends (draw i_nodes)
        then i_nodes ∷ taken
        else passed
      else []

-- The second loop, over the indexes. `none`: an index is outside the array.
unfoldable pub friends_at : List Node → List ℕ → Option (List ℤ)
friends_at nodes [] = some []
friends_at nodes (i ∷ is) = elim (get_elem? nodes i) [
  | none ↦ none
  | some n ↦ elim (friends_at nodes is) [ none ↦ none | some rest ↦ some (n.pid ∷ rest) ]
]

-- At most `numNodes` rounds are run. `numNodes` and `numFriends` are of type `int`: the definition is
-- that of the source for parameters below 2 ^ 31.
unfoldable pub make_friend_list : (ℕ → ℕ) → Parameters → List Node → Option (List ℤ)
unfolding choose friends_at
make_friend_list draw par nodes =
    friends_at nodes (choose par.so_nodes_num par.so_friends_num draw par.so_nodes_num 0 0)

-- What spawn_node keeps from call to call, and the shared array.
pub record Spawner : Type 0 where
  pub over_buf : ℕ
  pub nodes : List Node

-- `overBuf` after the first test.
unfoldable pub first_over : Parameters → ℕ → ℕ
first_over par over_buf = if over_buf == 0 then par.so_nodes_num else over_buf

-- `nCounter` and `overBuf` after the other tests, `none` when the capacity is reached.
unfoldable pub next_slot : Parameters → ℤ → ℕ → Option (ℤ × ℕ)
next_slot par n_counter over =
    if leb (u32 (par.so_nodes_num * 2)) over
    then none
    else some (if n_counter ==ℤ negsuc 0 then (pos over, u32 (over + 1)) else (n_counter, over))

-- The switch, in the parent.
unfoldable pub record_node : ℤ → ℤ → ℕ → List Node → Option (ℤ × Spawner)
record_node node_pid slot over nodes =
    if node_pid ==ℤ negsuc 0
    then some (node_pid, record { over_buf = over; nodes = nodes })
    else elim (update_at nodes slot (λ n. record n { pid = node_pid })) [
      | none ↦ none
      | some nodes' ↦ some (node_pid, record { over_buf = over; nodes = nodes' })
    ]

-- spawn_node in the parent, which has forked `node_pid`, -1 on an error. `none`: a write outside
-- the array.
unfoldable pub spawn_node : Parameters → ℤ → ℤ → Spawner → Option (ℤ × Spawner)
spawn_node par node_pid n_counter s = elim (next_slot par n_counter (first_over par s.over_buf)) [
  | none ↦ some (error, record s { over_buf = first_over par s.over_buf })
  | some (slot, over) ↦ record_node node_pid slot over s.nodes
]

-- The statements before the spawn, in main and in the loop of the extra nodes.
unfoldable pub reset_node : Node → Node
reset_node n = record n { status = available; balance = 0 }

-- The body of the first loop of main.
unfoldable pub start_node : Parameters → ℤ → ℕ → Spawner → Option (ℤ × Spawner)
unfolding reset_node spawn_node
start_node par node_pid n_counter s = elim (update_at s.nodes (pos n_counter) reset_node) [
  | none ↦ none
  | some nodes ↦ spawn_node par node_pid (pos n_counter) (record s { nodes = nodes })
]

-- What the process for the extra nodes does in a round: it ends, or it sends the friends of the new
-- node, and then to friends of its choice the pid of a new friend.
pub data Served : Type 0 where
  ended : Spawner → Served
  announced : ℤ → ℤ → Spawner → Served

-- The switch on what spawn_node returned.
unfoldable pub after_spawn : ℕ → Option (ℤ × Spawner) → Option Served
after_spawn n_counter none = none
after_spawn n_counter (some (pid, s)) =
    if pid ==ℤ negsuc 0
    then some (ended s)
    else elim (get_elem? s.nodes n_counter) [ none ↦ none | some n ↦ some (announced pid n.pid s) ]

-- A round of the loop after a transaction that hopped too often is received. `n_counter` is never
-- changed in the loop, and is SO_NODES_NUM since the loops of main.
unfoldable pub serve_hopped : Parameters → ℤ → ℕ → Spawner → Option Served
serve_hopped par node_pid n_counter s = elim (update_at s.nodes (pos n_counter) reset_node) [
  | none ↦ none
  | some nodes ↦
      after_spawn n_counter (spawn_node par node_pid (negsuc 0) (record s { nodes = nodes }))
]

unfoldable pub is_alive : UserStatus → Bool
is_alive alive = true
is_alive _ = false

-- The loop over the users in start_continuous_print: the active users and the dead ones.
unfoldable pub count_users : List User → ℕ × ℕ → ℕ × ℕ
unfolding is_alive is_dead
count_users [] (active, gone) = (active, gone)
count_users (u ∷ us) (active, gone) =
    count_users us (
      if is_alive u.status then active + 1 else active,
      if is_dead u.status then gone + 1 else gone,
    )

unfoldable pub is_active : Node → Bool
is_active n = elim n.status [ available ↦ not (n.pid ==ℤ pos 0) | full ↦ false ]

-- The loop over the nodes.
unfoldable pub count_nodes : List Node → ℕ → ℕ
unfolding is_active
count_nodes [] active = active
count_nodes (n ∷ ns) active = count_nodes ns (if is_active n then active + 1 else active)

-- The test that ends the simulation because its users are dead.
unfoldable pub users_are_dead : Parameters → List User → Bool
unfolding count_users
users_are_dead par users =
    leb (sub_u32 par.so_user_num 1) (count_users (take par.so_user_num users) (0, 0)).1
