-- ===== src/Master/Startup.antt =====
-- How main of src/master.c starts: the loops that spawn the nodes and the users, and
-- send_friend_list. What fork, msgget and send_message answer are arguments.
pub mod Spawned
pub mod Active
pub mod Handshake
use simulazione_transazioni.Prelude.{
  ℕ, zero, suc, ◌+◌, List, [], ◌∷◌, ◌++◌, Option, none, some, if◌then◌else◌,
}
use simulazione_transazioni.Prelude.Int.{ℤ, pos, negsuc, ◌==ℤ◌}
use simulazione_transazioni.Common.{
  Parameters, Node, User, alive, MsgbufFriends, friends_mtype, success,
}
use simulazione_transazioni.Table.{update_at}
use simulazione_transazioni.Sys.{Message, friend, Queue}
use simulazione_transazioni.Master.{Spawner, start_node, make_friend_list}

-- The first loop of main, from `nCounter` on: what fork gives in each round.
unfoldable pub start_nodes : Parameters → ℕ → List ℤ → Spawner → Option Spawner
unfolding start_node
start_nodes par n_counter [] s = some s
start_nodes par n_counter (pid ∷ pids) s = elim (start_node par pid n_counter s) [
  | none ↦ none
  | some (_, s') ↦ start_nodes par (n_counter + 1) pids s'
]

-- spawn_user, in the parent.
unfoldable pub spawn_user : ℤ → ℕ → List User → Option (List User)
unfolding update_at
spawn_user user_pid u_counter users =
    if user_pid ==ℤ negsuc 0
    then some users
    else update_at users (pos u_counter) (λ u. record u { pid = user_pid })

unfoldable pub reset_user : User → User
reset_user u = record u { status = alive; balance = 0 }

-- The body of the loop over the users.
unfoldable pub start_user : ℤ → ℕ → List User → Option (List User)
unfolding reset_user spawn_user
start_user user_pid u_counter users = elim (update_at users (pos u_counter) reset_user) [
  | none ↦ none
  | some users' ↦ spawn_user user_pid u_counter users'
]

-- That loop, from `uCounter` on.
unfoldable pub start_users : ℕ → List ℤ → List User → Option (List User)
unfolding start_user
start_users u_counter [] users = some users
start_users u_counter (pid ∷ pids) users = elim (start_user pid u_counter users) [
  | none ↦ none
  | some users' ↦ start_users (u_counter + 1) pids users'
]

-- The second loop of send_friend_list: the queue of the node, and for each friend what send_message
-- gives. Only what is sent reaches the queue.
unfoldable pub send_friends : (ℤ → ℤ) → List ℤ → Queue → Queue
send_friends sent [] queue = queue
send_friends sent (f ∷ fs) queue = send_friends sent fs (
    if sent f ==ℤ success
    then queue ++ friend (record { mtype = friends_mtype; friend = f }) ∷ []
    else queue)

-- `none`: make_friend_list reads outside an array.
unfoldable pub send_friend_list : (ℤ → ℤ) → (ℕ → ℕ) → Parameters → List Node → Queue → Option Queue
unfolding send_friends make_friend_list
send_friend_list sent draw par nodes queue = elim (make_friend_list draw par nodes) [
  | none ↦ none
  | some friends ↦ some (send_friends sent friends queue)
]
