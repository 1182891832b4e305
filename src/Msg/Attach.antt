-- ===== src/Msg/Attach.antt =====
-- The loops that wait for a message queue: queue_to_pid of src/users.c, the loop of send_friend_list
-- of src/master.c and message_queue_attach of src/nodes.c.
use simulazione_transazioni.Prelude.{
  ℕ, zero, suc, Bool, true, false, ◌≡◌, refl, ◌∙◌, List, [], ◌∷◌, ◌++◌, map, Option, none, some,
  replicate, if◌then◌else◌,
}
use simulazione_transazioni.Prelude.Int.{ℤ, negsuc}

-- What msgget gives in a round: an ID, which leaves `errno` as it was, the error ENOENT, or another.
pub data Answer : Type 0 where
  found : ℤ → Answer
  missing : Answer
  failed : Answer

-- `errno` is set to 0 in each round. `none`: the loop is still running when the answers end.
unfoldable pub queue_to_pid : List Answer → Option ℤ
queue_to_pid [] = none
queue_to_pid (found id ∷ answers) = some id
queue_to_pid (missing ∷ answers) = queue_to_pid answers
queue_to_pid (failed ∷ answers) = some (negsuc 0)

-- `errno` is not set: `enoent` is whether it is ENOENT before the round.
unfoldable pub message_queue_attach : Bool → List Answer → Option ℤ
message_queue_attach enoent [] = none
message_queue_attach enoent (found id ∷ answers) =
    let rest = message_queue_attach enoent answers in if enoent then rest else some id
message_queue_attach enoent (missing ∷ answers) = message_queue_attach true answers
message_queue_attach enoent (failed ∷ answers) = some (negsuc 0)

queue_to_pid-found :
    (misses : ℕ) (id : ℤ) (answers : List Answer)
    → queue_to_pid (replicate misses missing ++ found id ∷ answers) ≡ some id
unfolding queue_to_pid
queue_to_pid-found zero id answers = refl
queue_to_pid-found (suc misses) id answers = queue_to_pid-found misses id answers

attach-misses :
    (misses : ℕ) (answers : List Answer)
    → message_queue_attach true (replicate misses missing ++ answers)
      ≡ message_queue_attach true answers
unfolding message_queue_attach
attach-misses zero answers = refl
attach-misses (suc misses) answers = attach-misses misses answers

attach-founds : (ids : List ℤ) → message_queue_attach true (map found ids) ≡ none
unfolding message_queue_attach
attach-founds [] = refl
attach-founds (id ∷ ids) = attach-founds ids

-- When the queue is there after some rounds, and any number of them, queue_to_pid comes back with
-- its ID, and so does message_queue_attach if the queue is there in the first round and `errno` is
-- not ENOENT before; but if the queue is missing in a round, message_queue_attach does not come back
-- however often msgget then finds the queue, since no round resets `errno`.
pub message_queue_attach_lem :
    (misses : ℕ) (id : ℤ) (ids : List ℤ)
    → (queue_to_pid (replicate misses missing ++ found id ∷ map found ids) ≡ some id)
      × (message_queue_attach false (found id ∷ map found ids) ≡ some id)
      × (message_queue_attach false (replicate (suc misses) missing ++ map found ids) ≡ none)
unfolding message_queue_attach
message_queue_attach_lem misses id ids = (
  queue_to_pid-found misses id (map found ids),
  refl,
  attach-misses misses (map found ids) ∙ attach-founds ids,
)
