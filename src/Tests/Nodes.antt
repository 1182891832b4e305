-- ===== src/Tests/Nodes.antt =====
-- A node with eight transactions in its pool, and one with a transaction to pass on.
use simulazione_transazioni.Prelude.{
  ◌≡◌, refl, arith, some, none, [], ◌∷◌, replicate, All-replicate, ◌≢◌,
}
use simulazione_transazioni.Prelude.Int.{pos}
use simulazione_transazioni.Nodes.{
  NodeState, Answers, Fetched, Hop, send_to_random_friend, fill_friend_list,
}
use simulazione_transazioni.Nodes.Hops.{Hops, without_oldest, send_to_random_friend-Hops}
use simulazione_transazioni.Nodes.Growth.{IsSmall}
use simulazione_transazioni.Nodes.Pooling.{Rounds, node_round-Rounds}
use simulazione_transazioni.Nodes.Run.{Event, IsReady, Runs, node_rounds-Runs}
use simulazione_transazioni.Tests.Data.{par, message}

abbrev answers : Answers
answers = record { queue_of = λ pid. pid; sent = pos 0 }

abbrev eight : NodeState
eight = record {
  trans_pool = replicate 8 (message 1);
  size = 8;
  friend_list = pos 201 ∷ [];
  flag = 3;
}

eight-IsSmall : IsSmall eight
eight-IsSmall = record { counted = refl; less = omega arith }

abbrev fetched : Fetched
fetched = record {
  trans_code = pos 0;
  fetched_mex = message 2;
  friend_code = pos 0;
  friend_received = record { mtype = 28411; friend = pos 202 };
}

node_round-Rounds_example : Rounds answers par (pos 200) eight fetched 5
node_round-Rounds_example =
    node_round-Rounds answers par (pos 200) eight eight-IsSmall (omega arith) (omega arith)
      (omega arith) fetched 5

send_to_random_friend-Hops_example :
    (r : Hop × NodeState) × (send_to_random_friend answers par (pos 200) 5 eight ≡ some r)
    × Hops answers par (pos 200) (message 1) (without_oldest (replicate 7 (message 1)) eight) 5 r
send_to_random_friend-Hops_example =
    send_to_random_friend-Hops answers par (pos 200) 5 eight (message 1) (replicate 7 (message 1))
      refl (omega arith) (omega arith) (omega arith)

-- A friend that is not received stands twice.
fill_friend_list_test :
    fill_friend_list 3 (pos 0) (some (pos 201) ∷ none ∷ some (pos 202) ∷ [])
    ≡ some (pos 201 ∷ pos 201 ∷ pos 202 ∷ [])
unfolding fill_friend_list
fill_friend_list_test = refl

abbrev event : Event
event = record { answers = answers; fetched = fetched; draw = 5 }

eight-IsReady : IsReady par eight
eight-IsReady = record {
  small = eight-IsSmall;
  long = omega arith;
  known = (λ e. ground arith, tt);
}

-- The first round makes a block of nine, and two more wait for messages.
node_rounds-Runs_example : Runs par (pos 200) (replicate 3 event) eight
node_rounds-Runs_example =
    node_rounds-Runs par (pos 200) (omega arith) (omega arith) (replicate 3 event) eight
      eight-IsReady
      (All-replicate (λ (e : Event). e.fetched.friend_received.friend ≢ pos 0) 3 event
        (λ e. ground arith))
