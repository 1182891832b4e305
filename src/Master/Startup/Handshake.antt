-- ===== src/Master/Startup/Handshake.antt =====
-- The friends that send_friend_list of src/master.c sends are those that fill_friendList of
-- src/nodes.c receives, over the queue of the node.
use simulazione_transazioni.Prelude.{
  ℕ, zero, suc, ◌≤◌, ◌≡◌, ◌≢◌, refl, sym, ap, ◌∙◌, List, [], ◌∷◌, ◌++◌, map, Option, none, some,
  length, take, get_elem?-take, All, All-of, All-get_elem?, arith,
}
use simulazione_transazioni.Prelude.Int.{ℤ, pos}
use simulazione_transazioni.Common.{Parameters, Node, friends_mtype, success}
use mathlib.Core.Path.{subst}
use mathlib.Core.List.{append-nil, append_assoc}
use simulazione_transazioni.Sys.{Message, trans, friend, Queue, msgrcv_friend}
use simulazione_transazioni.Table.{get_elem?-some}
use simulazione_transazioni.Nodes.{NodeState, fill_friend_list}
use simulazione_transazioni.Nodes.Run.{IsReady}
use simulazione_transazioni.Master.{friends_at, make_friend_list}
use simulazione_transazioni.Master.Friends.{Ascending, make_friend_list-Draws}
use simulazione_transazioni.Master.Startup.{send_friends, send_friend_list}

-- What as many calls of receive_message give on a queue.
unfoldable pub received : ℕ → Queue → List (Option ℤ)
unfolding msgrcv_friend
received zero queue = []
received (suc k) queue = elim (msgrcv_friend queue) [
  | none ↦ []
  | some (f, left) ↦ some f.friend ∷ received k left
]

-- Only transactions wait on the queue.
abbrev pub OnlyTrans : Queue → Type 0
OnlyTrans [] = Unit {0}
OnlyTrans (trans m ∷ q) = OnlyTrans q
OnlyTrans (friend f ∷ q) = ⊥

abbrev announce : ℤ → Message
announce f = friend (record { mtype = friends_mtype; friend = f })

send_friends_lem :
    (sent : ℤ → ℤ) (fs : List ℤ) (queue : Queue)
    → All (λ (f : ℤ). sent f ≡ success) fs
    → send_friends sent fs queue ≡ queue ++ map announce fs
unfolding send_friends
send_friends_lem sent [] queue h = sym (append-nil queue)
send_friends_lem sent (f ∷ fs) queue h =
    rw (send_friends, h.0)
      (send_friends_lem sent fs (queue ++ announce f ∷ []) h.1
        ∙ append_assoc queue (announce f ∷ []) (map announce fs))

msgrcv_friend_lem :
    (queue rest : Queue) (f : ℤ)
    → OnlyTrans queue
    → msgrcv_friend (queue ++ announce f ∷ rest)
      ≡ some (record { mtype = friends_mtype; friend = f }, queue ++ rest)
unfolding msgrcv_friend
msgrcv_friend_lem [] rest f h = refl
msgrcv_friend_lem (trans m ∷ queue) rest f h =
    rw (msgrcv_friend, msgrcv_friend_lem queue rest f h) refl
msgrcv_friend_lem (friend g ∷ queue) rest f h = absurd h

received_lem :
    (fs : List ℤ) (queue : Queue)
    → OnlyTrans queue
    → received (length fs) (queue ++ map announce fs) ≡ map some fs
unfolding received
received_lem [] queue h = refl
received_lem (f ∷ fs) queue h =
    rw (received, msgrcv_friend_lem queue (map announce fs) f h)
      (ap (◌∷◌ (some f)) (received_lem fs queue h))

fill_friend_list_lem :
    (fs : List ℤ) (buffer : ℤ) → fill_friend_list (length fs) buffer (map some fs) ≡ some fs
unfolding fill_friend_list
fill_friend_list_lem [] buffer = refl
fill_friend_list_lem (f ∷ fs) buffer = rw (fill_friend_list, fill_friend_list_lem fs f) refl

-- The node gets what was sent.
filled :
    (n : ℕ) (fs : List ℤ) (queue : Queue)
    → OnlyTrans queue
    → length fs ≡ n
    → fill_friend_list n (pos 0) (received n (queue ++ map announce fs)) ≡ some fs
filled n fs queue only len =
    subst (λ (m : ℕ). fill_friend_list m (pos 0) (received m (queue ++ map announce fs)) ≡ some fs)
      len
      (ap (fill_friend_list (length fs) (pos 0)) (received_lem fs queue only)
        ∙ fill_friend_list_lem fs (pos 0))

-- The node has a pid.
abbrev pub IsKnown : Node → Type 0
IsKnown n = n.pid ≢ pos 0

friends_at-known :
    (nodes : List Node) (i n : ℕ) (is : List ℕ)
    → Ascending i n is
    → n ≤ length nodes
    → All IsKnown (take n nodes)
    → (fs : List ℤ) × (friends_at nodes is ≡ some fs) × All (λ (f : ℤ). f ≢ pos 0) fs
unfolding friends_at
friends_at-known nodes i n [] up long known = ([], refl, tt)
friends_at-known nodes i n (x ∷ xs) (_, lt, up) long known =
    let (fs, e, rest) = friends_at-known nodes (suc x) n xs up long known in
    let (node, at) = get_elem?-some nodes x (omega arith) in
    let is_known =
      All-get_elem? IsKnown (take n nodes) x known (get_elem?-take n nodes x lt ∙ at) in
    (node.pid ∷ fs, rw (friends_at, at, e) refl, (is_known, rest))

-- The state of a node whose friends are `friends`, before its first round.
abbrev pub fresh_node : List ℤ → NodeState
fresh_node friends = record { trans_pool = []; size = 0; friend_list = friends; flag = 20 }

module _ (sent : ℤ → ℤ) (draw : ℕ → ℕ) (par : Parameters) (nodes : List Node) (queue : Queue) where
  abbrev pub Meets : Type 0
  Meets =
      (friends : List ℤ) × (queue' : Queue) × (make_friend_list draw par nodes ≡ some friends)
      × (send_friend_list sent draw par nodes queue ≡ some queue')
      × (fill_friend_list par.so_friends_num (pos 0) (received par.so_friends_num queue')
          ≡ some friends)
      × IsReady par (fresh_node friends)

  -- When there are as many nodes as friends to find, an entry for each node and a pid other than 0 in
  -- it, no friend waits on the queue of the node, and every message is accepted: send_friend_list puts
  -- the friends that make_friend_list draws on the queue, and fill_friendList, which receives
  -- SO_FRIENDS_NUM of them, ends with just these friends in the same order; so the node can start its
  -- main loop, with an empty pool, a right counter and a list of friends none of which is 0.
  pub send_friend_list-Meets :
      par.so_friends_num ≤ par.so_nodes_num
      → par.so_nodes_num ≤ length nodes
      → All IsKnown (take par.so_nodes_num nodes)
      → OnlyTrans queue
      → ((f : ℤ) → sent f ≡ success)
      → Meets
  unfolding send_friend_list
  send_friend_list-Meets few long known only sends =
      let (is, friends, made, at, up, len) = make_friend_list-Draws draw par nodes few long in
      let (fs, at', set) = friends_at-known nodes 0 par.so_nodes_num is up long known in
      let same : fs ≡ friends = cc in
      (
        friends,
        queue ++ map announce friends,
        made,
        rw (send_friend_list, made)
            (ap some (
              send_friends_lem sent friends queue
                (All-of {P = λ f. sent f ≡ success} sends friends))),
        filled par.so_friends_num friends queue only len,
        record {
          small = record { counted = refl; less = omega arith };
          long = omega (arith, len);
          known = subst (All (λ (f : ℤ). f ≢ pos 0)) same set;
        },
      )
