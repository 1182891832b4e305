-- ===== src/Nodes.antt =====
-- The main loop of src/nodes.c: fetch_messages, send_to_random_friend, fill_block_transList,
-- fill_friendList and node_interrupt_handle. The pool is the sequence of its messages, oldest
-- first, as Pool/Queue.antt shows it to be; `size` is the counter that these functions keep.
pub mod Children
pub mod Earned
pub mod Flow
pub mod Growth
pub mod Hops
pub mod Pooling
pub mod Run
use simulazione_transazioni.Prelude.{
  ℕ, zero, suc, ◌+◌, ◌-◌, ◌==◌, Bool, true, false, ◌&&◌, List, [], ◌∷◌, ◌++◌, Option, none, some,
  if◌then◌else◌, ltb, leb, get_elem?,
}
use simulazione_transazioni.Prelude.Int.{ℤ, pos, negsuc, ◌-ℤ◌, ◌==ℤ◌, ltb_ℤ}
use simulazione_transazioni.Prelude.Words.{u32, sub_u32, add_i32, i32_of_u32, u64_of_ℤ}
use simulazione_transazioni.Common.{
  Parameters, Node, Timespec, Transaction, Block, MsgbufTrans, MsgbufFriends, so_block_size,
  transaction_mtype, success,
}
use simulazione_transazioni.Table.{update_at}
use simulazione_transazioni.Ledger.{get_pid_node_index, new_block, insert_block_in_ledger}
use simulazione_transazioni.Rand.{rand_between}

-- The globals that the loop changes; `flag` is the static counter of fetch_messages.
pub record NodeState : Type 0 where
  pub trans_pool : List MsgbufTrans
  pub size : ℕ
  pub friend_list : List ℤ
  pub flag : ℕ

-- add_to_pool, and the count of its caller.
unfoldable pub put : MsgbufTrans → NodeState → NodeState
put m s = record s { trans_pool = s.trans_pool ++ m ∷ []; size = u32 (s.size + 1) }

-- Where a message went that left the pool: nowhere, as there is none; to the master, or nowhere
-- when its queue does not take it; to a friend; back to the pool. `stopped`: the friend was never
-- set, and the node raises SIGINT for itself.
pub data Hop : Type 0 where
  nothing stopped kept : Hop
  to_master : MsgbufTrans → Hop
  discarded : MsgbufTrans → Hop
  to_friend : ℤ → MsgbufTrans → Hop

-- What the kernel answers: `msgget` of a pid, and the code of send_message.
pub record Answers : Type 0 where
  pub queue_of : ℤ → ℤ
  pub sent : ℤ

-- The case of a message that has no hop left.
unfoldable pub hop_out : Answers → MsgbufTrans → NodeState → Hop × NodeState
hop_out answers m s =
    let out = record m { mtype = transaction_mtype; hops = pos 0 } in
    (if answers.sent ==ℤ success then to_master out else discarded out, s)

-- The case of one that goes to a friend.
unfoldable pub hop_on : Answers → ℤ → ℤ → MsgbufTrans → NodeState → Hop × NodeState
unfolding put
hop_on answers queue_id friend m s =
    let out = record m { mtype = transaction_mtype; hops = m.hops -ℤ pos 1 } in
    if friend ==ℤ pos 0
    then (stopped, s)
    else if answers.queue_of friend ==ℤ queue_id
    then (kept, put out s)
    else if answers.sent ==ℤ success
    then (to_friend friend out, s)
    else (kept, put out s)

-- `draw` is what `rand` gives. `none`: a division by 0, or a read outside the friends.
unfoldable pub hop_message :
    Answers → Parameters → ℤ → ℕ → MsgbufTrans → NodeState → Option (Hop × NodeState)
unfolding hop_out hop_on
hop_message answers par queue_id draw m s =
    elim (rand_between draw 0 (sub_u32 par.so_friends_num 1)) [
      | none ↦ none
      | some i ↦
          if ltb_ℤ (pos 0) m.hops
          then elim (get_elem? s.friend_list i) [
            | none ↦ none
            | some friend ↦ some (hop_on answers queue_id friend m s)
          ]
          else some (hop_out answers m s)
    ]

unfoldable pub send_to_random_friend :
    Answers → Parameters → ℤ → ℕ → NodeState → Option (Hop × NodeState)
unfolding hop_message
send_to_random_friend answers par queue_id draw s = elim s.trans_pool [
  | [] ↦ some (nothing, s)
  | m ∷ rest ↦
      hop_message answers par queue_id draw m
        (record s { trans_pool = rest; size = sub_u32 s.size 1 })
]

-- What the two calls of receive_message give: the code, and the message in the buffer.
pub record Fetched : Type 0 where
  pub trans_code : ℤ
  pub fetched_mex : MsgbufTrans
  pub friend_code : ℤ
  pub friend_received : MsgbufFriends

-- The first branch of fetch_messages.
unfoldable pub receive_both : Fetched → NodeState → NodeState
unfolding put
receive_both f s =
    let s₁ = if f.trans_code ==ℤ success then put f.fetched_mex s else s in
    record s₁ {
      friend_list =
          if f.friend_code ==ℤ success
          then s.friend_list ++ f.friend_received.friend ∷ []
          else s.friend_list;
      flag = s.flag + 1;
    }

-- The second.
unfoldable pub reset_flag : Option (Hop × NodeState) → Option (Hop × NodeState)
reset_flag none = none
reset_flag (some (hop, s)) = some (hop, record s { flag = 0 })

unfoldable pub fetch_messages :
    Answers → Fetched → Parameters → ℤ → ℕ → NodeState → Option (Hop × NodeState)
unfolding receive_both send_to_random_friend reset_flag
fetch_messages answers f par queue_id draw s =
    if ltb s.size par.so_tp_size && ltb s.flag 20
    then some (nothing, receive_both f s)
    else reset_flag (send_to_random_friend answers par queue_id draw s)

-- fill_friendList: the rounds left, and the friend in the buffer, 0 at first. For each call of
-- receive_message, whose code is not looked at, there is the friend that it received, or `none`
-- when it left the buffer as it was. `none` as the result: the node still waits for an answer.
unfoldable pub fill_friend_list : ℕ → ℤ → List (Option ℤ) → Option (List ℤ)
fill_friend_list zero buffer answers = some []
fill_friend_list (suc k) buffer [] = none
fill_friend_list (suc k) buffer (a ∷ later) =
    let friend : ℤ = elim a [ none ↦ buffer | some f ↦ f ] in
    elim (fill_friend_list k friend later) [ none ↦ none | some fs ↦ some (friend ∷ fs) ]

-- The loop of fill_block_transList, the rounds left: the transactions, and the state. `none`: the
-- pool is empty, and the node raises SIGINT for itself.
unfoldable pub fill_loop : ℕ → NodeState → Option (List Transaction × NodeState)
fill_loop zero s = some ([], s)
fill_loop (suc k) s = elim s.trans_pool [
  | [] ↦ none
  | m ∷ rest ↦ elim (fill_loop k (record s { trans_pool = rest; size = sub_u32 s.size 1 })) [
    | none ↦ none
    | some (ts, s') ↦ some (m.user_trans ∷ ts, s')
  ]
]

unfoldable pub fill_block_trans_list : NodeState → Option (List Transaction × NodeState)
unfolding fill_loop
fill_block_trans_list s = fill_loop (so_block_size - 1) s

-- The end of a round of main, after the size is published: the buffer of a block, if one is
-- processed.
unfoldable pub process : NodeState → Option (Option (List Transaction) × NodeState)
unfolding fill_block_trans_list
process s =
    if leb (so_block_size - 1) s.size
    then elim (fill_block_trans_list s) [ none ↦ none | some (ts, s') ↦ some (some ts, s') ]
    else some (none, s)

-- A round of the loop of main: what left for other processes, the buffer of the block, the state.
unfoldable pub node_round :
    Answers
    → Fetched
    → Parameters
    → ℤ
    → ℕ
    → NodeState
    → Option (Hop × Option (List Transaction) × NodeState)
unfolding fetch_messages process
node_round answers f par queue_id draw s = elim (fetch_messages answers f par queue_id draw s) [
  | none ↦ none
  | some (hop, s') ↦ elim (process s') [ none ↦ none | some (ts, s'') ↦ some (hop, ts, s'') ]
]

-- The child of the fork in main: new_block, then insert_block_in_ledger. Without the ledger in the
-- result the ledger was full, and the whole group gets SIGINT.
unfoldable pub create_block :
    Parameters
    → ℤ
    → Timespec
    → ℕ
    → List Transaction
    → List Node
    → List Block
    → Option (List Node × Option (List Block))
unfolding new_block insert_block_in_ledger
create_block par my_pid now raw_index buffer nodes ledger =
    elim (new_block par my_pid now raw_index nodes buffer) [
      | none ↦ none
      | some (nodes', b) ↦ some (nodes', insert_block_in_ledger b ledger)
    ]

-- The write of the size of the pool to the shared array, in a round of main.
unfoldable pub publish_size : Parameters → ℤ → NodeState → List Node → Option (List Node)
unfolding update_at
publish_size par my_pid s nodes =
    update_at nodes (get_pid_node_index par my_pid nodes)
      (λ n. record n { tp_size = i32_of_u32 s.size })

-- The loop of node_interrupt_handle over the ledger.
unfoldable pub ledger_balance : ℤ → ℤ → List Block → ℤ
ledger_balance my_pid balance [] = balance
ledger_balance my_pid balance (b ∷ bs) =
    ledger_balance my_pid
      (elim b.trans_list [
        | [] ↦ balance
        | t ∷ _ ↦ if t.receiver ==ℤ my_pid then add_i32 balance t.amount else balance
      ])
      bs

-- What node_interrupt_handle writes to the shared array.
unfoldable pub node_interrupt_handle : Parameters → ℤ → List Block → List Node → Option (List Node)
unfolding ledger_balance update_at
node_interrupt_handle par my_pid ledger nodes =
    update_at nodes (get_pid_node_index par my_pid nodes)
      (λ n. record n { balance = u64_of_ℤ (ledger_balance my_pid (pos 0) ledger) })
