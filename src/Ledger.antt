-- ===== src/Ledger.antt =====
-- The ledger functions of src/nodes.c: sum_reward, new_block, confirm_block and
-- insert_block_in_ledger, run by one process from start to end. Ledger/Race.antt has them run by
-- several at once.
pub mod Append
pub mod Blocks
pub mod Race
use simulazione_transazioni.Prelude.{
  ℕ, zero, suc, ◌+◌, ◌-◌, ◌*◌, ◌%◌, ◌^◌, Bool, false, List, [], ◌∷◌, Option, none, some, map,
  if◌then◌else◌, get_elem?, set, take,
}
use simulazione_transazioni.Prelude.Int.{ℤ, pos, negsuc, ◌+ℤ◌, ◌==ℤ◌}
use simulazione_transazioni.Prelude.Words.{add_i32, u32, u64_of_ℤ}
use simulazione_transazioni.Table.{index_loop, update_at}
use simulazione_transazioni.Common.{
  so_block_size, so_registry_size, self, error, Node, Timespec, Transaction, Block, pending,
  confirmed, Parameters,
}

-- The test of a slot: `transList[1].sender == 0`.
unfoldable pub is_free : Block → Bool
is_free b = elim (get_elem? b.trans_list 1) [ none ↦ false | some t ↦ t.sender ==ℤ pos 0 ]

unfoldable pub slot_is_free : List Block → ℕ → Bool
unfolding is_free
slot_is_free ledger i = elim (get_elem? ledger i) [ none ↦ false | some b ↦ is_free b ]

abbrev pub confirm : Transaction → Transaction
confirm t = record t { status = confirmed }

unfoldable pub confirm_block : Block → Block
confirm_block b = record b { trans_list = map confirm b.trans_list }

-- The loop of insert_block_in_ledger up to its `if`: the rounds left, and `i`.
unfoldable pub find_slot : ℕ → ℕ → List Block → Option ℕ
unfolding slot_is_free
find_slot zero i ledger = none
find_slot (suc k) i ledger =
    let rest = find_slot k (suc i) ledger in if slot_is_free ledger i then some i else rest

-- The body of the `if`, between sem_reserve and sem_release: the copy with its index, confirmed.
unfoldable pub write_slot : Block → List Block → ℕ → List Block
unfolding confirm_block
write_slot new_block ledger i = set ledger i (confirm_block (record new_block { block_index = i }))

-- `none`: the ledger is full, and SIGINT goes to the whole process group.
unfoldable pub insert_block_in_ledger : Block → List Block → Option (List Block)
unfolding write_slot
insert_block_in_ledger new_block ledger = elim (find_slot so_registry_size 0 ledger) [
  | none ↦ none
  | some i ↦ some (write_slot new_block ledger i)
]

-- get_pid_nodeIndex: the index of this node, or `error`.
unfoldable pub get_pid_node_index : Parameters → ℤ → List Node → ℤ
unfolding index_loop
get_pid_node_index par my_pid nodes =
    index_loop (λ (n : Node). n.pid) (u32 (par.so_nodes_num * 2)) 0 my_pid nodes

-- The loop of sum_reward.
unfoldable pub sum_rewards : ℤ → List Transaction → ℤ
sum_rewards sum [] = sum
sum_rewards sum (t ∷ ts) = sum_rewards (add_i32 sum t.reward) ts

-- The sum, which is also added to the balance of this node. `none`: this node is not in `nodes`.
unfoldable pub sum_reward : Parameters → ℤ → List Node → List Transaction → Option (List Node × ℤ)
unfolding get_pid_node_index update_at sum_rewards
sum_reward par my_pid nodes buffer =
    let sum = sum_rewards (pos 0) (take (so_block_size - 1) buffer) in
    elim (update_at nodes (get_pid_node_index par my_pid nodes)
      (λ n. record n { balance = u64_of_ℤ (pos n.balance +ℤ sum) })) [
        | none ↦ none
        | some nodes' ↦ some (nodes', sum)
      ]

abbrev pub reward_transaction : ℤ → Timespec → ℤ → Transaction
reward_transaction my_pid now sum = record {
  timestamp = now;
  sender = self;
  receiver = my_pid;
  amount = sum;
  reward = pos 0;
  status = pending;
}

-- `now` is the time that clock_gettime gives. The block comes from malloc, with any index.
unfoldable pub new_block :
    Parameters → ℤ → Timespec → ℕ → List Node → List Transaction → Option (List Node × Block)
unfolding sum_reward
new_block par my_pid now raw_index nodes buffer = elim (sum_reward par my_pid nodes buffer) [
  | none ↦ none
  | some (nodes', sum) ↦ some (
    nodes',
    record {
      trans_list = reward_transaction my_pid now sum ∷ take (so_block_size - 1) buffer;
      block_index = raw_index;
    },
  )
]
