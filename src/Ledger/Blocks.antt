-- ===== src/Ledger/Blocks.antt =====
-- What new_block of src/nodes.c puts into a block and adds to the balance of the node.
use simulazione_transazioni.Prelude.{
  ℕ, ◌+◌, ◌-◌, ◌*◌, ◌^◌, ◌%◌, ◌<◌, ◌≤◌, ◌≡◌, refl, ap, ◌∙◌, List, [], ◌∷◌, some, arith, All, length,
  length-take, get_elem?, set, take,
}
use simulazione_transazioni.Prelude.Int.{
  ℤ, pos, negsuc, pos_part, neg_part, ◌+ℤ◌, +ℤ_parts, eq_of_parts,
}
use simulazione_transazioni.Prelude.Words.{u32, add_i32, add_i32-eq-add, u64_of_ℤ}
use simulazione_transazioni.Table.{index_loop-some, update_at-some}
use simulazione_transazioni.Common.{Block, Transaction, Node, Timespec, Parameters, so_block_size}
use simulazione_transazioni.Ledger.{
  get_pid_node_index, sum_rewards, sum_reward, reward_transaction, new_block,
}

-- The sum of the rewards, with no bound on it.
unfoldable pub total_reward : List Transaction → ℕ
total_reward [] = 0
total_reward (t ∷ ts) = pos_part t.reward + total_reward ts

-- No reward is negative.
abbrev pub HaveRewards : List Transaction → Type 0
HaveRewards = All (λ t. neg_part t.reward ≡ 0)

-- An `int` that an amount is added to, without overflow.
pub add_i32_pos :
    (a : ℕ) (r : ℤ)
    → neg_part r ≡ 0
    → a + pos_part r < 2 ^ 31
    → add_i32 (pos a) r ≡ pos (a + pos_part r)
add_i32_pos a (pos r) h small =
    let sum : pos a +ℤ pos r ≡ pos (a + r) =
      eq_of_parts _ _ (omega (arith, +ℤ_parts (pos a) (pos r))) in
    add_i32-eq-add (pos a) (pos r) (rw sum (small, omega arith)) ∙ sum
add_i32_pos a (negsuc r) h small = absurd (omega arith)

sum_rewards-total :
    (a : ℕ) (ts : List Transaction)
    → HaveRewards ts
    → a + total_reward ts < 2 ^ 31
    → sum_rewards (pos a) ts ≡ pos (a + total_reward ts)
unfolding sum_rewards total_reward
sum_rewards-total a [] h small = ap pos (omega arith)
sum_rewards-total a (t ∷ ts) h small =
    rw (add_i32_pos a t.reward h.0 (omega arith))
      (sum_rewards-total (a + pos_part t.reward) ts h.1 (omega arith) ∙ ap pos (omega arith))

-- An index that get_pid_nodeIndex returns is that of a node with the pid asked for.
pub get_pid_node_index-some :
    (par : Parameters) (my_pid : ℤ) (nodes : List Node) (j : ℕ)
    → get_pid_node_index par my_pid nodes ≡ pos j
    → (n : Node) × (get_elem? nodes j ≡ some n) × (n.pid ≡ my_pid)
unfolding get_pid_node_index
get_pid_node_index-some par my_pid nodes j e =
    let (n, got, is, _) =
      index_loop-some (λ (n : Node). n.pid) (u32 (par.so_nodes_num * 2)) my_pid nodes j e in
    (n, got, is)

u64_of_ℤ-add : (a b : ℕ) → u64_of_ℤ (pos a +ℤ pos b) ≡ (a + b) % 2 ^ 64
unfolding u64_of_ℤ ◌+ℤ◌
u64_of_ℤ-add a b = ground arith

sum_reward-some :
    (par : Parameters) (my_pid : ℤ) (nodes : List Node) (buffer : List Transaction) (i s : ℕ)
    (n : Node)
    → get_pid_node_index par my_pid nodes ≡ pos i
    → get_elem? nodes i ≡ some n
    → sum_rewards (pos 0) (take (so_block_size - 1) buffer) ≡ pos s
    → sum_reward par my_pid nodes buffer
      ≡ some (set nodes i (record n { balance = (n.balance + s) % 2 ^ 64 }), pos s)
unfolding sum_reward
sum_reward-some par my_pid nodes buffer i s n at got sum =
    rw
      (
        sum,
        at,
        sum_reward,
        update_at-some nodes i
            (λ (x : Node). record x { balance = u64_of_ℤ (pos x.balance +ℤ pos s) }) got,
        u64_of_ℤ-add n.balance s,
      )
      (rw sum)

module _ (par : Parameters) (my_pid : ℤ) (now : Timespec) (raw_index : ℕ) (nodes : List Node)
    (buffer : List Transaction) where
  -- The transactions that go into the block.
  abbrev pub taken : List Transaction
  taken = take (so_block_size - 1) buffer

  -- The node whose balance grows by the rewards, and the block.
  abbrev pub Rewards : ℕ → Type 0
  Rewards i =
      (n : Node) × (b : Block) × (get_elem? nodes i ≡ some n)
      × (n.pid ≡ my_pid)
      × (new_block par my_pid now raw_index nodes buffer
          ≡ some
              (set nodes i (record n { balance = (n.balance + total_reward taken) % 2 ^ 64 }), b))
      × (b.trans_list ≡ reward_transaction my_pid now (pos (total_reward taken)) ∷ taken)
      × (length b.trans_list ≡ so_block_size)

  -- For a node that is in the array and a buffer of at least nine transactions whose first nine
  -- have no negative reward and a sum of rewards that an `int` holds, new_block makes a block of ten
  -- transactions: a reward transaction from SELF to the node over exactly the sum of the rewards,
  -- and the nine. The balance of the node grows by the same sum, modulo 2 ^ 64, and no other node
  -- changes.
  pub new_block-Rewards :
      (i : ℕ)
      → get_pid_node_index par my_pid nodes ≡ pos i
      → so_block_size ≤ length buffer + 1
      → HaveRewards taken
      → total_reward taken < 2 ^ 31
      → Rewards i
  unfolding new_block
  new_block-Rewards i at enough nonneg small =
      let (n, got, is) = get_pid_node_index-some par my_pid nodes i at in
      let sum : sum_rewards (pos 0) taken ≡ pos (total_reward taken) =
        sum_rewards-total 0 taken nonneg (omega arith) ∙ ap pos (omega arith) in
      (
        n,
        record {
          trans_list = reward_transaction my_pid now (pos (total_reward taken)) ∷ taken;
          block_index = raw_index;
        },
        got,
        is,
        rw (sum_reward-some par my_pid nodes buffer i _ n at got sum, new_block),
        refl,
        omega (arith, length-take (so_block_size - 1) buffer),
      )
