-- ===== src/Nodes/Earned.antt =====
-- The balance that node_interrupt_handle of src/nodes.c reads off the ledger.
use simulazione_transazioni.Prelude.{
  ℕ, zero, suc, ◌+◌, ◌<◌, ◌^◌, ◌%◌, ◌≡◌, inl, inr, ◌∙◌, ap, true, List, [], ◌∷◌, some,
  if◌then◌else◌, get_elem?, set, set-get_self, length, All, arith, Bool-cases,
}
use simulazione_transazioni.Prelude.Int.{ℤ, pos, pos_part, neg_part, ◌==ℤ◌}
use simulazione_transazioni.Prelude.Words.{add_i32, u64_of_ℤ}
use simulazione_transazioni.Common.{Parameters, Transaction, Block, Node, so_registry_size}
use simulazione_transazioni.Table.{update_at-some}
use simulazione_transazioni.Ledger.{is_free, get_pid_node_index}
use simulazione_transazioni.Ledger.Append.{IsPrefixed}
use simulazione_transazioni.Ledger.Blocks.{add_i32_pos}
use simulazione_transazioni.Nodes.{ledger_balance, node_interrupt_handle}

module _ (my_pid : ℤ) where
  -- What the reward transaction of a block pays to this node.
  unfoldable pub own_reward : Block → ℤ
  own_reward b = elim b.trans_list [
    | [] ↦ pos 0
    | t ∷ _ ↦ if t.receiver ==ℤ my_pid then t.amount else pos 0
  ]

  -- What all blocks of a ledger pay to it.
  unfoldable pub earned : List Block → ℕ
  unfolding own_reward
  earned [] = 0
  earned (b ∷ bs) = pos_part (own_reward b) + earned bs

  abbrev pub Pays : Block → Type 0
  Pays b = neg_part (own_reward b) ≡ 0

  -- What a block with these transactions adds to the balance.
  credit : ℤ → List Transaction → ℤ
  credit balance ts = elim ts [
    | [] ↦ balance
    | t ∷ _ ↦ if t.receiver ==ℤ my_pid then add_i32 balance t.amount else balance
  ]

  credit_lem :
      (a i : ℕ) (ts : List Transaction)
      → Pays (record { trans_list = ts; block_index = i })
      → a + pos_part (own_reward (record { trans_list = ts; block_index = i })) < 2 ^ 31
      → credit (pos a) ts
        ≡ pos (a + pos_part (own_reward (record { trans_list = ts; block_index = i })))
  unfolding credit own_reward
  credit_lem a i [] pays small = ap pos (omega arith)
  credit_lem a i (t ∷ ts) pays small = elim (Bool-cases (t.receiver ==ℤ my_pid)) [
    | inl mine ↦
        rw (mine, credit, own_reward) (add_i32_pos a t.amount (rw mine at pays) (rw mine at small))
    | inr other ↦ rw (other, credit, own_reward) (ap pos (omega arith))
  ]

  -- A round of the loop of node_interrupt_handle adds what the block pays.
  ledger_balance-cons :
      (a : ℕ) (b : Block) (bs : List Block)
      → Pays b
      → a + pos_part (own_reward b) < 2 ^ 31
      → ledger_balance my_pid (pos a) (b ∷ bs)
        ≡ ledger_balance my_pid (pos (a + pos_part (own_reward b))) bs
  unfolding ledger_balance credit
  ledger_balance-cons a b bs pays small =
      ap (λ (x : ℤ). ledger_balance my_pid x bs)
        (credit_lem a b.block_index b.trans_list pays small)

  pub ledger_balance-earned :
      (a : ℕ) (l : List Block)
      → All Pays l
      → a + earned l < 2 ^ 31
      → ledger_balance my_pid (pos a) l ≡ pos (a + earned l)
  unfolding ledger_balance earned
  ledger_balance-earned a [] h small = ap pos (omega arith)
  ledger_balance-earned a (b ∷ l) h small =
      ledger_balance-cons a b l h.0 (omega arith)
      ∙ ledger_balance-earned (a + pos_part (own_reward b)) l h.1 (omega arith)
      ∙ ap pos (omega arith)

  -- A write to a free slot adds what the new block pays.
  pub earned-set :
      (l : List Block) (k : ℕ) (x b : Block)
      → get_elem? l k ≡ some b
      → own_reward b ≡ pos 0
      → earned (set l k x) ≡ earned l + pos_part (own_reward x)
  unfolding earned
  earned-set [] k x b e z = cc
  earned-set (y ∷ l) zero x b e z =
      let paid : pos_part (own_reward y) ≡ 0 = ground arith in omega arith
  earned-set (y ∷ l) (suc k) x b e z = omega (arith, earned-set l k x b e z)

-- A node whose balance is what the ledger pays to it, on a ledger whose free slots pay nothing.
pub record IsAccurate (par : Parameters) (my_pid : ℤ) (i : ℕ) (nodes : List Node) (l : List Block)
    : Type 0 where
  pub at : get_pid_node_index par my_pid nodes ≡ pos i
  pub node : Node
  pub got : get_elem? nodes i ≡ some node
  pub balanced : node.balance ≡ earned my_pid l
  pub small : earned my_pid l < 2 ^ 31
  pub pays : All (Pays my_pid) l
  pub free_pay_nothing : All (λ (b : Block). is_free b ≡ true → own_reward my_pid b ≡ pos 0) l
  pub size : length l ≡ so_registry_size
  pub prefixed : IsPrefixed l

module _ (par : Parameters) (my_pid : ℤ) (i : ℕ) (nodes : List Node) (l : List Block)
    (acc : IsAccurate par my_pid i nodes l) where
  -- The handler of SIGINT writes the balance that is there.
  pub node_interrupt_handle-same : node_interrupt_handle par my_pid l nodes ≡ some nodes
  unfolding node_interrupt_handle u64_of_ℤ
  node_interrupt_handle-same =
      let sum = ledger_balance-earned my_pid 0 l acc.pays (omega (arith, acc.small)) in
      rw (acc.at, sum)
        (update_at-some nodes i
            (λ (n : Node). record n { balance = u64_of_ℤ (pos (0 + earned my_pid l)) }) acc.got
          ∙ ap (λ (b : ℕ). some (set nodes i (record acc.node { balance = b })))
              {x = (0 + earned my_pid l) % 2 ^ 64} {y = acc.node.balance}
              (omega (arith, acc.balanced, acc.small))
          ∙ ap some (set-get_self nodes i acc.got))
