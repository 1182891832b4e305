-- ===== src/Nodes/Children.antt =====
-- The block that a child of a node of src/nodes.c creates, and what it adds to the balance.
pub mod Settled
use simulazione_transazioni.Prelude.{
  ℕ, ◌+◌, ◌-◌, ◌≤◌, ◌<◌, ◌^◌, ◌%◌, ◌≡◌, ◌≢◌, inl, inr, refl, ◌∙◌, ap, sym, true, false, List, [],
  ◌∷◌, ◌++◌, map, Option, none, some, get_elem?, set, take_all, length, length-set, length-append,
  All, All-get_elem?, All-set, arith, Bool-cases,
}
use simulazione_transazioni.Prelude.Int.{ℤ, pos, pos_part, neg_part, ◌==ℤ◌, ==ℤ_iff, ==ℤ_refl}
use mathlib.Core.Bool.{false≢true}
use simulazione_transazioni.Common.{
  Parameters, Timespec, Transaction, Block, Node, so_block_size, so_registry_size,
}
use simulazione_transazioni.Table.{index_loop-set, get-set_self}
use simulazione_transazioni.Ledger.{
  is_free, confirm, confirm_block, new_block, get_pid_node_index, insert_block_in_ledger,
  reward_transaction,
}
use simulazione_transazioni.Ledger.Append.{
  written, written-next, written-set, IsPrefixed-set, insert_block_in_ledger-set, is_free-confirm,
}
use simulazione_transazioni.Ledger.Blocks.{total_reward, HaveRewards, taken, new_block-Rewards}
use mathlib.Core.List.{append-nil, append_assoc}
use simulazione_transazioni.Nodes.Earned.{
  own_reward, earned, Pays, earned-set, IsAccurate, node_interrupt_handle-same,
}
use simulazione_transazioni.Nodes.{create_block, node_interrupt_handle}

-- What a child starts with: the time, what malloc left in the index, and the nine transactions.
pub record Child : Type 0 where
  pub now : Timespec
  pub raw_index : ℕ
  pub buffer : List Transaction

-- Nine transactions that users sent.
pub record IsWhole (ts : List Transaction) : Type 0 where
  pub nine : length ts ≡ so_block_size - 1
  pub rewards : HaveRewards ts
  pub senders : All (λ (t : Transaction). t.sender ≢ pos 0) ts

-- The block that the child puts into slot `k`.
abbrev pub block_of : ℤ → ℕ → Child → Block
block_of my_pid k c = record {
  trans_list =
      map confirm (reward_transaction my_pid c.now (pos (total_reward c.buffer)) ∷ c.buffer);
  block_index = k;
}

module _ (par : Parameters) (my_pid : ℤ) (i : ℕ) where
  abbrev pub Creates : Child → List Node → List Block → Type 0
  Creates c nodes l =
      (nodes' : List Node) × (l' : List Block) × (create_block par my_pid c.now c.raw_index c.buffer
          nodes l
        ≡ some (nodes', some l'))
      × IsAccurate par my_pid i nodes' l'
      × (written l' ≡ written l ++ block_of my_pid (length (written l)) c ∷ [])
      × (earned my_pid l' ≡ earned my_pid l + total_reward c.buffer)

  module _ (c : Child) (nodes : List Node) (l : List Block) (acc : IsAccurate par my_pid i nodes l)
      (whole : IsWhole c.buffer) (room : length (written l) < so_registry_size)
      (fits : earned my_pid l + total_reward c.buffer < 2 ^ 31) where
    abbrev k : ℕ
    k = length (written l)

    abbrev b : Block
    b = block_of my_pid k c

    b_pays : own_reward my_pid b ≡ pos (total_reward c.buffer)
    unfolding own_reward
    b_pays = rw (==ℤ_refl my_pid)

    second_sent :
        (ts : List Transaction)
        → 0 < length ts
        → All (λ (t : Transaction). t.sender ≢ pos 0) ts
        → is_free (record {
          trans_list = reward_transaction my_pid c.now (pos (total_reward c.buffer)) ∷ ts;
          block_index = c.raw_index;
        })
          ≡ false
    unfolding is_free
    second_sent [] h sent = absurd (omega arith)
    second_sent (t ∷ ts) h sent = elim (Bool-cases (t.sender ==ℤ pos 0)) [
      | inl zero_sent ↦ absurd (sent.0 ((==ℤ_iff t.sender (pos 0)).0 zero_sent))
      | inr fine ↦ fine
    ]

    b_full : is_free b ≡ false
    unfolding confirm_block
    b_full = is_free-confirm _ k ∙ second_sent c.buffer (omega (arith, whole.nine)) whole.senders

    set-IsAccurate :
        (nodes' : List Node) (n : Node)
        → get_pid_node_index par my_pid nodes' ≡ pos i
        → get_elem? nodes' i ≡ some n
        → n.balance ≡ (acc.node.balance + total_reward c.buffer) % 2 ^ 64
        → IsAccurate par my_pid i nodes' (set l k b)
          × (earned my_pid (set l k b) ≡ earned my_pid l + total_reward c.buffer)
    set-IsAccurate nodes' n at got is =
        let paid : pos_part (own_reward my_pid b) ≡ total_reward c.buffer = ap pos_part b_pays in
        let (free, was, is_free_there) = written-next l (omega (arith, acc.size)) in
        let nothing =
          All-get_elem? (λ (x : Block). is_free x ≡ true → own_reward my_pid x ≡ pos 0) l k
            acc.free_pay_nothing was is_free_there in
        let grown : earned my_pid (set l k b) ≡ earned my_pid l + total_reward c.buffer =
          earned-set my_pid l k b free was nothing ∙ ap (◌+◌ (earned my_pid l)) paid in
        (
          record {
            at = at;
            node = n;
            got = got;
            balanced = omega (arith, is, grown, acc.balanced, fits);
            small = omega (arith, grown, fits);
            pays = All-set (Pays my_pid) l k b acc.pays (ap neg_part b_pays);
            free_pay_nothing =
                All-set (λ (x : Block). is_free x ≡ true → own_reward my_pid x ≡ pos 0) l k b
                  acc.free_pay_nothing (λ e. absurd (false≢true (sym b_full ∙ e)));
            size = length-set l k b ∙ acc.size;
            prefixed = IsPrefixed-set b b_full l acc.prefixed;
          },
          grown,
        )

    -- The node list after sum_reward has the node at the same place.
    index_stays :
        (n : Node) (balance : ℕ)
        → get_elem? nodes i ≡ some n
        → get_pid_node_index par my_pid (set nodes i (record n { balance = balance })) ≡ pos i
    unfolding get_pid_node_index
    index_stays n balance got =
        index_loop-set (λ (x : Node). x.pid) _ 0 my_pid nodes i (record n { balance = balance }) got
          refl
        ∙ acc.at

    confirmed_lem :
        (nb : Block)
        → nb.trans_list ≡ reward_transaction my_pid c.now (pos (total_reward c.buffer)) ∷ c.buffer
        → confirm_block (record nb { block_index = k }) ≡ b
    unfolding confirm_block
    confirmed_lem nb e =
        ap
          (λ (ts : List Transaction).
            let x : Block = record { trans_list = map confirm ts; block_index = k } in x)
          e

    pub create_block-Creates : Creates c nodes l
    unfolding create_block
    create_block-Creates =
        let all : taken par my_pid c.now c.raw_index nodes c.buffer ≡ c.buffer =
          take_all (so_block_size - 1) c.buffer whole.nine in
        let (n, nb, got, is, made, listed, _) =
          new_block-Rewards par my_pid c.now c.raw_index nodes c.buffer i acc.at
            (omega (arith, whole.nine)) (rw all whole.rewards) (rw all (omega (arith, fits))) in
        let balance = (n.balance + total_reward c.buffer) % 2 ^ 64 in
        let nodes' = set nodes i (record n { balance = balance }) in
        let same : n ≡ acc.node = cc in
        let made' : new_block par my_pid c.now c.raw_index nodes c.buffer ≡ some (nodes', nb) =
          rw all at made in
        let (accurate, grown) =
          set-IsAccurate nodes' (record n { balance = balance }) (index_stays n balance got)
            (get-set_self nodes i (record n { balance = balance }) got)
            (ap (λ (x : Node). (x.balance + total_reward c.buffer) % 2 ^ 64) same) in
        let inserted : insert_block_in_ledger nb l ≡ some (set l k b) =
          insert_block_in_ledger-set nb l acc.size room
          ∙ ap (λ (x : Block). some (set l k x)) (confirmed_lem nb (rw all at listed)) in
        (
          nodes',
          set l k b,
          rw (create_block, made', inserted) refl,
          accurate,
          written-set b b_full l acc.prefixed (omega (arith, acc.size)),
          grown,
        )
