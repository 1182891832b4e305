-- ===== src/Nodes/Pooling.antt =====
-- The round of the main loop of src/nodes.c: the pool before and after it, and the block.
use simulazione_transazioni.Prelude.{
  ℕ, zero, suc, ◌-◌, ◌≤◌, ◌<◌, ◌^◌, ◌≡◌, ◌⊎◌, inl, inr, refl, ap, List, [], ◌∷◌, map, Option, none,
  some, leb, length, take, take_all, drop, drop_all, arith, Bool-cases,
}
use simulazione_transazioni.Prelude.Int.{ℤ}
use simulazione_transazioni.Prelude.Words.{sub_u32}
use simulazione_transazioni.Common.{Parameters, Transaction, MsgbufTrans, so_block_size}
use simulazione_transazioni.Nodes.{
  NodeState, Hop, Answers, Fetched, fetch_messages, fill_loop, fill_block_trans_list, process,
  node_round,
}
use simulazione_transazioni.Nodes.Growth.{IsSmall, fetch_messages-Grows}

-- The state with another pool, counted.
abbrev pub with_pool : NodeState → List MsgbufTrans → ℕ → NodeState
with_pool s pool n = record s { trans_pool = pool; size = n }

abbrev pub transactions : List MsgbufTrans → List Transaction
transactions pool = map (λ (m : MsgbufTrans). m.user_trans) pool

fill_loop_lem :
    (s : NodeState) (k : ℕ) (pool : List MsgbufTrans) (n : ℕ)
    → k ≤ length pool
    → n ≡ length pool
    → n < 2 ^ 32
    → fill_loop k (with_pool s pool n)
      ≡ some (transactions (take k pool), with_pool s (drop k pool) (length (drop k pool)))
unfolding fill_loop
fill_loop_lem s zero pool n h e small = λ j. some ([], with_pool s pool (e j))
fill_loop_lem s (suc k) [] n h e small = elim h [ ]
fill_loop_lem s (suc k) (m ∷ rest) n h e small =
    rw (fill_loop, fill_loop_lem s k rest (sub_u32 n 1) (omega arith) (omega arith) (omega arith))
      refl

-- At the end of a round: the pool goes on when it holds less than a block, and else a block takes its oldest messages.
module _ (s : NodeState) where
  abbrev pub taken : NodeState
  taken =
      with_pool s (drop (so_block_size - 1) s.trans_pool)
        (length (drop (so_block_size - 1) s.trans_pool))

  abbrev pub Processed : Type 0
  Processed =
      ((length s.trans_pool < so_block_size - 1) × (process s ≡ some (none, s)))
      ⊎ ((so_block_size - 1 ≤ length s.trans_pool)
          × (process s ≡ some (some (transactions (take (so_block_size - 1) s.trans_pool)), taken)))

  process_lem : s.size ≡ length s.trans_pool → s.size < 2 ^ 32 → Processed
  unfolding process fill_block_trans_list
  process_lem e small = elim (Bool-cases (leb (so_block_size - 1) s.size)) [
    | inl enough ↦ inr (
      ground arith,
      rw (enough, fill_loop_lem s (so_block_size - 1) s.trans_pool s.size (ground arith) e small)
          refl,
    )
    | inr few ↦ inl (ground arith, rw few refl)
  ]

module _ (answers : Answers) (par : Parameters) (queue_id : ℤ) (s : NodeState) where
  -- What a round leaves when the pool held less than a block before it.
  abbrev pub Rounds : Fetched → ℕ → Type 0
  Rounds f draw =
      (hop : Hop) × (s₁ : NodeState) × (block : Option (List Transaction)) × (s₂ : NodeState)
      × (fetch_messages answers f par queue_id draw s ≡ some (hop, s₁))
      × (node_round answers f par queue_id draw s ≡ some (hop, block, s₂))
      × IsSmall s₂
      × (length s.friend_list ≤ length s₂.friend_list)
      × (((block ≡ none) × (s₂ ≡ s₁))
          ⊎ ((block ≡ some (transactions s₁.trans_pool))
              × (s₂.trans_pool ≡ [])
              × (s₂.friend_list ≡ s₁.friend_list)
              × (length s₁.trans_pool ≡ so_block_size - 1)))

module _ (answers : Answers) (par : Parameters) (queue_id : ℤ) (s : NodeState) (small : IsSmall s)
    (some_left : 0 < par.so_friends_num) (few : par.so_friends_num < 2 ^ 32)
    (long : par.so_friends_num ≤ length s.friend_list) where
  -- For a node with a friend, an entry in its list for each of the SO_FRIENDS_NUM friends, a right
  -- counter and fewer than nine messages in its pool: whatever it receives and whatever is refused,
  -- a round of the main loop ends with a right counter, fewer than nine messages and no fewer
  -- friends. Either no block is processed, and the state is the one that fetch_messages left, or
  -- fetch_messages left exactly nine messages, the block takes the transactions of all of them, in
  -- their order, and the friends stay.
  pub node_round-Rounds : (f : Fetched) (draw : ℕ) → Rounds answers par queue_id s f draw
  unfolding node_round
  node_round-Rounds f draw =
      let ((hop, s₁), is, (counted, bound, friends)) =
        fetch_messages-Grows answers par queue_id s small some_left few long f draw in
      elim (process_lem s₁ counted (omega (arith, small.less))) [
        | inl (less, p) ↦ (
          hop,
          s₁,
          none,
          s₁,
          is,
          rw (node_round, is, p) refl,
          record { counted = counted; less = less },
          friends,
          inl (refl, refl),
        )
        | inr (enough, p) ↦
            let full : length s₁.trans_pool ≡ so_block_size - 1 = omega (arith, small.less) in
            let none_left = drop_all (so_block_size - 1) s₁.trans_pool full in
            let all = take_all (so_block_size - 1) s₁.trans_pool full in
            (
              hop,
              s₁,
              some (transactions (take (so_block_size - 1) s₁.trans_pool)),
              taken s₁,
              is,
              rw (node_round, is, p) refl,
              record { counted = refl; less = rw none_left (omega arith) },
              friends,
              inr (
                ap (λ (pool : List MsgbufTrans). some (transactions pool)) all,
                none_left,
                refl,
                full,
              ),
            )
      ]
