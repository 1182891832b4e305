-- ===== src/Nodes/Run.antt =====
-- The `while (1)` of main of src/nodes.c, for as many rounds as the kernel answers.
use simulazione_transazioni.Prelude.{
  ℕ, ◌+◌, ◌-◌, ◌≤◌, ◌<◌, ◌^◌, ◌≡◌, ◌≢◌, ◌⊎◌, inl, inr, refl, sym, ◌∙◌, Bool, List, [], ◌∷◌, ◌++◌,
  Option, none, some, length, length-map, All, count_if, count_if-append, concat, arith,
}
use simulazione_transazioni.Prelude.Int.{ℤ, pos}
use simulazione_transazioni.Common.{Parameters, MsgbufTrans, Transaction, so_block_size}
use mathlib.Core.Path.{subst}
use simulazione_transazioni.Nodes.{NodeState, Hop, stopped, Answers, Fetched, node_round}
use simulazione_transazioni.Nodes.Growth.{IsSmall}
use simulazione_transazioni.Nodes.Pooling.{transactions, node_round-Rounds}
use simulazione_transazioni.Nodes.Flow.{away, accepted, AllSet, Keeps, fetch_messages-Keeps}

-- What the kernel answers in a round, and what `rand` gives.
pub record Event : Type 0 where
  pub answers : Answers
  pub fetched : Fetched
  pub draw : ℕ

-- What a run did: where each message went that left the pool, the buffers of the blocks, the state.
pub record Ran : Type 0 where
  pub gone : List Hop
  pub blocks : List (List Transaction)
  pub final : NodeState

abbrev pub block_of : Option (List Transaction) → List (List Transaction)
block_of none = []
block_of (some ts) = ts ∷ []

abbrev then_ran : Hop → Option (List Transaction) → Ran → Ran
then_ran hop block r = record r { gone = hop ∷ r.gone; blocks = block_of block ++ r.blocks }

unfoldable pub node_rounds : Parameters → ℤ → List Event → NodeState → Option Ran
unfolding node_round
node_rounds par queue_id [] s = some (record { gone = []; blocks = []; final = s })
node_rounds par queue_id (e ∷ later) s =
    elim (node_round e.answers e.fetched par queue_id e.draw s) [
      | none ↦ none
      | some (hop, block, s') ↦ elim (node_rounds par queue_id later s') [
        | none ↦ none
        | some r ↦ some (then_ran hop block r)
      ]
    ]

-- The transactions that the rounds took from the queue.
unfoldable pub accepted_in : Parameters → ℤ → List Event → NodeState → List Transaction
unfolding node_round
accepted_in par queue_id [] s = []
accepted_in par queue_id (e ∷ later) s =
    elim (node_round e.answers e.fetched par queue_id e.draw s) [
      | none ↦ []
      | some (_, _, s') ↦ accepted par s e.fetched ++ accepted_in par queue_id later s'
    ]

-- A node that has started: its counter is right, it holds less than a block, and it has its friends.
pub record IsReady (par : Parameters) (s : NodeState) : Type 0 where
  pub small : IsSmall s
  pub long : par.so_friends_num ≤ length s.friend_list
  pub known : AllSet s.friend_list

abbrev pub given_away : List Hop → List Transaction
given_away [] = []
given_away (h ∷ hs) = away h ++ given_away hs

abbrev AllFull : List (List Transaction) → Type 0
AllFull = All (λ (ts : List Transaction). length ts ≡ so_block_size - 1)

-- What a run from `s` comes to.
abbrev pub Runs : Parameters → ℤ → List Event → NodeState → Type 0
Runs par queue_id es s =
    (r : Ran) × (node_rounds par queue_id es s ≡ some r)
    × IsReady par r.final
    × All (λ (h : Hop). h ≢ stopped) r.gone
    × All (λ (ts : List Transaction). length ts ≡ so_block_size - 1) r.blocks
    × ((p : Transaction → Bool)
        → count_if p (transactions s.trans_pool) + count_if p (accepted_in par queue_id es s)
          ≡ count_if p (given_away r.gone)
            + count_if p (concat r.blocks)
            + count_if p (transactions r.final.trans_pool))

-- The end of a round: the pool is split between the block and the pool that is left.
block_lem :
    (s₁ : NodeState) (block : Option (List Transaction)) (s₂ : NodeState)
    → ((block ≡ none) × (s₂ ≡ s₁))
      ⊎ ((block ≡ some (transactions s₁.trans_pool))
          × (s₂.trans_pool ≡ [])
          × (s₂.friend_list ≡ s₁.friend_list)
          × (length s₁.trans_pool ≡ so_block_size - 1))
    → AllFull (block_of block)
      × (s₂.friend_list ≡ s₁.friend_list)
      × ((p : Transaction → Bool)
          → count_if p (transactions s₁.trans_pool)
            ≡ count_if p (concat (block_of block)) + count_if p (transactions s₂.trans_pool))
block_lem s₁ block s₂ (inl (no_block, same)) = rw (no_block, same) (tt, refl, λ p. omega arith)
block_lem s₁ block s₂ (inr (all, empty, stay, full)) =
    rw (all, empty)
      (
        (length-map s₁.trans_pool (λ (m : MsgbufTrans). m.user_trans) ∙ full, tt),
        stay,
        λ p. omega (arith, count_if-append p (transactions s₁.trans_pool) []),
      )

module _ (par : Parameters) (queue_id : ℤ) where
  -- What a round from `s` comes to.
  abbrev RoundKeeps : Event → NodeState → Type 0
  RoundKeeps e s =
      (hop : Hop) × (block : Option (List Transaction)) × (s' : NodeState) × (node_round e.answers
          e.fetched par queue_id e.draw s
        ≡ some (hop, block, s'))
      × IsReady par s'
      × (hop ≢ stopped)
      × AllFull (block_of block)
      × ((p : Transaction → Bool)
          → count_if p (transactions s.trans_pool) + count_if p (accepted par s e.fetched)
            ≡ count_if p (away hop)
              + count_if p (concat (block_of block))
              + count_if p (transactions s'.trans_pool))

  module _ (some_left : 0 < par.so_friends_num) (few : par.so_friends_num < 2 ^ 32) where
    node_round-Keeps :
        (e : Event) (s : NodeState)
        → IsReady par s
        → e.fetched.friend_received.friend ≢ pos 0
        → RoundKeeps e s
    node_round-Keeps e s ready known =
        let (hop, s₁, block, s₂, fetch, round, small, longer, ends) =
          node_round-Rounds e.answers par queue_id s ready.small some_left few ready.long e.fetched
            e.draw in
        let (r, fetch', keeps) =
          fetch_messages-Keeps e.answers par queue_id s ready.known some_left few ready.long
            e.fetched e.draw known in
        let (set, runs, counts) =
          subst (Keeps s (accepted par s e.fetched)) {x = r} {y = (hop, s₁)} (cc) keeps in
        let (full, stay, splits) = block_lem s₁ block s₂ ends in
        (
          hop,
          block,
          s₂,
          round,
          record {
            small = small;
            long = omega (arith, ready.long, longer);
            known = subst AllSet (sym stay) set;
          },
          runs,
          full,
          λ p. omega (arith, counts p, splits p),
        )

    AllFull-append :
        (block : Option (List Transaction)) (blocks : List (List Transaction))
        → AllFull (block_of block)
        → AllFull blocks
        → AllFull (block_of block ++ blocks)
    AllFull-append none blocks h k = k
    AllFull-append (some ts) blocks h k = (h.0, k)

    concat-block :
        (p : Transaction → Bool) (block : Option (List Transaction))
        (blocks : List (List Transaction))
        → count_if p (concat (block_of block ++ blocks))
          ≡ count_if p (concat (block_of block)) + count_if p (concat blocks)
    concat-block p none blocks = omega arith
    concat-block p (some ts) blocks =
        omega (arith, count_if-append p ts (concat blocks), count_if-append p ts [])

    -- For a node that has friends to draw from, whose counter is right, which holds less than a block,
    -- and whose list has an entry for each of the SO_FRIENDS_NUM friends, none of them 0, and that
    -- receives no friend 0: whatever else the kernel answers, main goes through any number of rounds
    -- without a fault or SIGINT and comes to such a state again, and each block takes nine
    -- transactions. Of the transactions that pass any given test, those in the pool at the start and
    -- those taken from the queue are as many as those sent away or discarded, those put into blocks
    -- and those in the pool at the end.
    pub node_rounds-Runs :
        (es : List Event) (s : NodeState)
        → IsReady par s
        → All (λ (e : Event). e.fetched.friend_received.friend ≢ pos 0) es
        → Runs par queue_id es s
    unfolding node_rounds accepted_in
    node_rounds-Runs [] s ready known =
        (record { gone = []; blocks = []; final = s }, refl, ready, tt, tt, λ p. omega arith)
    node_rounds-Runs (e ∷ later) s ready known =
        let (hop, block, s', round, ready', runs, full, counts) =
          node_round-Keeps e s ready known.0 in
        let (r, rest, final, all_run, all_full, all_count) =
          node_rounds-Runs later s' ready' known.1 in
        (
          then_ran hop block r,
          rw (node_rounds, round, rest) refl,
          final,
          (runs, all_run),
          AllFull-append block r.blocks full all_full,
          λ p.
              rw (accepted_in, round)
                (omega (
                  arith,
                  counts p,
                  all_count p,
                  count_if-append p (accepted par s e.fetched) (accepted_in par queue_id later s'),
                  count_if-append p (away hop) (given_away r.gone),
                  concat-block p block r.blocks,
                )),
        )
