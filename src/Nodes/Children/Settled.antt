-- ===== src/Nodes/Children/Settled.antt =====
-- The blocks that the children of a node of src/nodes.c create, one child after another, and the
-- balance that node_interrupt_handle reads off the ledger.
use simulazione_transazioni.Prelude.{
  ℕ, ◌+◌, ◌≤◌, ◌<◌, ◌^◌, ◌≡◌, refl, ◌∙◌, ap, sym, List, [], ◌∷◌, ◌++◌, Option, none, some, length,
  length-append, All, arith,
}
use simulazione_transazioni.Prelude.Int.{ℤ}
use simulazione_transazioni.Common.{Parameters, Block, Node, so_registry_size}
use simulazione_transazioni.Ledger.Append.{written}
use simulazione_transazioni.Ledger.Blocks.{total_reward}
use mathlib.Core.List.{append-nil, append_assoc}
use simulazione_transazioni.Nodes.Earned.{earned, IsAccurate, node_interrupt_handle-same}
use simulazione_transazioni.Nodes.{create_block, node_interrupt_handle}
use simulazione_transazioni.Nodes.Children.{Child, IsWhole, block_of, create_block-Creates}

module _ (par : Parameters) (my_pid : ℤ) (i : ℕ) where
  -- The children of a node, each run to its end before the next. `none`: a slot is not found.
  unfoldable pub create_blocks :
      List Child → List Node → List Block → Option (List Node × List Block)
  unfolding create_block
  create_blocks [] nodes l = some (nodes, l)
  create_blocks (c ∷ cs) nodes l =
      elim (create_block par my_pid c.now c.raw_index c.buffer nodes l) [
        | none ↦ none
        | some (nodes', full) ↦ elim full [ none ↦ none | some l' ↦ create_blocks cs nodes' l' ]
      ]

  -- Their blocks, from slot `k` on.
  abbrev pub blocks_from : ℕ → List Child → List Block
  blocks_from k [] = []
  blocks_from k (c ∷ cs) = block_of my_pid k c ∷ blocks_from (k + 1) cs

  abbrev pub rewards_of : List Child → ℕ
  rewards_of [] = 0
  rewards_of (c ∷ cs) = total_reward c.buffer + rewards_of cs

  abbrev CreatesAll : List Child → List Node → List Block → Type 0
  CreatesAll cs nodes l =
      (nodes' : List Node) × (l' : List Block) × (create_blocks cs nodes l ≡ some (nodes', l'))
      × IsAccurate par my_pid i nodes' l'
      × (written l' ≡ written l ++ blocks_from (length (written l)) cs)

  create_blocks-CreatesAll :
      (cs : List Child) (nodes : List Node) (l : List Block)
      → IsAccurate par my_pid i nodes l
      → All (λ (c : Child). IsWhole c.buffer) cs
      → length (written l) + length cs ≤ so_registry_size
      → earned my_pid l + rewards_of cs < 2 ^ 31
      → CreatesAll cs nodes l
  unfolding create_blocks
  create_blocks-CreatesAll [] nodes l acc whole room fits =
      (nodes, l, refl, acc, sym (append-nil (written l)))
  create_blocks-CreatesAll (c ∷ cs) nodes l acc whole room fits =
      let (nodes₁, l₁, one, acc₁, more, grown) =
        create_block-Creates par my_pid i c nodes l acc whole.0 (omega arith) (omega arith) in
      let count : length (written l₁) ≡ length (written l) + 1 =
        ap (λ (bs : List Block). length bs) more
        ∙ length-append (written l) (block_of my_pid (length (written l)) c ∷ []) in
      let (nodes₂, l₂, others, acc₂, all) =
        create_blocks-CreatesAll cs nodes₁ l₁ acc₁ whole.1 (omega (arith, count))
          (omega (arith, grown)) in
      (
        nodes₂,
        l₂,
        rw (create_blocks, one) others,
        acc₂,
        all
            ∙ rw (more, length-append (written l) (block_of my_pid (length (written l)) c ∷ []))
                (append_assoc (written l) (block_of my_pid (length (written l)) c ∷ [])
                  (blocks_from (length (written l) + 1) cs)),
      )

  -- What the children come to, and the handler of SIGINT after them.
  abbrev pub Settles : List Child → List Node → List Block → Type 0
  Settles cs nodes l =
      (nodes' : List Node) × (l' : List Block) × (create_blocks cs nodes l ≡ some (nodes', l'))
      × (written l' ≡ written l ++ blocks_from (length (written l)) cs)
      × (node_interrupt_handle par my_pid l' nodes' ≡ some nodes')

  -- For a node whose balance is what the ledger pays to it, on a ledger of the size of the registry
  -- that has its written slots in front, whose reward transactions to the node are not negative, sum
  -- up to less than 2 ^ 31, and do not stand in free slots: when children with nine transactions
  -- each, from senders other than 0 and with no negative reward, run one after the other, with a
  -- slot for each and the sum still below 2 ^ 31, their blocks stand behind the written ones, in
  -- order, confirmed, each numbered by its slot and headed by its reward. The handler of SIGINT,
  -- which sums the ledger up anew, then leaves the array of nodes as the children's own additions to
  -- the balance have made it.
  pub node_interrupt_handle-same_after :
      (cs : List Child) (nodes : List Node) (l : List Block)
      → IsAccurate par my_pid i nodes l
      → All (λ (c : Child). IsWhole c.buffer) cs
      → length (written l) + length cs ≤ so_registry_size
      → earned my_pid l + rewards_of cs < 2 ^ 31
      → Settles cs nodes l
  node_interrupt_handle-same_after cs nodes l acc whole room fits =
      let (nodes', l', all, acc', appended) =
        create_blocks-CreatesAll cs nodes l acc whole room fits in
      (nodes', l', all, appended, node_interrupt_handle-same par my_pid i nodes' l' acc')
