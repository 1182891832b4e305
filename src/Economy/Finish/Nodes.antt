-- ===== src/Economy/Finish/Nodes.antt =====
-- What the handlers of SIGINT of all nodes of src/nodes.c leave in the shared array.
use simulazione_transazioni.Prelude.{
  ◌*◌, ◌≤◌, ◌≡◌, refl, sym, ap, ◌∙◌, ◌⊎◌, List, [], ◌∷◌, map, some, arith, inr, All, length,
  length-set, set,
}
use simulazione_transazioni.Prelude.Int.{ℤ, pos}
use simulazione_transazioni.Prelude.Words.{u32, u64_of_ℤ}
use simulazione_transazioni.Common.{Parameters, Node, Block}
use simulazione_transazioni.Table.{update_at-some}
use simulazione_transazioni.Ledger.{get_pid_node_index}
use simulazione_transazioni.Ledger.Blocks.{get_pid_node_index-some}
use simulazione_transazioni.Nodes.{ledger_balance, node_interrupt_handle}
use simulazione_transazioni.Economy.{Once}
use simulazione_transazioni.Economy.Finish.{
  finish_nodes, IsAmong, Awaits, Writes, Writes-Awaits, Awaits-empty,
}
use simulazione_transazioni.Economy.Finish.Users.{index_loop-found}

module _ (par : Parameters) (l : List Block) where
  -- A slot of no node, or of a node whose balance is that on the ledger.
  abbrev pub HasEarned : Node → Type 0
  HasEarned n = (n.pid ≡ pos 0) ⊎ (n.balance ≡ u64_of_ℤ (ledger_balance n.pid (pos 0) l))

  node_interrupt_handle-Writes :
      (p : ℤ) (nodes : List Node)
      → length nodes ≤ u32 (par.so_nodes_num * 2)
      → IsAmong (map (λ (n : Node). n.pid) nodes) p
      → (nodes' : List Node) × (node_interrupt_handle par p l nodes ≡ some nodes')
        × Writes (λ (n : Node). n.pid) HasEarned p nodes nodes'
  unfolding node_interrupt_handle get_pid_node_index
  node_interrupt_handle-Writes p nodes size there =
      let f = λ (n : Node). record n { balance = u64_of_ℤ (ledger_balance p (pos 0) l) } in
      let (i, at) =
        index_loop-found (λ (n : Node). n.pid) (u32 (par.so_nodes_num * 2)) 0 p nodes size there in
      let (n, got, is) = get_pid_node_index-some par p nodes i at in
      (
        set nodes i (f n),
        rw (at, node_interrupt_handle) (update_at-some nodes i f got),
        record {
          index = i;
          old = n;
          new = f n;
          got = got;
          was = is;
          is = is;
          good = inr (λ j. u64_of_ℤ (ledger_balance (sym is j) (pos 0) l));
          result = refl;
        },
      )

  -- Every node of the array runs its handler, and its pid stands there once.
  pub finish_nodes-HasEarned :
      (ps : List ℤ) (nodes : List Node)
      → length nodes ≤ u32 (par.so_nodes_num * 2)
      → All (Once (map (λ (n : Node). n.pid) nodes)) ps
      → All (Awaits (λ (n : Node). n.pid) HasEarned ps) nodes
      → (nodes' : List Node) × (finish_nodes par l ps nodes ≡ some nodes')
        × All HasEarned nodes'
        × (map (λ (n : Node). n.pid) nodes' ≡ map (λ (n : Node). n.pid) nodes)
        × (length nodes' ≡ length nodes)
  unfolding finish_nodes
  finish_nodes-HasEarned [] nodes size once awaits =
      (nodes, refl, Awaits-empty (λ (n : Node). n.pid) HasEarned nodes awaits, refl, refl)
  finish_nodes-HasEarned (p ∷ ps) nodes size once awaits =
      let (nodes', done, writes) =
        node_interrupt_handle-Writes p nodes size (λ z. omega (arith, once.0)) in
      let (left, same) =
        Writes-Awaits (λ (n : Node). n.pid) HasEarned p ps nodes nodes' writes once.0 awaits in
      let count : length nodes' ≡ length nodes =
        ap (λ (xs : List Node). length xs) writes.result
        ∙ length-set nodes writes.index writes.new in
      let (nodes'', rest, earned_all, same', count') =
        finish_nodes-HasEarned ps nodes' (rw count size) (rw same once.1) left in
      (nodes'', rw (finish_nodes, done) rest, earned_all, same' ∙ same, count' ∙ count)
