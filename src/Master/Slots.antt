-- ===== src/Master/Slots.antt =====
-- The slots of the shared array of nodes that spawn_node of src/master.c gives to extra nodes, and
-- what the process for the extra nodes announces.
use simulazione_transazioni.Prelude.{
  ℕ, suc, ◌*◌, ◌^◌, ◌≤◌, ◌<◌, ◌≡◌, ◌≢◌, ◌⊎◌, inl, inr, refl, ◌∙◌, List, none, some, length,
  get_elem?, set, arith, leb, ◌==◌, get_elem?-set_ne, Bool-cases,
}
use simulazione_transazioni.Prelude.Int.{ℤ, pos, negsuc, ◌==ℤ◌, ==ℤ_iff}
use simulazione_transazioni.Common.{Parameters, Node, error}
use simulazione_transazioni.Table.{update_at-some, get_elem?-some, get-set_self}
use simulazione_transazioni.Master.{
  Spawner, first_over, next_slot, record_node, spawn_node, reset_node, announced, after_spawn,
  serve_hopped,
}

next_slot_free :
    (par : Parameters) (over : ℕ)
    → over < par.so_nodes_num * 2
    → par.so_nodes_num * 2 < 2 ^ 32
    → next_slot par (negsuc 0) over ≡ some (pos over, suc over)
unfolding next_slot
next_slot_free par over lt small = ground arith

next_slot_full :
    (par : Parameters) (n_counter : ℤ) (over : ℕ)
    → par.so_nodes_num * 2 ≤ over
    → par.so_nodes_num * 2 < 2 ^ 32
    → next_slot par n_counter over ≡ none
unfolding next_slot
next_slot_full par n_counter over le small = ground arith

record_node_lem :
    (node_pid : ℤ) (j over : ℕ) (nodes : List Node) (n : Node)
    → node_pid ≢ negsuc 0
    → get_elem? nodes j ≡ some n
    → record_node node_pid (pos j) over nodes
      ≡ some
          (node_pid, record { over_buf = over; nodes = set nodes j (record n { pid = node_pid }) })
unfolding record_node
record_node_lem node_pid j over nodes n ne at = elim (Bool-cases (node_pid ==ℤ negsuc 0)) [
  | inl same ↦ absurd (ne ((==ℤ_iff node_pid (negsuc 0)).0 same))
  | inr other ↦
      rw (other, update_at-some nodes j (λ (w : Node). record w { pid = node_pid }) at) refl
]

module _ (par : Parameters) (node_pid : ℤ) (s : Spawner) where
  -- An extra node in slot `over`, where node `n` stood.
  abbrev pub placed : ℕ → Node → Spawner
  placed over n = record {
    over_buf = suc over;
    nodes = set s.nodes over (record n { pid = node_pid });
  }

  first_over_low :
      (s.over_buf ≡ 0) ⊎ (par.so_nodes_num ≤ s.over_buf)
      → par.so_nodes_num ≤ first_over par s.over_buf
  unfolding first_over
  first_over_low (inl e) = ground arith
  first_over_low (inr h) = ground arith

  spawn_node-placed :
      (over : ℕ) (n : Node)
      → node_pid ≢ negsuc 0
      → first_over par s.over_buf ≡ over
      → over < par.so_nodes_num * 2
      → par.so_nodes_num * 2 < 2 ^ 32
      → get_elem? s.nodes over ≡ some n
      → spawn_node par node_pid (negsuc 0) s ≡ some (node_pid, placed over n)
  unfolding spawn_node
  spawn_node-placed over n ne first lt small at =
      rw (spawn_node, first, next_slot_free par over lt small)
        (record_node_lem node_pid over (suc over) s.nodes n ne at)

  -- The slot that the counter gives: SO_NODES_NUM at first, and then the counter.
  abbrev pub IsNext : ℕ → Type 0
  IsNext over =
      ((s.over_buf ≡ 0) × (over ≡ par.so_nodes_num)) ⊎ ((s.over_buf ≢ 0) × (over ≡ s.over_buf))

  abbrev pub IsFull : ℕ → Type 0
  IsFull over =
      (par.so_nodes_num * 2 ≤ over)
      × (spawn_node par node_pid (negsuc 0) s ≡ some (error, record s { over_buf = over }))

  abbrev pub IsPlaced : ℕ → Type 0
  IsPlaced over =
      (n : Node) × (par.so_nodes_num ≤ over)
      × (over < par.so_nodes_num * 2)
      × (get_elem? s.nodes over ≡ some n)
      × (spawn_node par node_pid (negsuc 0) s ≡ some (node_pid, placed over n))

  first_over-IsNext : IsNext (first_over par s.over_buf)
  unfolding first_over
  first_over-IsNext = elim (Bool-cases (s.over_buf == 0)) [
    | inl fresh ↦ inl (ground arith, rw fresh refl)
    | inr counted ↦ inr (ground arith, rw counted refl)
  ]

  -- For an array of twice SO_NODES_NUM entries, fewer than 2 ^ 32, and a counter of slots that is
  -- still 0 or at least SO_NODES_NUM, the next slot is SO_NODES_NUM if the counter is 0, and else the
  -- counter. If that is a slot of the array, an extra node whose fork succeeded gets it, in the second
  -- half of the array: only its pid is written, and the counter moves on to the slot behind. If it is
  -- not, all slots were given, and spawn_node returns ERROR and changes no node.
  pub spawn_node_lem :
      node_pid ≢ negsuc 0
      → (s.over_buf ≡ 0) ⊎ (par.so_nodes_num ≤ s.over_buf)
      → par.so_nodes_num * 2 < 2 ^ 32
      → length s.nodes ≡ par.so_nodes_num * 2
      → (over : ℕ) × IsNext over × (IsPlaced over ⊎ IsFull over)
  unfolding spawn_node
  spawn_node_lem ne ok small long =
      let over = first_over par s.over_buf in
      let low : par.so_nodes_num ≤ over = first_over_low ok in
      (
        over,
        first_over-IsNext,
        elim (Bool-cases (leb (par.so_nodes_num * 2) over)) [
          | inl done ↦ inr (
            ground arith,
            rw (spawn_node, next_slot_full par (negsuc 0) over (ground arith) small) refl,
          )
          | inr left ↦
              let lt : over < par.so_nodes_num * 2 = ground arith in
              let (n, at) = get_elem?-some s.nodes over (omega arith) in
              inl (n, low, lt, at, spawn_node-placed over n ne refl lt small at)
        ],
      )

  first_over_kept : (over : ℕ) → over ≢ 0 → s.over_buf ≡ over → first_over par s.over_buf ≡ over
  unfolding first_over
  first_over_kept over ne e = ground arith

after_spawn_lem :
    (pid : ℤ) (i : ℕ) (s : Spawner) (n : Node)
    → pid ≢ negsuc 0
    → get_elem? s.nodes i ≡ some n
    → after_spawn i (some (pid, s)) ≡ some (announced pid n.pid s)
unfolding after_spawn
after_spawn_lem pid i s n ne at = elim (Bool-cases (pid ==ℤ negsuc 0)) [
  | inl same ↦ absurd (ne ((==ℤ_iff pid (negsuc 0)).0 same))
  | inr other ↦ rw (other, at) refl
]

module _ (par : Parameters) (node_pid : ℤ) (s : Spawner) where
  -- When an extra node is not the first one, its fork succeeded and the array has room for it, the
  -- process for the extra nodes writes its pid to its slot, but it announces as the new friend the
  -- pid of the first extra node, whose balance it clears.
  pub serve_hopped_lem :
      (over : ℕ) (m n : Node)
      → node_pid ≢ negsuc 0
      → s.over_buf ≡ over
      → par.so_nodes_num < over
      → over < par.so_nodes_num * 2
      → par.so_nodes_num * 2 < 2 ^ 32
      → get_elem? s.nodes par.so_nodes_num ≡ some m
      → get_elem? s.nodes over ≡ some n
      → serve_hopped par node_pid par.so_nodes_num s
        ≡ some (
            announced node_pid m.pid (record {
              over_buf = suc over;
              nodes =
                  set
                    (set s.nodes par.so_nodes_num (reset_node m))
                    over
                    (record n { pid = node_pid });
            }))
  unfolding serve_hopped reset_node
  serve_hopped_lem over m n ne e above lt small first at =
      let nodes = set s.nodes par.so_nodes_num (reset_node m) in
      let cleared : Spawner = record s { nodes = nodes } in
      let first' = first_over_kept par node_pid s over (λ z. omega arith) e in
      let at' : get_elem? nodes over ≡ some n =
        get_elem?-set_ne s.nodes (reset_node m) (λ z. omega arith) ∙ at in
      let still : get_elem? (set nodes over (record n { pid = node_pid })) par.so_nodes_num
          ≡ some (reset_node m) =
        get_elem?-set_ne nodes (record n { pid = node_pid }) (λ z. omega arith)
        ∙ get-set_self s.nodes par.so_nodes_num (reset_node m) first in
      rw
        (
          serve_hopped,
          update_at-some s.nodes par.so_nodes_num reset_node first,
          spawn_node-placed par node_pid cleared over n ne first' lt small at',
        )
        (after_spawn_lem node_pid par.so_nodes_num (placed par node_pid cleared over n)
          (reset_node m) ne still)
