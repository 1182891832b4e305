-- ===== src/Print/Report.antt =====
-- What print_user_nodes_table and print_ledger of src/print.c print. The sum `finalBalance` is a
-- `float` for a trace and is left out.
use simulazione_transazioni.Prelude.{
  ℕ, zero, suc, ◌*◌, ◌==◌, List, [], ◌∷◌, Option, none, some, if◌then◌else◌, get_elem?, take,
}
use simulazione_transazioni.Prelude.Int.{ℤ, pos, ◌==ℤ◌}
use simulazione_transazioni.Prelude.Words.{u32}
use simulazione_transazioni.Common.{
  Parameters, User, UserStatus, Node, NodeStatus, Block, so_registry_size,
}

-- The lines of the table.
pub data Row : Type 0 where
  user_row : ℤ → UserStatus → ℕ → Row
  node_row : ℤ → NodeStatus → ℕ → ℤ → Row

-- The loop over the users, from the last to the first. `none`: there are fewer.
unfoldable pub user_rows : ℕ → List User → Option (List Row)
user_rows zero users = some []
user_rows (suc user_num) users = elim (get_elem? users user_num) [
  | none ↦ none
  | some u ↦ elim (user_rows user_num users) [
    | none ↦ none
    | some rows ↦ some (user_row u.pid u.status u.balance ∷ rows)
  ]
]

-- The loop over the slots of nodes, up to the first that has no node.
unfoldable pub node_rows : List Node → List Row
node_rows [] = []
node_rows (n ∷ ns) =
    let rows = node_rows ns in
    if n.pid ==ℤ pos 0 then [] else node_row n.pid n.status n.balance n.tp_size ∷ rows

unfoldable pub print_user_nodes_table :
    Parameters → List User → List Node → Option (List Row × List Row)
unfolding user_rows node_rows
print_user_nodes_table par users nodes = elim (user_rows par.so_user_num users) [
  | none ↦ none
  | some rows ↦ some (rows, node_rows (take (u32 (par.so_nodes_num * 2)) nodes))
]

-- `flag` of print_ledger, the nanoseconds of the first transaction.
unfoldable pub print_flag : Block → ℕ
print_flag b = elim b.trans_list [ [] ↦ 0 | t ∷ _ ↦ t.timestamp.tv_nsec ]

unfoldable pub printed_blocks : List Block → List Block
unfolding print_flag
printed_blocks [] = []
printed_blocks (b ∷ bs) = let rest = printed_blocks bs in if print_flag b == 0 then [] else b ∷ rest

-- The blocks that print_ledger writes to the file.
unfoldable pub print_ledger : List Block → List Block
unfolding printed_blocks
print_ledger ledger = printed_blocks (take so_registry_size ledger)
