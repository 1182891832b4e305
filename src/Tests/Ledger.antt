-- ===== src/Tests/Ledger.antt =====
-- The ledger functions on a ledger that nothing was written to.
use simulazione_transazioni.Prelude.{◌≡◌, refl, ◌⊎◌, arith, some, [], ◌∷◌}
use simulazione_transazioni.Prelude.Int.{pos}
use simulazione_transazioni.Common.{Timespec}
use simulazione_transazioni.Ledger.{is_free, get_pid_node_index, find_slot}
use simulazione_transazioni.Ledger.Append.{Appends, FindsFull, insert_block_in_ledger-append}
use simulazione_transazioni.Ledger.Blocks.{Rewards, total_reward, new_block-Rewards}
use simulazione_transazioni.Tests.Data.{
  par, nine, full_block, zero_block, empty_ledger, length-empty_ledger, empty_ledger-IsPrefixed,
  nodes,
}

insert_block_in_ledger-append_example :
    Appends full_block empty_ledger ⊎ FindsFull full_block empty_ledger
unfolding is_free
insert_block_in_ledger-append_example =
    insert_block_in_ledger-append full_block empty_ledger refl length-empty_ledger
      empty_ledger-IsPrefixed

abbrev now : Timespec
now = record { tv_sec = 7; tv_nsec = 1 }

new_block-Rewards_example : Rewards par (pos 200) now 0 nodes nine 0
unfolding get_pid_node_index total_reward
new_block-Rewards_example =
    new_block-Rewards par (pos 200) now 0 nodes nine 0 refl (omega arith) (omega arith)
      (omega arith)

-- The second slot is the first free one.
find_slot_test : find_slot 3 0 (full_block ∷ zero_block ∷ zero_block ∷ []) ≡ some 1
unfolding find_slot is_free
find_slot_test = refl
