-- ===== src/Tests/Signals.antt =====
-- A user with one confirmed block and one transaction on its way, when a signal comes.
use simulazione_transazioni.Prelude.{◌≡◌, refl, false, some, [], ◌∷◌}
use simulazione_transazioni.Prelude.Int.{pos, ◌+ℤ◌, ◌-ℤ◌}
use simulazione_transazioni.Prelude.Words.{u32_of_ℤ, i32_of_u32, add_i32}
use simulazione_transazioni.Table.{update_at}
use simulazione_transazioni.Common.{Timespec, alive}
use simulazione_transazioni.LinkedList.{compare_transactions}
use simulazione_transazioni.LinkedList.Contents.{remove_first}
use simulazione_transazioni.Users.State.{
  UserState, get_pid_user_index, update_status, update_balance, write_users,
}
use simulazione_transazioni.Users.Wallet.{
  quiet, block_flag, cost, get_balance, scanned, scan_entries, scan_entry, accumulated,
  is_overdrawn, scan_ledger, subtract_out_going,
}
use simulazione_transazioni.Users.Signals.Same.{Matches, on_transaction-Matches}
use simulazione_transazioni.Tests.Data.{par, payment, users, message, full_block, zero_block}

abbrev now : Timespec
now = record { tv_sec = 9; tv_nsec = 1 }

abbrev state : UserState
state = record {
  par = par;
  users_pid = users;
  ledger = full_block ∷ zero_block ∷ [];
  out_going = payment 8 (pos 100) (pos 101) 50 1 ∷ [];
  curr_balance = 0;
  my_pid = pos 100;
  trans_msg = message 0;
}

-- 1000, less nine times 11 on the ledger, less 51 on the way.
abbrev informed : UserState
informed = record state {
  users_pid =
      record { pid = pos 100; balance = 850; status = alive }
      ∷ record { pid = pos 101; balance = 0; status = alive }
      ∷ [];
  curr_balance = 850;
}

informed_lem : get_balance false state ≡ some (informed, quiet)
unfolding get_balance scanned scan_entries scan_entry accumulated is_overdrawn cost add_i32 u32_of_ℤ
    i32_of_u32 ◌+ℤ◌ ◌-ℤ◌ update_balance update_status update_at get_pid_user_index write_users
    remove_first compare_transactions scan_ledger block_flag subtract_out_going
informed_lem = refl

on_transaction-Matches_example : Matches now (pos 0) (pos 101) 12345 false state informed quiet
on_transaction-Matches_example =
    on_transaction-Matches now (pos 0) (pos 101) 12345 false state informed quiet informed_lem
