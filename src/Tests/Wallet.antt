-- ===== src/Tests/Wallet.antt =====
-- The balance of a user with one transaction on its way and one on the ledger.
use simulazione_transazioni.Prelude.{◌≡◌, refl, some, [], ◌∷◌, false}
use simulazione_transazioni.Prelude.Int.{pos, negsuc, ◌+ℤ◌, ◌-ℤ◌}
use simulazione_transazioni.Table.{update_at}
use simulazione_transazioni.Common.{Block}
use mathlib.Core.Option
use simulazione_transazioni.LinkedList.{compare_transactions}
use simulazione_transazioni.LinkedList.Contents.{remove_first}
use simulazione_transazioni.Prelude.Words.{add_i32, u32_of_ℤ, i32_of_u32}
use simulazione_transazioni.Users.State.{UserState, get_pid_user_index, update_balance, write_users}
use simulazione_transazioni.Users.Wallet.{
  Alarm, block_flag, cost, get_balance, scanned, scan_entries, scan_entry, accumulated,
  is_overdrawn, scan_ledger, subtract_out_going,
}
use simulazione_transazioni.Users.Wallet.Count.{SameCosts, visible}
use simulazione_transazioni.Users.Wallet.Balance.{Balances, get_balance-Balances}
use simulazione_transazioni.Tests.Data.{par, payment, users, zero_block, message}

-- User 100 has sent 40 and 1, which is confirmed, and 20 and 1, which is not; it got 7.
abbrev block : Block
block = record {
  trans_list =
      payment 6 (negsuc 0) (pos 200) 1 0
      ∷ payment 3 (pos 100) (pos 101) 40 1
      ∷ payment 4 (pos 101) (pos 100) 7 1
      ∷ [];
  block_index = 0;
}

abbrev state : UserState
state = record {
  par = par;
  users_pid = users;
  ledger = block ∷ zero_block ∷ [];
  out_going = payment 3 (pos 100) (pos 101) 40 1 ∷ payment 5 (pos 100) (pos 101) 20 1 ∷ [];
  curr_balance = 0;
  my_pid = pos 100;
  trans_msg = message 0;
}

state_index : get_pid_user_index state.par state.my_pid state.users_pid ≡ pos 0
unfolding get_pid_user_index
state_index = refl

state-SameCosts : SameCosts state.out_going (visible state.ledger)
unfolding visible compare_transactions
state-SameCosts = (((λ e. refl), ((λ e. cc), tt)), (((λ e. cc), ((λ e. cc), tt)), tt))

get_balance-Balances_example : Balances state 0
get_balance-Balances_example = get_balance-Balances state 0 state_index state-SameCosts

-- 1000 - 41 + 7 - 21
get_balance_test :
    Option.map (λ (r : UserState × Alarm). (r.0).curr_balance) (get_balance false state) ≡ some 945
unfolding get_balance scanned scan_entries scan_entry accumulated is_overdrawn cost add_i32 u32_of_ℤ
    i32_of_u32 ◌+ℤ◌ ◌-ℤ◌ update_balance update_at get_pid_user_index write_users remove_first
    compare_transactions scan_ledger block_flag subtract_out_going
get_balance_test = refl
