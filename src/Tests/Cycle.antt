-- ===== src/Tests/Cycle.antt =====
-- A user that sends, is confirmed and is paid.
use simulazione_transazioni.Prelude.{◌≡◌, refl, arith, [], ◌∷◌, some, false}
use simulazione_transazioni.Prelude.Int.{pos, negsuc, ◌+ℤ◌, ◌-ℤ◌}
use simulazione_transazioni.Prelude.Words.{u32_of_ℤ, i32_of_u32, add_i32}
use simulazione_transazioni.Rand.{rand_between}
use simulazione_transazioni.Table.{update_at}
use simulazione_transazioni.Common.{Timespec, Transaction, Block, alive, pending}
use simulazione_transazioni.LinkedList.{compare_transactions}
use simulazione_transazioni.LinkedList.Contents.{find_first, remove_first}
use simulazione_transazioni.Users.State.{
  UserState, get_pid_user_index, update_status, update_balance, write_users,
}
use simulazione_transazioni.Users.Wallet.{
  block_flag, cost, get_balance, scanned, scan_entries, scan_entry, accumulated, is_overdrawn,
  scan_ledger, subtract_out_going,
}
use simulazione_transazioni.Users.Wallet.Count.{received, spent, visible}
use simulazione_transazioni.Users.Wallet.Pending.{pending_after, own}
use simulazione_transazioni.Users.Wallet.Funds.{SameAgain, get_balance_again}
use simulazione_transazioni.Users.Sending.{main_round, goes_on, reward_of}
use simulazione_transazioni.Users.Cycle.{user_cycle, ran}
use simulazione_transazioni.Users.Cycle.Solvent.{IsSolvent}
use simulazione_transazioni.Users.Cycle.Spending.{Passes, user_cycle-Passes}
use simulazione_transazioni.Users.Cycle.Life.{
  Pass, Life, starts, passes, confirms, IsCovered, Life-IsCovered,
}
use simulazione_transazioni.Tests.Data.{par, payment, users, message, zero_block}

abbrev now : Timespec
now = record { tv_sec = 7; tv_nsec = 1 }

abbrev state : UserState
state = record {
  par = par;
  users_pid = users;
  ledger = [];
  out_going = [];
  curr_balance = 1000;
  my_pid = pos 100;
  trans_msg = message 0;
}

state-IsSolvent : IsSolvent 0 state
unfolding get_pid_user_index visible received spent own pending_after ◌+ℤ◌ ◌-ℤ◌
state-IsSolvent = record {
  at = refl;
  distinct = tt;
  funded = omega arith;
  bounded = omega arith;
  low = omega arith;
  tries = λ e. omega arith;
}

user_cycle-Passes_example : Passes 0 now (pos 101) (pos 0) 20 12345 state
unfolding visible
user_cycle-Passes_example =
    user_cycle-Passes 0 now (pos 101) (pos 0) 20 12345 state state-IsSolvent tt tt (omega arith)
      (omega arith)

-- 359 units: 355, and 4 for the reward.
abbrev sending : Transaction
sending = record {
  timestamp = now;
  sender = pos 100;
  receiver = pos 101;
  amount = pos 355;
  reward = pos 4;
  status = pending;
}

abbrev sent : UserState
sent = record state {
  users_pid =
      record { pid = pos 100; balance = 1000; status = alive }
      ∷ record { pid = pos 101; balance = 0; status = alive }
      ∷ [];
  out_going = sending ∷ [];
  curr_balance = 641;
  trans_msg = record { mtype = 28410; hops = pos 10; user_trans = sending };
}

abbrev pass : Pass
pass = record { now = now; to = pos 101; sent = pos 0; retry = 20; draw = 12345 }

sent_lem : user_cycle false now (pos 0) 20 (pos 101) 12345 state ≡ some (ran (goes_on 20 sent))
unfolding user_cycle get_balance scanned scan_entries scan_entry accumulated is_overdrawn cost
    add_i32 u32_of_ℤ i32_of_u32 ◌+ℤ◌ ◌-ℤ◌ update_balance update_status update_at get_pid_user_index
    write_users remove_first compare_transactions scan_ledger block_flag subtract_out_going
    main_round reward_of rand_between
sent_lem = refl

abbrev block : Block
block = record {
  trans_list =
      payment 9 (negsuc 0) (pos 200) 5 0 ∷ sending ∷ payment 8 (pos 101) (pos 100) 40 1 ∷ [];
  block_index = 0;
}

-- 1000 less 359, and 40.
abbrev later : UserState
later = record sent { ledger = block ∷ zero_block ∷ [] }

later-Life : Life 0 state later
unfolding visible block_flag compare_transactions find_first cost received spent own pending_after
    remove_first add_i32 u32_of_ℤ i32_of_u32 ◌+ℤ◌ ◌-ℤ◌
later-Life =
    confirms (block ∷ zero_block ∷ []) (sending ∷ payment 8 (pos 101) (pos 100) 40 1 ∷ [])
      (passes pass 20 starts tt tt (omega arith) (omega arith) sent_lem) refl
      ((λ _. (sending, refl, ((λ _. refl), tt))), ((λ e. cc), tt)) (omega arith) (omega arith)

Life-IsCovered_example : IsCovered 0 later
Life-IsCovered_example = Life-IsCovered 0 state-IsSolvent later-Life

get_balance_again_example : SameAgain later 0
unfolding get_pid_user_index visible block_flag received spent own pending_after remove_first cost
    compare_transactions add_i32 u32_of_ℤ i32_of_u32 ◌+ℤ◌ ◌-ℤ◌
get_balance_again_example = get_balance_again later 0 refl (tt, tt) (omega arith)
