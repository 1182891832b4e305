-- ===== src/Tests/Sending.antt =====
-- A round of a user with 500 units.
use simulazione_transazioni.Prelude.{ℕ, ◌≡◌, refl, arith, [], ◌∷◌, some, inl, inr, get_elem?}
use simulazione_transazioni.Prelude.Int.{pos, ◌+ℤ◌}
use simulazione_transazioni.Common.{Timespec, User, alive, error, is_dead}
use simulazione_transazioni.Users.State.{UserState, get_pid_user_index}
use simulazione_transazioni.Users.Sending.{reward_of, can_receive, get_random_user_pid}
use simulazione_transazioni.Users.Sending.Choice.{
  IsReceiver, HitsReceiver, get_random_user_pid-IsReceiver,
}
use simulazione_transazioni.Users.Sending.Refused.{Refuses, main_round-Refuses}
use simulazione_transazioni.Users.Sending.Rounds.{Sends, main_round-Sends}
use simulazione_transazioni.Prelude.Words.{u32_of_ℤ, i32_of_u32, add_i32}
use simulazione_transazioni.Users.Wallet.{cost}
use simulazione_transazioni.Users.Handlers.{refund}
use simulazione_transazioni.Tests.Data.{payment, par, users, message}

abbrev now : Timespec
now = record { tv_sec = 7; tv_nsec = 1 }

abbrev state : UserState
state = record {
  par = par;
  users_pid = users;
  ledger = [];
  out_going = [];
  curr_balance = 500;
  my_pid = pos 100;
  trans_msg = message 0;
}

state_index : get_pid_user_index state.par state.my_pid state.users_pid ≡ pos 0
unfolding get_pid_user_index
state_index = refl

main_round-Sends_example : Sends now (pos 101) state 0 20 12345
main_round-Sends_example =
    main_round-Sends now (pos 101) state 0 20 12345 state_index (omega arith) (omega arith)
      (omega arith) (λ e. ground arith)

-- 1 % of 250, rounded up.
reward_of_test : reward_of 250 1 ≡ 3
unfolding reward_of
reward_of_test = refl

main_round-Refuses_example : Refuses now (pos 101) state 0 error 1 12345
main_round-Refuses_example =
    main_round-Refuses now (pos 101) state 0 error 1 12345 state_index (λ e. ground arith)
      (omega arith) (omega arith) (omega arith) (omega arith) (omega arith)

-- The first draw leads to the caller, the second to user 101.
draws_hit : HitsReceiver state 1 (4 ∷ 3 ∷ [])
unfolding can_receive is_dead
draws_hit =
    inr
      (inl (record { pid = pos 101; balance = 0; status = alive }, refl, (refl, λ e. ground arith)))

get_random_user_pid-IsReceiver_example :
    (j : ℕ) × (u : User) × (get_random_user_pid (4 ∷ 3 ∷ []) state ≡ some u.pid)
    × (get_elem? users j ≡ some u)
    × IsReceiver (pos 100) u
get_random_user_pid-IsReceiver_example =
    get_random_user_pid-IsReceiver state 1 (4 ∷ 3 ∷ []) refl (omega arith) refl draws_hit

abbrev spender : UserState
spender = record state { out_going = payment 5 (pos 100) (pos 101) 20 1 ∷ [] }

-- The 20 units and the reward are given back.
refund_test : refund 0 spender.out_going ≡ 21
unfolding refund cost add_i32 u32_of_ℤ i32_of_u32 ◌+ℤ◌
refund_test = refl
