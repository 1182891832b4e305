-- ===== src/Users/State.antt =====
-- The globals of src/users.c, and the functions that write to the shared array of users.
use simulazione_transazioni.Prelude.{ℕ, List, Option, none, some}
use simulazione_transazioni.Prelude.Int.{ℤ}
use simulazione_transazioni.Table.{index_loop, update_at}
use simulazione_transazioni.Common.{Parameters, User, UserStatus, Block, Transaction, MsgbufTrans}

-- `out_going` is the list `outGoingTransactions` by its contents (src/utils/lklist.c).
pub record UserState : Type 0 where
  pub par : Parameters
  pub users_pid : List User
  pub ledger : List Block
  pub out_going : List Transaction
  pub curr_balance : ℕ
  pub my_pid : ℤ
  pub trans_msg : MsgbufTrans

-- get_pid_userIndex: the index of the user with the pid, or `error`.
unfoldable pub get_pid_user_index : Parameters → ℤ → List User → ℤ
unfolding index_loop
get_pid_user_index par pid users = index_loop (λ (u : User). u.pid) par.so_user_num 0 pid users

unfoldable pub write_users : UserState → Option (List User) → Option UserState
write_users s none = none
write_users s (some users) = some (record s { users_pid = users })

unfoldable pub update_status : UserStatus → UserState → Option UserState
unfolding get_pid_user_index update_at write_users
update_status status s = write_users s (
    update_at s.users_pid (get_pid_user_index s.par s.my_pid s.users_pid)
      (λ u. record u { status = status }))

unfoldable pub update_balance : ℕ → UserState → Option UserState
unfolding get_pid_user_index update_at write_users
update_balance temp_balance s =
    write_users (record s { curr_balance = temp_balance })
      (update_at s.users_pid (get_pid_user_index s.par s.my_pid s.users_pid)
        (λ u. record u { balance = temp_balance }))
