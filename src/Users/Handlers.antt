-- ===== src/Users/Handlers.antt =====
-- The signal handlers of src/users.c after their call of get_balance, whose result is the state that
-- they start from.
pub mod Refunds
use simulazione_transazioni.Prelude.{
  ℕ, Bool, true, false, List, [], ◌∷◌, Option, none, some, if◌then◌else◌, leb, get_elem?,
}
use simulazione_transazioni.Prelude.Int.{ℤ, pos, negsuc, ◌+ℤ◌}
use simulazione_transazioni.Prelude.Words.{u32_of_ℤ}
use simulazione_transazioni.Rand.{rand_between}
use simulazione_transazioni.Table.{update_at}
use simulazione_transazioni.Common.{
  User, UserStatus, alive, broke, dead, is_dead, Transaction, Timespec,
}
use simulazione_transazioni.Users.State.{UserState, get_pid_user_index, write_users, update_status}
use simulazione_transazioni.Users.Wallet.{cost}
use simulazione_transazioni.Users.Sending.{Round, goes_on, send_total}

-- The handler of SIGUSR1, which counts its retries anew. The amount is drawn before the user is
-- marked alive.
unfoldable pub user_transactions_handle : Timespec → ℤ → ℤ → ℕ → UserState → Option Round
unfolding rand_between update_status send_total
user_transactions_handle now sent user_pid draw s =
    if leb 2 s.curr_balance
    then elim (rand_between draw 2 s.curr_balance) [
      | none ↦ none
      | some total ↦ elim (update_status alive s) [
        | none ↦ none
        | some s' ↦ send_total now sent s'.par.so_retry user_pid total s'
      ]
    ]
    else some (goes_on s.par.so_retry s)

-- The loop of user_interrupt_handle: each outgoing transaction is given back.
unfoldable pub refund : ℕ → List Transaction → ℕ
unfolding cost
refund balance [] = balance
refund balance (t ∷ ts) = refund (u32_of_ℤ (pos balance +ℤ cost t)) ts

-- The status that user_interrupt_handle leaves.
unfoldable pub last_status : User → UserStatus
unfolding is_dead
last_status u = if is_dead u.status then u.status else if leb 2 u.balance then alive else broke

-- The handler of SIGINT: the entry of the user, with its last status and its refunded balance.
unfoldable pub user_interrupt_handle : UserState → Option UserState
unfolding last_status refund
user_interrupt_handle s = write_users s (
    update_at s.users_pid (get_pid_user_index s.par s.my_pid s.users_pid)
      (λ u. record u { status = last_status u; balance = refund u.balance s.out_going }))
