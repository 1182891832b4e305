-- ===== src/Users/Signals.antt =====
-- The handlers of SIGUSR1 and SIGINT of src/users.c with their call of get_balance.
pub mod Final
pub mod Same
use simulazione_transazioni.Prelude.{ℕ, Bool, Option, none, some}
use simulazione_transazioni.Prelude.Int.{ℤ}
use simulazione_transazioni.Common.{Timespec}
use simulazione_transazioni.Users.State.{UserState}
use simulazione_transazioni.Users.Wallet.{Alarm, quiet, crashed, out_of_range, get_balance}
use simulazione_transazioni.Users.Handlers.{user_transactions_handle, user_interrupt_handle}
use simulazione_transazioni.Users.Cycle.{Cycle, after_alarm}

-- On SIGUSR1. A signal that get_balance raises, or its crash, ends the user.
unfoldable pub on_transaction : Bool → Timespec → ℤ → ℤ → ℕ → UserState → Option Cycle
unfolding get_balance user_transactions_handle after_alarm
on_transaction erange now sent user_pid draw s = elim (get_balance erange s) [
  | none ↦ none
  | some (s', alarm) ↦ after_alarm (user_transactions_handle now sent user_pid draw s') alarm s'
]

-- On SIGINT. A user that get_balance kills does not come to the rest; the signal that get_balance may
-- raise is SIGINT again, which is blocked until the user ends.
unfoldable pub after_balance : UserState → Alarm → Option UserState
unfolding user_interrupt_handle
after_balance s crashed = some s
after_balance s quiet = user_interrupt_handle s
after_balance s out_of_range = user_interrupt_handle s

unfoldable pub on_interrupt : Bool → UserState → Option UserState
unfolding get_balance after_balance
on_interrupt erange s = elim (get_balance erange s) [
  | none ↦ none
  | some (s', alarm) ↦ after_balance s' alarm
]
