-- ===== src/Users/Cycle.antt =====
-- The main loop of src/users.c: get_balance, and then the round that sends.
pub mod Confirms
pub mod Fresh
pub mod Solvent
pub mod Spending
pub mod Life
use simulazione_transazioni.Prelude.{ℕ, Bool, Option, none, some}
use simulazione_transazioni.Prelude.Int.{ℤ}
use simulazione_transazioni.Common.{Timespec}
use simulazione_transazioni.Users.State.{UserState}
use simulazione_transazioni.Users.Wallet.{Alarm, quiet, get_balance}
use simulazione_transazioni.Users.Sending.{Round, main_round}

-- The round that was gone through, or how get_balance ended the user: by a crash, or by a signal whose
-- handler does not come back.
pub data Cycle : Type 0 where
  ran : Round → Cycle
  raised : Alarm → UserState → Cycle

unfoldable pub after_alarm : Option Round → Alarm → UserState → Option Cycle
after_alarm none quiet s = none
after_alarm (some r) quiet s = some (ran r)
after_alarm r a s = some (raised a s)

-- `sent` is what send_message gives, `user_pid` the receiver that is chosen, `draw` the random number
-- of the amount.
unfoldable pub user_cycle : Bool → Timespec → ℤ → ℕ → ℤ → ℕ → UserState → Option Cycle
unfolding get_balance main_round after_alarm
user_cycle erange now sent retry user_pid draw s = elim (get_balance erange s) [
  | none ↦ none
  | some (s', alarm) ↦ after_alarm (main_round now sent retry user_pid draw s') alarm s'
]
