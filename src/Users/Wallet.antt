-- ===== src/Users/Wallet.antt =====
-- get_balance and search_trans_list of src/users.c: what a user owns, read off the ledger and the
-- transactions that are still on their way. The sum `accumulate` is a `long`, which holds it.
pub mod Count
pub mod Pending
pub mod Sums
pub mod Funds
pub mod Balance
use simulazione_transazioni.Prelude.{
  ℕ, zero, suc, ◌+◌, ◌-◌, ◌==◌, Bool, true, false, ◌||◌, List, [], ◌∷◌, Option, none, some,
  if◌then◌else◌, take, drop,
}
use simulazione_transazioni.Prelude.Int.{ℤ, pos, negsuc, ◌+ℤ◌, ◌-ℤ◌, ◌==ℤ◌, ltb_ℤ}
use simulazione_transazioni.Prelude.Words.{add_i32, u32_of_ℤ}
use simulazione_transazioni.Common.{Transaction, Block, so_block_size, dead, UserStatus}
use simulazione_transazioni.LinkedList.Contents.{remove_first}
use simulazione_transazioni.Users.State.{UserState, update_status, update_balance}

-- `amount + reward`, an `int`.
unfoldable pub cost : Transaction → ℤ
cost t = add_i32 t.amount t.reward

-- The outgoing transactions that are left, and `accumulate`.
pub record Scan : Type 0 where
  pub out_going : List Transaction
  pub accumulate : ℤ

-- The body of the inner loop of get_balance.
unfoldable pub scan_entry : ℤ → Scan → Transaction → Scan
scan_entry my_pid s t =
    if t.sender ==ℤ my_pid
    then record s { out_going = remove_first t s.out_going; accumulate = s.accumulate -ℤ cost t }
    else if t.receiver ==ℤ my_pid
    then record s { accumulate = s.accumulate +ℤ t.amount }
    else s

unfoldable pub scan_entries : ℤ → Scan → List Transaction → Scan
scan_entries my_pid s [] = s
scan_entries my_pid s (t ∷ ts) = scan_entries my_pid (scan_entry my_pid s t) ts

-- `flag` of a block: 0 for a slot that was never written.
unfoldable pub block_flag : Block → ℕ
block_flag b = elim b.trans_list [ [] ↦ 0 | t ∷ _ ↦ t.timestamp.tv_nsec + t.timestamp.tv_sec ]

-- The transactions that the inner loop reads, from 1 up to `SO_BLOCK_SIZE - 1`.
abbrev pub entries : Block → List Transaction
entries b = take (so_block_size - 1) (drop 1 b.trans_list)

-- The outer loop, over the copy of the ledger.
unfoldable pub scan_ledger : ℤ → Scan → List Block → Scan
unfolding block_flag
scan_ledger my_pid s [] = s
scan_ledger my_pid s (b ∷ bs) =
    let rest = scan_ledger my_pid (scan_entries my_pid s (entries b)) bs in
    if block_flag b == 0 then s else rest

-- The loop over the outgoing transactions.
unfoldable pub subtract_out_going : ℤ → List Transaction → ℤ
unfolding cost
subtract_out_going accumulate [] = accumulate
subtract_out_going accumulate (t ∷ ts) = subtract_out_going (accumulate -ℤ cost t) ts

-- How get_balance ends: quietly; in a crash, because the balance is negative and the outgoing list is
-- printed to `(FILE *)2`, which is no stream, so that the process is killed and neither SIGINT goes
-- to the group nor is a balance written; or with SIGINT to itself because `errno` is ERANGE.
pub data Alarm : Type 0 where
  quiet crashed out_of_range : Alarm

-- `accumulate * (-1) > tempBalance`
unfoldable pub is_overdrawn : ℕ → ℤ → Bool
is_overdrawn budget accumulate = ltb_ℤ (pos budget) (pos 0 -ℤ accumulate)

-- The user is marked dead before it is killed or raises a signal.
unfoldable pub mark_if : Bool → UserState → Option UserState
mark_if false s = some s
mark_if true s = update_status dead s

unfoldable pub then_balance : ℕ → Option UserState → Option UserState
then_balance temp_balance none = none
then_balance temp_balance (some s) = update_balance temp_balance s

unfoldable pub alarm_of : Bool → Alarm
alarm_of true = out_of_range
alarm_of false = quiet

unfoldable pub scanned : UserState → Scan
unfolding scan_ledger
scanned s = scan_ledger s.my_pid (record { out_going = s.out_going; accumulate = pos 0 }) s.ledger

unfoldable pub accumulated : UserState → ℤ
unfolding scanned subtract_out_going
accumulated s = subtract_out_going (scanned s).accumulate (scanned s).out_going

-- The statements from the first test on.
unfoldable pub settle : Bool → Bool → ℕ → UserState → Option (UserState × Alarm)
unfolding mark_if then_balance alarm_of
settle true erange temp_balance s = elim (mark_if true s) [
  | none ↦ none
  | some s' ↦ some (s', crashed)
]
settle false erange temp_balance s = elim (then_balance temp_balance (mark_if erange s)) [
  | none ↦ none
  | some s' ↦ some (s', alarm_of erange)
]

-- `erange`: whether `errno` is ERANGE. `none`: this user is not in the array, and a write goes
-- outside it. The state is that after the last statement, or when the process is killed; a
-- signal that is raised on the way is returned.
unfoldable pub get_balance : Bool → UserState → Option (UserState × Alarm)
unfolding settle
get_balance erange s =
    settle (is_overdrawn s.par.so_budget_init (accumulated s)) erange
      (u32_of_ℤ (pos s.par.so_budget_init +ℤ accumulated s))
      (record s { out_going = (scanned s).out_going })

-- search_trans_list, which no other function calls: the entries from 1 up to `SO_BLOCK_SIZE - 2`.
unfoldable pub search_entries : ℤ → ℤ → List Transaction → ℤ
search_entries my_pid accumulate [] = accumulate
search_entries my_pid accumulate (t ∷ ts) =
    search_entries my_pid
      (if t.sender ==ℤ my_pid
        then accumulate -ℤ t.amount
        else if t.receiver ==ℤ my_pid
        then accumulate +ℤ t.amount
        else accumulate)
      ts

unfoldable pub search_trans_list : ℤ → Block → ℤ
unfolding search_entries
search_trans_list my_pid b =
    search_entries my_pid (pos 0) (take (so_block_size - 2) (drop 1 b.trans_list))
