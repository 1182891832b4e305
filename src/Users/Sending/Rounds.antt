-- ===== src/Users/Sending/Rounds.antt =====
-- A round of a user of src/users.c: what it sends, and what becomes of its balance.
use simulazione_transazioni.Prelude.{
  ℕ, ◌-◌, ◌^◌, ◌≤◌, ◌<◌, ◌≡◌, ◌≢◌, ap, ◌∙◌, true, [], ◌∷◌, ◌++◌, some, arith, leb, get_elem?, set,
}
use simulazione_transazioni.Prelude.Int.{ℤ, pos, ◌-ℤ◌, ◌+ℤ◌}
use simulazione_transazioni.Prelude.Words.{
  u32_of_ℤ, sub_u32, add_i32, i32_of_u32, i32_of_u32_small, add_i32-eq-add,
}
use simulazione_transazioni.Common.{User, alive, Timespec, success}
use simulazione_transazioni.Users.State.{UserState, get_pid_user_index}
use simulazione_transazioni.Users.Wallet.Balance.{get_pid_user_index-some, update_status-some}
use simulazione_transazioni.Users.Sending.{
  reward_of, transaction_init, goes_on, check_retry, send_total, main_round,
}
use simulazione_transazioni.Users.Sending.Amounts.{reward_of_le}
use simulazione_transazioni.Rand.{rand_between_lem}

-- The state after a transaction of these amounts is sent, with the balance that is left.
abbrev pub sent_state : Timespec → ℤ → ℤ → ℤ → ℕ → UserState → UserState
sent_state now to amount reward left s =
    let s' = transaction_init now to amount reward s in
    record s' { curr_balance = left; out_going = s.out_going ++ s'.trans_msg.user_trans ∷ [] }

-- The amount and its reward are what was drawn.
pub add_i32-amounts :
    (total r : ℕ) → r ≤ total → total < 2 ^ 31 → add_i32 (pos (total - r)) (pos r) ≡ pos total
unfolding ◌+ℤ◌
add_i32-amounts total r le small =
    add_i32-eq-add (pos (total - r)) (pos r) (ground arith) ∙ ground arith

spend :
    (total r b : ℕ)
    → r ≤ total
    → total ≤ b
    → b < 2 ^ 31
    → u32_of_ℤ (pos b -ℤ add_i32 (pos (total - r)) (pos r)) ≡ b - total
unfolding u32_of_ℤ ◌-ℤ◌ ◌+ℤ◌
spend total r b le enough small =
    ap (λ (z : ℤ). u32_of_ℤ (pos b -ℤ z)) (add_i32-amounts total r le (omega arith)) ∙ ground arith

pub check_retry_more :
    (retry : ℕ) (s : UserState) → retry ≢ 0 → check_retry retry s ≡ some (goes_on retry s)
unfolding check_retry
check_retry_more retry s ne = ground arith

module _ (now : Timespec) (to : ℤ) (total : ℕ) (s : UserState) where
  -- The state after `total` is sent, of which the rounded percentage is the reward.
  abbrev pub after_sending : UserState
  after_sending =
      let r = reward_of total s.par.so_reward in
      sent_state now to (pos (total - r)) (pos r) (s.curr_balance - total) s

  send_total_lem :
      (retry : ℕ)
      → s.par.so_reward ≤ 100
      → total ≤ s.curr_balance
      → s.curr_balance < 2 ^ 31
      → send_total now success retry to total s ≡ check_retry s.par.so_retry after_sending
  unfolding send_total transaction_init
  send_total_lem retry low enough small =
      let r = reward_of total s.par.so_reward in
      let le : r ≤ total = reward_of_le total s.par.so_reward low in
      let ea : i32_of_u32 (sub_u32 total r) ≡ pos (total - r) =
        ap i32_of_u32 (omega arith) ∙ i32_of_u32_small (total - r) (omega arith) in
      let er : i32_of_u32 r ≡ pos r = i32_of_u32_small r (omega arith) in
      (λ j. check_retry s.par.so_retry (
        sent_state now to (ea j) (er j) (u32_of_ℤ (pos s.curr_balance -ℤ add_i32 (ea j) (er j))) s))
      ∙ ap (λ (b : ℕ). check_retry s.par.so_retry (sent_state now to (pos (total - r)) (pos r) b s))
          (spend total r s.curr_balance le enough small)

module _ (now : Timespec) (to : ℤ) (s : UserState) (i : ℕ) where
  -- The state in which this user, at index `i`, is marked alive.
  abbrev pub awake : User → UserState
  awake u = record s { users_pid = set s.users_pid i (record u { status = alive }) }

  abbrev pub Sends : ℕ → ℕ → Type 0
  Sends retry draw =
      (u : User) × (total : ℕ) × (get_elem? s.users_pid i ≡ some u)
      × (u.pid ≡ s.my_pid)
      × (2 ≤ total)
      × (total ≤ s.curr_balance)
      × (reward_of total s.par.so_reward ≤ total)
      × (main_round now success retry to draw s
          ≡ some (goes_on s.par.so_retry (after_sending now to total (awake u))))

  -- A round in which the message is accepted, of a user that stands in the array with 2 units or
  -- more, fewer than 2 ^ 31, when the reward is a percentage and SO_RETRY is not 0: for whatever
  -- number is drawn, the user takes between 2 units and all it has off its balance, which does not
  -- wrap, and puts behind its outgoing list a pending transaction whose amount and reward, neither
  -- negative, are what it took. The count of retries starts again and the user is alive.
  pub main_round-Sends :
      (retry draw : ℕ)
      → get_pid_user_index s.par s.my_pid s.users_pid ≡ pos i
      → s.par.so_reward ≤ 100
      → 2 ≤ s.curr_balance
      → s.curr_balance < 2 ^ 31
      → s.par.so_retry ≢ 0
      → Sends retry draw
  unfolding main_round
  main_round-Sends retry draw at low rich small tries =
      let (u, got, is, _) = get_pid_user_index-some s.par s.my_pid s.users_pid i at in
      let (total, e, some_left, enough) = rand_between_lem draw s.curr_balance rich (omega arith) in
      let test : leb 2 s.curr_balance ≡ true = ground arith in
      (
        u,
        total,
        got,
        is,
        some_left,
        enough,
        reward_of_le total s.par.so_reward low,
        rw (main_round, test, update_status-some s i at alive u got, e)
            (send_total_lem now to total (awake u) retry low enough small
              ∙ check_retry_more s.par.so_retry (after_sending now to total (awake u)) tries),
      )
