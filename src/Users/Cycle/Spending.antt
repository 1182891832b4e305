-- ===== src/Users/Cycle/Spending.antt =====
-- A pass through the main loop of src/users.c: what it spends.
use simulazione_transazioni.Prelude.{
  ℕ, ◌-◌, ◌^◌, ◌≤◌, ◌<◌, ◌≡◌, ◌≢◌, ◌⊎◌, inl, inr, refl, sym, ap, ◌∙◌, false, some, arith, leb,
  get_elem?, set, Bool-cases,
}
use simulazione_transazioni.Prelude.Int.{ℤ, pos, negsuc, ◌==ℤ◌, ==ℤ_iff, pos_part, ◌+ℤ◌, ◌≤ℤ◌}
use simulazione_transazioni.Prelude.Words.{u32_of_ℤ}
use simulazione_transazioni.Table.{index_loop-set, get-set_self}
use simulazione_transazioni.Common.{User, UserStatus, alive, broke, dead, Timespec, success}
use mathlib.Core.Bool.{false≢true}
use native.Mathlib.Decide.{dec_lt}
use simulazione_transazioni.Users.State.{UserState, get_pid_user_index}
use simulazione_transazioni.Users.Wallet.{cost, quiet, get_balance}
use simulazione_transazioni.Users.Wallet.Count.{visible}
use simulazione_transazioni.Users.Wallet.Funds.{
  funds, refreshed, get_balance-refreshed, refreshed-index,
}
use simulazione_transazioni.Users.Wallet.Balance.{update_status-some}
use simulazione_transazioni.Users.Sending.{
  Round, goes_on, gives_up, reward_of, transaction_init, main_round,
}
use simulazione_transazioni.Users.Sending.Rounds.{
  after_sending, awake, add_i32-amounts, main_round-Sends,
}
use simulazione_transazioni.Users.Sending.Refused.{prepared, with_status, main_round-Refuses}
use simulazione_transazioni.Users.Cycle.{ran, after_alarm, user_cycle}
use simulazione_transazioni.Users.Cycle.Fresh.{IsLater}
use simulazione_transazioni.Users.Cycle.Solvent.{
  IsSolvent, kept-IsSolvent, spends-IsSolvent, u32_of_ℤ_small,
}

fits : (a : ℤ) (n : ℕ) → n ≤ pos_part a → 2 ≤ pos_part a → pos n ≤ℤ a
fits (pos m) n h k = omega arith
fits (negsuc m) n h k = absurd (omega arith)

module _ (i : ℕ) (now : Timespec) (to sent : ℤ) (retry draw : ℕ) (s : UserState) where
  -- The pass ends with the round `r`, and takes `amount` from the funds.
  abbrev pub Takes : ℕ → UserState → Round → Type 0
  Takes amount t r =
      (user_cycle false now sent retry to draw s ≡ some (ran r))
      × IsSolvent i t
      × (funds s ≡ funds t +ℤ pos amount)

  -- The ways in which a pass can end.
  abbrev pub Passes : Type 0
  Passes =
      ((sent ≡ success)
        × (amount : ℕ) × (t : UserState) × (2 ≤ amount)
        × Takes amount t (goes_on s.par.so_retry t))
      ⊎ (t : UserState) × (((sent ≢ success) × (2 ≤ retry) × Takes 0 t (goes_on (retry - 1) t))
          ⊎ ((sent ≢ success) × (retry ≡ 1) × Takes 0 t (gives_up t))
          ⊎ ((pos_part (funds s) < 2) × Takes 0 t (goes_on retry t)))

  module _ (solvent : IsSolvent i s) (u : User) (got : get_elem? s.users_pid i ≡ some u)
      (start : get_balance false s ≡ some (refreshed s i u, quiet)) where
    abbrev s' : UserState
    s' = refreshed s i u

    cycle_lem :
        (r : Round)
        → main_round now sent retry to draw s' ≡ some r
        → user_cycle false now sent retry to draw s ≡ some (ran r)
    unfolding user_cycle after_alarm
    cycle_lem r e = rw (user_cycle, start, e) refl

    s'_index : get_pid_user_index s.par s.my_pid s'.users_pid ≡ pos i
    s'_index = refreshed-index s i solvent.at solvent.funded u got

    marked_index :
        (v w : User)
        → get_elem? s'.users_pid i ≡ some v
        → w.pid ≡ v.pid
        → get_pid_user_index s.par s.my_pid (set s'.users_pid i w) ≡ pos i
    unfolding get_pid_user_index
    marked_index v w there same =
        index_loop-set (λ (x : User). x.pid) s.par.so_user_num 0 s.my_pid s'.users_pid i w there
          same
        ∙ s'_index

    rich : s'.curr_balance ≡ pos_part (funds s)
    rich = u32_of_ℤ_small (funds s) solvent.funded solvent.bounded

    abbrev v : User
    v = record u { balance = u32_of_ℤ (funds s) }

    there : get_elem? s'.users_pid i ≡ some v
    there = get-set_self s.users_pid i v got

    poor-Passes : pos_part (funds s) < 2 → Passes
    unfolding main_round
    poor-Passes poor =
        let w : User = record v { status = broke } in
        let few : leb 2 s'.curr_balance ≡ false = ground (arith, rich) in
        let (ends, kept) =
          kept-IsSolvent i s solvent (set s'.users_pid i w) s'.curr_balance s.trans_msg
            (marked_index v w there refl) in
        let round : main_round now sent retry to draw s'
            ≡ some (goes_on retry (record s' { users_pid = set s'.users_pid i w })) =
          rw (main_round, few, update_status-some s' i s'_index broke v there) refl in
        inr (
          record s' { users_pid = set s'.users_pid i w },
          inr (inr (poor, (cycle_lem _ round, ends, kept))),
        )

    module _ (enough : 2 ≤ pos_part (funds s)) where
      sent-Passes :
          sent ≡ success → IsLater now s.out_going → IsLater now (visible s.ledger) → Passes
      unfolding transaction_init cost
      sent-Passes done fresh fresh' =
          let (v', total, at_v, is, least, most, le, round) =
            main_round-Sends now to s' i retry draw s'_index solvent.low (omega (arith, rich))
              (omega (arith, rich, solvent.bounded)) solvent.tries in
          let t = after_sending now to total (awake now to s' i v') in
          let (ends, less) =
            spends-IsSolvent i s solvent (awake now to s' i v').users_pid t.curr_balance t.trans_msg
              (marked_index v' (record v' { status = alive }) at_v refl) t.trans_msg.user_trans
              total fresh fresh'
              (add_i32-amounts total (reward_of total s.par.so_reward) le
                (omega (arith, most, rich, solvent.bounded)))
              (fits (funds s) total (omega (arith, most, rich)) enough) in
          inl (
            done,
            total,
            t,
            least,
            (
              cycle_lem _ (ap (λ (x : ℤ). main_round now x retry to draw s') done ∙ round),
              ends,
              less,
            ),
          )

      refused-Passes : sent ≢ success → 1 ≤ retry → retry < 2 ^ 32 → Passes
      unfolding transaction_init
      refused-Passes ne some_left small =
          let (v', total, at_v, least, most, cases) =
            main_round-Refuses now to s' i sent retry draw s'_index ne solvent.low
              (omega (arith, rich)) (omega (arith, rich, solvent.bounded)) some_left small in
          let stays = λ (st : UserStatus).
            kept-IsSolvent i s solvent (with_status now to s' i st v').users_pid s'.curr_balance
              (prepared now to total (with_status now to s' i st v')).trans_msg
              (marked_index v' (record v' { status = st }) at_v refl) in
          elim cases [
            | inl (last, round) ↦ inr (
              prepared now to total (with_status now to s' i dead v'),
              inr (inl (ne, last, (cycle_lem _ round, (stays dead).0, (stays dead).1))),
            )
            | inr (more, round) ↦ inr (
              prepared now to total (with_status now to s' i alive v'),
              inl (ne, more, (cycle_lem _ round, (stays alive).0, (stays alive).1)),
            )
          ]

  -- For a user that stands in the array, with no two equal transactions on its outgoing list and
  -- funds that an `int` holds, when the reward is a percentage, SO_RETRY is not 0, a retry is left,
  -- and the clock shows a time that no transaction on the outgoing list or on the ledger has: a pass
  -- through the main loop raises nothing. If the message is accepted, the funds fall by the amount
  -- that is drawn, at least 2, and the retries start again; if it is refused, or with fewer than 2
  -- units, the funds stay, one retry is counted or none, and only the last refusal makes the user
  -- give up. After each of these the funds are not negative, an `int` holds them, and the
  -- transactions on the list differ.
  pub user_cycle-Passes :
      IsSolvent i s
      → IsLater now s.out_going
      → IsLater now (visible s.ledger)
      → 1 ≤ retry
      → retry < 2 ^ 32
      → Passes
  user_cycle-Passes solvent fresh fresh' some_left small =
      let (u, got, _, start) = get_balance-refreshed s i solvent.at solvent.funded in
      elim (dec_lt (pos_part (funds s)) 2) [
        | yes poor ↦ poor-Passes solvent u got start poor
        | no rich ↦ elim (Bool-cases (sent ==ℤ success)) [
          | inl done ↦
              sent-Passes solvent u got start (omega arith) ((==ℤ_iff sent success).0 done) fresh
                fresh'
          | inr refused ↦
              refused-Passes solvent u got start (omega arith)
                (λ e. false≢true (sym refused ∙ (==ℤ_iff sent success).1 e)) some_left small
        ]
      ]
