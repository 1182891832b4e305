-- ===== src/Users/Signals/Same.antt =====
-- SIGUSR1 makes a user of src/users.c go through a round of its main loop.
use simulazione_transazioni.Prelude.{
  ℕ, ◌≤◌, ◌<◌, ◌≡◌, refl, ◌⊎◌, inl, inr, true, Bool, List, Option, none, some, leb, arith,
  Bool-cases, Option-cases,
}
use simulazione_transazioni.Prelude.Int.{ℤ}
use simulazione_transazioni.Rand.{rand_between}
use simulazione_transazioni.Common.{User, Timespec}
use simulazione_transazioni.Users.State.{UserState, write_users, update_status}
use simulazione_transazioni.Users.Wallet.{Alarm, get_balance}
use simulazione_transazioni.Users.Sending.{Round, goes_on, send_total, main_round}
use simulazione_transazioni.Users.Handlers.{user_transactions_handle}
use simulazione_transazioni.Users.Cycle.{after_alarm, user_cycle}
use simulazione_transazioni.Users.Signals.{on_transaction}

module _ (now : Timespec) (sent to : ℤ) (draw : ℕ) where
  -- Whether the amount is drawn before the status is written or after it is the same.
  any_order :
      (s : UserState) (written : Option (List User))
      → (elim (rand_between draw 2 s.curr_balance) as (λ _. Option Round) [
        | none ↦ none
        | some total ↦ elim (write_users s written) [
          | none ↦ none
          | some s' ↦ send_total now sent s'.par.so_retry to total s'
        ]
      ])
        ≡ (elim (write_users s written) as (λ _. Option Round) [
          | none ↦ none
          | some s' ↦ elim (rand_between draw 2 s'.curr_balance) [
            | none ↦ none
            | some total ↦ send_total now sent s.par.so_retry to total s'
          ]
        ])
  unfolding write_users
  any_order s (some users) = refl
  any_order s none = elim (Option-cases (rand_between draw 2 s.curr_balance)) [
    | inl no_draw ↦ rw no_draw refl
    | inr (total, drawn) ↦ rw drawn refl
  ]

  handle-main_round :
      (s : UserState)
      → leb 2 s.curr_balance ≡ true
      → user_transactions_handle now sent to draw s ≡ main_round now sent s.par.so_retry to draw s
  unfolding user_transactions_handle main_round update_status
  handle-main_round s rich = rw rich (any_order s _)

  module _ (erange : Bool) (s s' : UserState) (alarm : Alarm) where
    -- The handler against the main loop.
    abbrev pub Matches : Type 0
    Matches =
        ((2 ≤ s'.curr_balance)
          × (on_transaction erange now sent to draw s
              ≡ user_cycle erange now sent s'.par.so_retry to draw s))
        ⊎ ((s'.curr_balance < 2)
            × (on_transaction erange now sent to draw s
                ≡ after_alarm (some (goes_on s'.par.so_retry s')) alarm s'))

    -- When `currBalance` is 2 or more after get_balance, the handler of SIGUSR1 does what a cycle of
    -- the main loop with all its retries does, on the same random numbers and answers, a crash of
    -- get_balance or a signal that it raises included, though it draws the amount first; when
    -- `currBalance` is less, the handler does no more than get_balance, and does not mark the user
    -- broke.
    pub on_transaction-Matches : get_balance erange s ≡ some (s', alarm) → Matches
    unfolding on_transaction user_cycle user_transactions_handle
    on_transaction-Matches e = elim (Bool-cases (leb 2 s'.curr_balance)) [
      | inl rich ↦ inl (
        ground arith,
        rw (on_transaction, user_cycle, e)
            (λ j. after_alarm (handle-main_round s' rich j) alarm s'),
      )
      | inr poor ↦ inr (ground arith, rw (on_transaction, e, poor) refl)
    ]
