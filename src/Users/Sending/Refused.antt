-- ===== src/Users/Sending/Refused.antt =====
-- A round of a user of src/users.c whose message is refused.
use simulazione_transazioni.Prelude.{
  ℕ, ◌-◌, ◌^◌, ◌==◌, ◌≤◌, ◌<◌, ◌≡◌, ◌≢◌, ◌⊎◌, inl, inr, refl, ap, ◌∙◌, Bool-cases, true, false,
  some, arith, leb, get_elem?, set, set-set,
}
use simulazione_transazioni.Prelude.Int.{ℤ, pos, ◌==ℤ◌, ==ℤ_iff}
use simulazione_transazioni.Prelude.Words.{sub_u32, i32_of_u32, i32_of_u32_small}
use simulazione_transazioni.Rand.{rand_between_lem}
use simulazione_transazioni.Table.{index_loop-set, get-set_self}
use simulazione_transazioni.Common.{User, UserStatus, alive, dead, Timespec, success}
use simulazione_transazioni.Users.State.{UserState, get_pid_user_index}
use simulazione_transazioni.Users.Wallet.Balance.{get_pid_user_index-some, update_status-some}
use simulazione_transazioni.Users.Sending.{
  reward_of, transaction_init, send_transaction, next_retry, goes_on, gives_up, check_retry,
  send_total, main_round,
}
use simulazione_transazioni.Users.Sending.Rounds.{check_retry_more}
use simulazione_transazioni.Users.Sending.Amounts.{reward_of_le}

refused_retry : (code : ℤ) → code ≢ success → (code ==ℤ pos 0) ≡ false
refused_retry code ne = elim (Bool-cases (code ==ℤ pos 0)) [
  | inl same ↦ absurd (ne ((==ℤ_iff code (pos 0)).0 same))
  | inr other ↦ other
]

module _ (now : Timespec) (to : ℤ) (total : ℕ) (s : UserState) where
  -- The state in which the message was made, and not sent.
  abbrev pub prepared : UserState
  prepared =
      let r = reward_of total s.par.so_reward in transaction_init now to (pos (total - r)) (pos r) s

  send_total_refused :
      (sent : ℤ) (retry : ℕ)
      → sent ≢ success
      → s.par.so_reward ≤ 100
      → total < 2 ^ 31
      → send_total now sent retry to total s ≡ check_retry (sub_u32 retry 1) prepared
  unfolding send_total send_transaction next_retry
  send_total_refused sent retry ne low small =
      let r = reward_of total s.par.so_reward in
      let le : r ≤ total = reward_of_le total s.par.so_reward low in
      let ea : i32_of_u32 (sub_u32 total r) ≡ pos (total - r) =
        ap i32_of_u32 (omega arith) ∙ i32_of_u32_small (total - r) (omega arith) in
      let er : i32_of_u32 r ≡ pos r = i32_of_u32_small r (omega arith) in
      rw (send_total, refused_retry sent ne)
        (λ j. check_retry (sub_u32 retry 1) (transaction_init now to (ea j) (er j) s))

module _ (now : Timespec) (to : ℤ) (s : UserState) (i : ℕ) where
  -- The state in which the entry of this user, at index `i`, has a status.
  abbrev pub with_status : UserStatus → User → UserState
  with_status st u = record s { users_pid = set s.users_pid i (record u { status = st }) }

  abbrev pub Refuses : ℤ → ℕ → ℕ → Type 0
  Refuses sent retry draw =
      (u : User) × (total : ℕ) × (get_elem? s.users_pid i ≡ some u)
      × (2 ≤ total)
      × (total ≤ s.curr_balance)
      × (((retry ≡ 1)
            × (main_round now sent retry to draw s
                ≡ some (gives_up (prepared now to total (with_status dead u)))))
          ⊎ ((2 ≤ retry)
              × (main_round now sent retry to draw s
                  ≡ some (goes_on (retry - 1) (prepared now to total (with_status alive u))))))

  give_up :
      (total : ℕ) (u : User)
      → get_pid_user_index s.par s.my_pid s.users_pid ≡ pos i
      → get_elem? s.users_pid i ≡ some u
      → check_retry 0 (prepared now to total (with_status alive u))
        ≡ some (gives_up (prepared now to total (with_status dead u)))
  unfolding check_retry get_pid_user_index transaction_init
  give_up total u at got =
      let v = record u { status = alive } in
      let at' =
        index_loop-set (λ (x : User). x.pid) s.par.so_user_num 0 s.my_pid s.users_pid i v got refl
        ∙ at in
      rw
        (
          update_status-some (prepared now to total (with_status alive u)) i at' dead v
              (get-set_self s.users_pid i v got),
          set-set s.users_pid i v (record v { status = dead }),
        )
        refl

  -- A round in which the message is refused, of a user that stands in the array with 2 units or
  -- more, fewer than 2 ^ 31, when the reward is a percentage and a retry is left: the balance, the
  -- outgoing list and the ledger stay as they are, and only the message of the user and its status
  -- are written. With more retries left the user is alive and one retry is counted; with the last one
  -- it is marked dead and gives up.
  pub main_round-Refuses :
      (sent : ℤ) (retry draw : ℕ)
      → get_pid_user_index s.par s.my_pid s.users_pid ≡ pos i
      → sent ≢ success
      → s.par.so_reward ≤ 100
      → 2 ≤ s.curr_balance
      → s.curr_balance < 2 ^ 31
      → 1 ≤ retry
      → retry < 2 ^ 32
      → Refuses sent retry draw
  unfolding main_round
  main_round-Refuses sent retry draw at ne low rich small some_left fits =
      let (u, got, is, _) = get_pid_user_index-some s.par s.my_pid s.users_pid i at in
      let (total, e, least, enough) = rand_between_lem draw s.curr_balance rich (omega arith) in
      let test : leb 2 s.curr_balance ≡ true = ground arith in
      let run : main_round now sent retry to draw s
          ≡ check_retry (retry - 1) (prepared now to total (with_status alive u)) =
        rw (main_round, test, update_status-some s i at alive u got, e)
          (send_total_refused now to total (with_status alive u) sent retry ne low (omega arith)
            ∙ ap (λ (k : ℕ). check_retry k (prepared now to total (with_status alive u)))
                (omega arith)) in
      (
        u,
        total,
        got,
        least,
        enough,
        elim (Bool-cases (retry == 1)) [
          | inl last ↦
              let one : retry ≡ 1 = ground arith in
              inl (
                one,
                run
                    ∙ (λ j. check_retry (one j - 1) (prepared now to total (with_status alive u)))
                    ∙ give_up total u at got,
              )
          | inr more ↦
              let two : 2 ≤ retry = ground arith in
              inr (
                two,
                run
                    ∙ check_retry_more (retry - 1) (prepared now to total (with_status alive u))
                        (λ z. omega arith),
              )
        ],
      )
