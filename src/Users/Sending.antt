-- ===== src/Users/Sending.antt =====
-- How a user of src/users.c sends money: the macro REWARD, the choice of a user and of a
-- node, transaction_init, send_transaction, and the rounds of main.
pub mod Amounts
pub mod Choice
pub mod Rounds
pub mod Refused
use simulazione_transazioni.Prelude.{
  ℕ, zero, suc, ◌+◌, ◌-◌, ◌*◌, ◌/◌, ◌%◌, ◌==◌, Bool, true, false, not, ◌&&◌, List, [], ◌∷◌, ◌++◌,
  Option, none, some, if◌then◌else◌, leb, get_elem?,
}
use simulazione_transazioni.Prelude.Int.{ℤ, pos, negsuc, ◌-ℤ◌, ◌==ℤ◌}
use simulazione_transazioni.Prelude.Words.{u32, sub_u32, u32_of_ℤ, i32_of_u32}
use simulazione_transazioni.Rand.{rand_between}
use simulazione_transazioni.Common.{
  is_dead, Parameters, User, UserStatus, alive, broke, dead, Node, available, full, Transaction,
  MsgbufTrans, Timespec, pending, transaction_mtype, success, error,
}
use simulazione_transazioni.Users.State.{UserState, update_status}
use simulazione_transazioni.Users.Wallet.{cost}

-- The macro REWARD, converted to `unsigned int`: the product is one of unsigned words, its
-- hundredth, rounded up, is exact.
unfoldable pub reward_of : ℕ → ℕ → ℕ
reward_of amount reward = (u32 (reward * amount) + 99) / 100

-- The test of get_random_userPID.
unfoldable pub can_receive : ℤ → User → Bool
unfolding is_dead
can_receive my_pid u = not (is_dead u.status) && not (u.pid ==ℤ my_pid)

-- The test of get_random_nodePID.
unfoldable pub can_process : Node → Bool
can_process n = elim n.status [ available ↦ not (n.pid ==ℤ pos 0) | full ↦ false ]

module _ {A : Type 0} (pid_of : A → ℤ) (test : A → Bool) (last : ℕ) (entries : List A) where
  -- `val` after a round of the loop, 0 before it.
  unfoldable pub pick : ℕ → Option ℤ
  pick index = elim (get_elem? entries index) [
    | none ↦ none
    | some a ↦ some (if test a then pid_of a else pos 0)
  ]

  -- The loop that get_random_userPID and get_random_nodePID share, for the numbers that `rand`
  -- gives in its rounds. `none`: it needs more of them, or it reads outside the array.
  unfoldable pub random_pid : List ℕ → Option ℤ
  unfolding rand_between pick
  random_pid [] = none
  random_pid (draw ∷ draws) =
      let rest = random_pid draws in
      elim (rand_between draw 0 last) [
        | none ↦ none
        | some index ↦ elim (pick index) [
          | none ↦ none
          | some val ↦ if val ==ℤ pos 0 then rest else some val
        ]
      ]

unfoldable pub get_random_user_pid : List ℕ → UserState → Option ℤ
unfolding random_pid can_receive
get_random_user_pid draws s =
    random_pid (λ (u : User). u.pid) (can_receive s.my_pid) (sub_u32 s.par.so_user_num 1)
      s.users_pid draws

unfoldable pub get_random_node_pid : List ℕ → Parameters → List Node → Option ℤ
unfolding random_pid can_process
get_random_node_pid draws par nodes =
    random_pid (λ (n : Node). n.pid) can_process (sub_u32 (u32 (par.so_nodes_num * 2)) 1) nodes
      draws

-- `now` is the time that clock_gettime gives.
unfoldable pub transaction_init : Timespec → ℤ → ℤ → ℤ → UserState → UserState
transaction_init now user_pid amount reward s = record s {
  trans_msg = record {
    mtype = transaction_mtype;
    hops = i32_of_u32 s.par.so_hops;
    user_trans = record {
      timestamp = now;
      sender = s.my_pid;
      receiver = user_pid;
      amount = amount;
      reward = reward;
      status = pending;
    };
  };
}

-- `sent` is what send_message returned for the message.
unfoldable pub send_transaction : ℤ → UserState → ℤ × UserState
unfolding cost
send_transaction sent s =
    let t = s.trans_msg.user_trans in
    if sent ==ℤ success
    then (
      success,
      record s {
        curr_balance = u32_of_ℤ (pos s.curr_balance -ℤ cost t);
        out_going = s.out_going ++ t ∷ [];
      },
    )
    else (error, s)

-- `retry` after the call.
unfoldable pub next_retry : Parameters → ℕ → ℤ → ℕ
next_retry par retry code = if code ==ℤ pos 0 then par.so_retry else sub_u32 retry 1

-- A round that ended, with `retry`, or in which the user gave up, is dead and gets SIGINT.
pub data Round : Type 0 where
  goes_on : ℕ → UserState → Round
  gives_up : UserState → Round

unfoldable pub check_retry : ℕ → UserState → Option Round
check_retry retry s =
    if retry == 0
    then elim (update_status dead s) [ none ↦ none | some s' ↦ some (gives_up s') ]
    else some (goes_on retry s)

-- The statements from the choice of the amount on: `total` is the amount with the reward.
unfoldable pub send_total : Timespec → ℤ → ℕ → ℤ → ℕ → UserState → Option Round
unfolding transaction_init send_transaction next_retry check_retry
send_total now sent retry user_pid total s =
    let reward = reward_of total s.par.so_reward in
    let amount = sub_u32 total reward in
    let (code, s') =
      send_transaction sent
        (transaction_init now user_pid (i32_of_u32 amount) (i32_of_u32 reward) s) in
    check_retry (next_retry s.par retry code) s'

-- A round of the loop of main, after get_balance. `draw` is the random number of the amount,
-- `user_pid` the receiver that was chosen.
unfoldable pub main_round : Timespec → ℤ → ℕ → ℤ → ℕ → UserState → Option Round
unfolding rand_between send_total
main_round now sent retry user_pid draw s =
    if leb 2 s.curr_balance
    then elim (update_status alive s) [
      | none ↦ none
      | some s' ↦ elim (rand_between draw 2 s'.curr_balance) [
        | none ↦ none
        | some total ↦ send_total now sent retry user_pid total s'
      ]
    ]
    else elim (update_status broke s) [ none ↦ none | some s' ↦ some (goes_on retry s') ]
