-- ===== src/Users/Wallet/Balance.antt =====
-- What get_balance of src/users.c leaves in `currBalance`, in the shared array, and what it raises.
use mathlib.Core.Path.{subst}
use simulazione_transazioni.Prelude.{
  ℕ, ◌<◌, ◌≡◌, ap, ◌∙◌, Bool, true, false, List, some, arith, Bool-cases, inl, inr, ◌⊎◌, get_elem?,
  set,
}
use simulazione_transazioni.Prelude.Int.{
  ℤ, pos, negsuc, ◌+ℤ◌, ◌-ℤ◌, ◌≤ℤ◌, ltb_ℤ, +ℤ_parts, -ℤ_parts,
}
use simulazione_transazioni.Prelude.Words.{u32_of_ℤ}
use simulazione_transazioni.Table.{index_loop-some, update_at-some}
use simulazione_transazioni.Common.{User, UserStatus, dead, Parameters}
use simulazione_transazioni.Users.State.{
  UserState, get_pid_user_index, write_users, update_status, update_balance,
}
use simulazione_transazioni.Users.Wallet.{
  quiet, crashed, scanned, accumulated, is_overdrawn, settle, get_balance,
}
use simulazione_transazioni.Users.Wallet.Count.{SameCosts, visible, gained, accumulated-gained}

-- An index that get_pid_userIndex returns is that of a user with the pid asked for.
pub get_pid_user_index-some :
    (par : Parameters) (pid : ℤ) (users : List User) (j : ℕ)
    → get_pid_user_index par pid users ≡ pos j
    → (u : User) × (get_elem? users j ≡ some u) × (u.pid ≡ pid) × (j < par.so_user_num)
unfolding get_pid_user_index
get_pid_user_index-some par pid users j e =
    index_loop-some (λ (u : User). u.pid) par.so_user_num pid users j e

-- The budget and what was gained since.
abbrev pub wealth : UserState → ℤ
wealth s = pos s.par.so_budget_init +ℤ gained s

module _ (s : UserState) (i : ℕ) (at : get_pid_user_index s.par s.my_pid s.users_pid ≡ pos i) where
  update_balance-some :
      (b : ℕ) (u : User)
      → get_elem? s.users_pid i ≡ some u
      → update_balance b s
        ≡ some (record s {
          curr_balance = b;
          users_pid = set s.users_pid i (record u { balance = b });
        })
  unfolding update_balance write_users
  update_balance-some b u got =
      rw
        (at, update_at-some s.users_pid i (λ (x : User). record x { balance = b }) got, write_users)

  pub update_status-some :
      (st : UserStatus) (u : User)
      → get_elem? s.users_pid i ≡ some u
      → update_status st s
        ≡ some (record s { users_pid = set s.users_pid i (record u { status = st }) })
  unfolding update_status write_users
  update_status-some st u got =
      rw
        (at, update_at-some s.users_pid i (λ (x : User). record x { status = st }) got, write_users)

module _ (s : UserState) (i : ℕ) where
  -- The state after the last statement for the balance `w`: wrapped to an `unsigned int`, it is in
  -- `currBalance` and in the entry `u` of this user; no other entry changes.
  abbrev pub settled : ℤ → User → UserState
  settled w u = record s {
    out_going = (scanned s).out_going;
    curr_balance = u32_of_ℤ w;
    users_pid = set s.users_pid i (record u { balance = u32_of_ℤ w });
  }

  -- The state of a user that is killed: the entry `u` is marked dead, and keeps its balance.
  abbrev pub killed : User → UserState
  killed u = record s {
    out_going = (scanned s).out_going;
    users_pid = set s.users_pid i (record u { status = dead });
  }

  -- What get_balance does when the balance is `w`.
  abbrev pub BalancesAt : ℤ → Type 0
  BalancesAt w =
      (u : User) × (get_elem? s.users_pid i ≡ some u)
      × (u.pid ≡ s.my_pid)
      × (((pos 0 ≤ℤ w) × (get_balance false s ≡ some (settled w u, quiet)))
          ⊎ ((w ≤ℤ negsuc 0) × (get_balance false s ≡ some (killed u, crashed))))

  abbrev pub Balances : Type 0
  Balances = BalancesAt (wealth s)

overdrawn_iff :
    (b : ℕ) (a : ℤ)
    → ((is_overdrawn b a ≡ true) × (pos b +ℤ a ≤ℤ negsuc 0))
      ⊎ ((is_overdrawn b a ≡ false) × (pos 0 ≤ℤ pos b +ℤ a))
unfolding is_overdrawn
overdrawn_iff b a = elim (Bool-cases (ltb_ℤ (pos b) (pos 0 -ℤ a))) [
  | inl over ↦ inl (over, ground (arith, +ℤ_parts (pos b) a, -ℤ_parts (pos 0) a))
  | inr under ↦ inr (under, ground (arith, +ℤ_parts (pos b) a, -ℤ_parts (pos 0) a))
]

module _ (s : UserState) (i : ℕ) (at : get_pid_user_index s.par s.my_pid s.users_pid ≡ pos i)
    (w : ℤ) (sum : pos s.par.so_budget_init +ℤ accumulated s ≡ w) where
  left : UserState
  left = record s { out_going = (scanned s).out_going }

  settle-quiet :
      (b : ℕ) (u : User)
      → get_elem? s.users_pid i ≡ some u
      → settle false false b left
        ≡ some (
          record left {
            curr_balance = b;
            users_pid = set s.users_pid i (record u { balance = b });
          },
          quiet,
        )
  unfolding settle left
  settle-quiet b u got = rw (update_balance-some left i at b u got, settle)

  settle-crashed :
      (b : ℕ) (u : User)
      → get_elem? s.users_pid i ≡ some u
      → settle true false b left ≡ some (killed s i u, crashed)
  unfolding settle left
  settle-crashed b u got = rw (update_status-some left i at dead u got, settle)

  -- The two arguments of the last statements, replaced.
  get_balance-settle :
      {over : Bool}
      → is_overdrawn s.par.so_budget_init (accumulated s) ≡ over
      → get_balance false s ≡ settle over false (u32_of_ℤ w) left
  unfolding get_balance left
  get_balance-settle e = λ j. settle (e j) false (u32_of_ℤ (sum j)) left

  -- The balance is `budget + accumulated`, whatever that is otherwise.
  pub get_balance-BalancesAt : BalancesAt s i w
  unfolding left
  get_balance-BalancesAt =
      let (u, got, is, _) = get_pid_user_index-some s.par s.my_pid s.users_pid i at in
      (
        u,
        got,
        is,
        elim (overdrawn_iff s.par.so_budget_init (accumulated s)) [
          | inl (over, below) ↦ inr (
            subst (λ x. x ≤ℤ negsuc 0) sum below,
            get_balance-settle over ∙ settle-crashed _ u got,
          )
          | inr (fine, above) ↦
              inl
                (subst (λ x. pos 0 ≤ℤ x) sum above, get_balance-settle fine ∙ settle-quiet _ u got)
        ],
      )

-- For a user that stands in the array, whose outgoing transactions cost what their copies on the
-- ledger cost, and with no ERANGE pending, get_balance computes the initial budget, plus what
-- others have sent to the user, less what the user has sent: every transaction of the outgoing
-- list once, whether it is on the ledger by now or not, and the ones on the ledger that were taken
-- off the list before. If that is not negative, `currBalance` and the balance of the user in the
-- array become it, modulo 2 ^ 32, and nothing is raised. If it is negative, the user is marked dead,
-- its balances stay as they were, and the print that follows kills it.
pub get_balance-Balances :
    (s : UserState) (i : ℕ)
    → get_pid_user_index s.par s.my_pid s.users_pid ≡ pos i
    → SameCosts s.out_going (visible s.ledger)
    → Balances s i
get_balance-Balances s i at same =
    get_balance-BalancesAt s i at (wealth s)
      (ap (◌+ℤ◌ (pos s.par.so_budget_init)) (accumulated-gained s same))
