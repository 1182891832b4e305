-- ===== src/Users/Wallet/Funds.antt =====
-- What a user of src/users.c owns: the budget, less what it sent, on its way or on the ledger, and
-- what it received; and a second call of get_balance.
use simulazione_transazioni.Prelude.{
  ℕ, ◌≡◌, refl, ap, ◌∙◌, false, List, some, arith, inl, inr, get_elem?, set, set-set,
}
use simulazione_transazioni.Prelude.Int.{ℤ, pos, ◌+ℤ◌, ◌-ℤ◌, ◌≤ℤ◌}
use simulazione_transazioni.Prelude.Words.{u32_of_ℤ}
use simulazione_transazioni.Table.{index_loop-set, get-set_self}
use simulazione_transazioni.Common.{User, Transaction}
use simulazione_transazioni.Users.State.{UserState, get_pid_user_index}
use simulazione_transazioni.Users.Wallet.{quiet, get_balance}
use simulazione_transazioni.Users.Wallet.Count.{spent, received, visible}
use simulazione_transazioni.Users.Wallet.Pending.{
  Distinct, pending_after, own, pending_after-missing, pending_after-Clear,
}
use simulazione_transazioni.Users.Wallet.Sums.{pending, scanned-pending, accumulated-pending}
use simulazione_transazioni.Users.Wallet.Balance.{settled, get_balance-BalancesAt}

module _ (s : UserState) where
  abbrev pub funds : ℤ
  funds =
      pos s.par.so_budget_init
      +ℤ (received s.my_pid (visible s.ledger)
          -ℤ spent (own s.my_pid (visible s.ledger))
          -ℤ spent (pending s))

  -- The state after get_balance, for the user `u`.
  abbrev pub refreshed : ℕ → User → UserState
  refreshed i u = record s {
    out_going = pending s;
    curr_balance = u32_of_ℤ funds;
    users_pid = set s.users_pid i (record u { balance = u32_of_ℤ funds });
  }

module _ (s : UserState) (i : ℕ) (at : get_pid_user_index s.par s.my_pid s.users_pid ≡ pos i)
    (funded : pos 0 ≤ℤ funds s) where
  settled-refreshed : (u : User) → settled s i (funds s) u ≡ refreshed s i u
  settled-refreshed u = λ j. record (refreshed s i u) { out_going = scanned-pending s j }

  pub get_balance-refreshed :
      (u : User) × (get_elem? s.users_pid i ≡ some u)
      × (u.pid ≡ s.my_pid)
      × (get_balance false s ≡ some (refreshed s i u, quiet))
  get_balance-refreshed =
      let (u, got, is, cases) =
        get_balance-BalancesAt s i at (funds s)
          (ap (◌+ℤ◌ (pos s.par.so_budget_init)) (accumulated-pending s)) in
      (
        u,
        got,
        is,
        elim cases [
          | inl (_, e) ↦ e ∙ ap (λ (x : UserState). some (x, quiet)) (settled-refreshed u)
          | inr (below, _) ↦ absurd (omega arith)
        ],
      )

  pub refreshed-index :
      (u : User)
      → get_elem? s.users_pid i ≡ some u
      → get_pid_user_index s.par s.my_pid (refreshed s i u).users_pid ≡ pos i
  unfolding get_pid_user_index
  refreshed-index u got =
      index_loop-set (λ (x : User). x.pid) s.par.so_user_num 0 s.my_pid s.users_pid i
        (record u { balance = u32_of_ℤ (funds s) }) got refl
      ∙ at

-- With no two equal transactions on the list, a second call finds the same.
pub pending-again :
    (s : UserState)
    → Distinct s.out_going
    → pending_after s.my_pid (visible s.ledger) (pending s) ≡ pending s
pending-again s distinct =
    pending_after-missing s.my_pid (visible s.ledger) (pending s)
      (pending_after-Clear s.my_pid (visible s.ledger) s.out_going distinct)

-- The same list on its way makes the same funds.
pub funds-pending :
    (s : UserState) {out : List Transaction}
    → out ≡ pending s
    → pos s.par.so_budget_init
        +ℤ (received s.my_pid (visible s.ledger)
            -ℤ spent (own s.my_pid (visible s.ledger))
            -ℤ spent out)
      ≡ funds s
funds-pending s e =
    ap
      (λ (out : List Transaction).
        pos s.par.so_budget_init
        +ℤ (received s.my_pid (visible s.ledger)
            -ℤ spent (own s.my_pid (visible s.ledger))
            -ℤ spent out))
      e

module _ (s : UserState) (i : ℕ) where
  -- A call of get_balance, and a second one.
  abbrev pub SameAgain : Type 0
  SameAgain =
      (s' : UserState) × (get_balance false s ≡ some (s', quiet))
      × (get_balance false s' ≡ some (s', quiet))

  -- For a user that stands in the array, with no two equal transactions on its outgoing list, and
  -- whose budget and receipts cover what it sent: get_balance raises nothing, and a second call of it
  -- on the same ledger leaves the state just as the first one did, though the outgoing list is
  -- shorter by then.
  pub get_balance_again :
      get_pid_user_index s.par s.my_pid s.users_pid ≡ pos i
      → Distinct s.out_going
      → pos 0 ≤ℤ funds s
      → SameAgain
  get_balance_again at distinct funded =
      let (u, got, is, first) = get_balance-refreshed s i at funded in
      let s' = refreshed s i u in
      let same : funds s' ≡ funds s = funds-pending s (pending-again s distinct) in
      let (u', got', _, second) =
        get_balance-refreshed s' i (refreshed-index s i at funded u got) (rw same funded) in
      let v : User = record u { balance = u32_of_ℤ (funds s) } in
      let is_v : u' ≡ v = (let there = get-set_self s.users_pid i v got in cc) in
      let users : set s'.users_pid i (record u' { balance = u32_of_ℤ (funds s') }) ≡ s'.users_pid =
        set-set s.users_pid i v (record u' { balance = u32_of_ℤ (funds s') })
        ∙ (λ j. set s.users_pid i (record (is_v j) { balance = u32_of_ℤ (same j) })) in
      (
        s',
        first,
        second ∙ (λ j. some (
          record s {
            out_going = pending-again s distinct j;
            curr_balance = u32_of_ℤ (same j);
            users_pid = users j;
          },
          quiet,
        )),
      )
