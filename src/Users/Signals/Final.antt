-- ===== src/Users/Signals/Final.antt =====
-- What a user of src/users.c owns in the end.
use simulazione_transazioni.Prelude.{
  ℕ, ◌≡◌, refl, ap, ◌∙◌, ◌⊎◌, inl, inr, some, false, get_elem?, set, set-set,
}
use simulazione_transazioni.Prelude.Int.{ℤ, pos, negsuc, ◌+ℤ◌, ◌-ℤ◌, ◌≤ℤ◌, int_laws}
use simulazione_transazioni.Prelude.Words.{u32_of_ℤ}
use simulazione_transazioni.Common.{User, dead}
use simulazione_transazioni.Table.{index_loop-set, get-set_self}
use simulazione_transazioni.Users.State.{UserState, get_pid_user_index}
use simulazione_transazioni.Users.Wallet.{quiet, scanned, get_balance}
use simulazione_transazioni.Users.Wallet.Count.{spent, received, visible}
use simulazione_transazioni.Users.Wallet.Pending.{own}
use simulazione_transazioni.Users.Wallet.Sums.{scanned-pending, accumulated-pending}
use simulazione_transazioni.Users.Wallet.Balance.{settled, killed, get_balance-BalancesAt}
use simulazione_transazioni.Users.Wallet.Funds.{funds}
use simulazione_transazioni.Users.Handlers.{last_status}
use simulazione_transazioni.Users.Handlers.Refunds.{ended, user_interrupt_handle-ended}
use simulazione_transazioni.Users.Signals.{on_interrupt}

module _ (s : UserState) where
  -- What the ledger says that the user owns.
  abbrev pub confirmed_funds : ℤ
  confirmed_funds =
      pos s.par.so_budget_init
      +ℤ (received s.my_pid (visible s.ledger) -ℤ spent (own s.my_pid (visible s.ledger)))

  -- The entry of the user `u` in the end.
  abbrev pub final_entry : User → User
  final_entry u = record u {
    status = last_status (record u { balance = u32_of_ℤ (funds s) });
    balance = u32_of_ℤ confirmed_funds;
  }

  -- The entry becomes `v`, and no other changes.
  abbrev pub EndsWith : ℕ → User → Type 0
  EndsWith i v =
      (s' : UserState) × (on_interrupt false s ≡ some s') × (s'.users_pid ≡ set s.users_pid i v)

  abbrev pub Ends : ℕ → Type 0
  Ends i =
      (u : User) × (get_elem? s.users_pid i ≡ some u)
      × (((pos 0 ≤ℤ funds s) × EndsWith i (final_entry u))
          ⊎ ((funds s ≤ℤ negsuc 0) × EndsWith i (record u { status = dead })))

module _ (s : UserState) (i : ℕ) (at : get_pid_user_index s.par s.my_pid s.users_pid ≡ pos i) where
  -- What was subtracted for the transactions on their way is given back.
  given_back : funds s +ℤ spent (scanned s).out_going ≡ confirmed_funds s
  given_back = ap (λ out. funds s +ℤ spent out) (scanned-pending s) ∙ omega int_laws

  module _ (u : User) (got : get_elem? s.users_pid i ≡ some u) where
    after : UserState
    after = settled s i (funds s) u

    after-index : get_pid_user_index s.par s.my_pid after.users_pid ≡ pos i
    unfolding get_pid_user_index after
    after-index =
        index_loop-set (λ (x : User). x.pid) s.par.so_user_num 0 s.my_pid s.users_pid i
          (record u { balance = u32_of_ℤ (funds s) }) got refl
        ∙ at

    handled : get_balance false s ≡ some (after, quiet) → EndsWith s i (final_entry s u)
    unfolding on_interrupt after
    handled e =
        let v : User = record u { balance = u32_of_ℤ (funds s) } in
        (
          ended after i v (funds s),
          rw (on_interrupt, e)
              (user_interrupt_handle-ended after i v (funds s) after-index
                (get-set_self s.users_pid i v got) refl),
          set-set s.users_pid i v _ ∙ (λ j.
              set s.users_pid i
                (record v { status = last_status v; balance = u32_of_ℤ (given_back j) })),
        )

  pub on_interrupt-Ends : Ends s i
  unfolding after on_interrupt
  on_interrupt-Ends =
      let (u, got, _, cases) =
        get_balance-BalancesAt s i at (funds s)
          (ap (◌+ℤ◌ (pos s.par.so_budget_init)) (accumulated-pending s)) in
      (
        u,
        got,
        elim cases [
          | inl (above, e) ↦ inl (above, handled u got e)
          | inr (below, e) ↦ inr (below, (killed s i u, rw (on_interrupt, e) refl, refl))
        ],
      )
