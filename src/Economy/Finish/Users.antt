-- ===== src/Economy/Finish/Users.antt =====
-- What the handlers of SIGINT of all users of src/users.c leave in the shared array.
use simulazione_transazioni.Prelude.{
  ℕ, zero, suc, ◌≤◌, ◌≡◌, refl, sym, ap, ◌∙◌, List, [], ◌∷◌, map, some, false, arith, inl, inr, All,
  length, length-set, Bool-cases,
}
use simulazione_transazioni.Prelude.Int.{ℤ, pos, ◌+ℤ◌, ◌≤ℤ◌, ◌==ℤ◌}
use simulazione_transazioni.Prelude.Words.{u32_of_ℤ}
use simulazione_transazioni.Common.{Parameters, User, Block}
use simulazione_transazioni.Table.{index_loop}
use simulazione_transazioni.Users.State.{UserState, get_pid_user_index}
use simulazione_transazioni.Users.Wallet.Count.{visible}
use simulazione_transazioni.Users.Wallet.Balance.{get_pid_user_index-some}
use simulazione_transazioni.Users.Wallet.Funds.{funds}
use simulazione_transazioni.Users.Signals.{on_interrupt}
use simulazione_transazioni.Users.Signals.Final.{final_entry, on_interrupt-Ends}
use simulazione_transazioni.Economy.{Once}
use simulazione_transazioni.Economy.Trade.{net}
use simulazione_transazioni.Economy.Conserved.{pids}
use simulazione_transazioni.Economy.Finish.{
  finish_users, IsAmong, Awaits, Writes, Writes-Awaits, Awaits-empty,
}

-- A pid that stands in the array is found.
pub index_loop-found :
    {A : Type 0} (pid_of : A → ℤ) (k j : ℕ) (p : ℤ) (xs : List A)
    → length xs ≤ k
    → IsAmong (map pid_of xs) p
    → (i : ℕ) × (index_loop pid_of k j p xs ≡ pos i)
unfolding index_loop
index_loop-found pid_of k j p [] long there = absurd (there refl)
index_loop-found pid_of zero j p (x ∷ xs) long there = absurd (omega arith)
index_loop-found pid_of (suc k) j p (x ∷ xs) long there = elim (Bool-cases (pid_of x ==ℤ p)) [
  | inl hit ↦ (j, rw hit refl)
  | inr miss ↦
      let apart : (p ==ℤ pid_of x) ≡ false = ground arith in
      let further : IsAmong (map pid_of xs) p = (λ z. there (rw apart (omega arith))) in
      let (i, e) = index_loop-found pid_of k (suc j) p xs (omega arith) further in (i, rw miss e)
]

-- `read p` is the ledger as the user with pid `p` reads it.
module _ (par : Parameters) (read : ℤ → List Block) where
  -- What that ledger says that the user owns.
  abbrev pub owned : ℤ → ℤ
  owned p = pos par.so_budget_init +ℤ net (visible (read p)) p

  abbrev pub HasOwned : User → Type 0
  HasOwned u = u.balance ≡ u32_of_ℤ (owned u.pid)

  -- A user process of this simulation, whose budget and receipts cover what it sent, on the ledger
  -- or on its way.
  abbrev pub IsOurs : UserState → Type 0
  IsOurs s = (s.ledger ≡ read s.my_pid) × (s.par ≡ par) × (pos 0 ≤ℤ funds s)

  on_interrupt-Writes :
      (s : UserState) (users : List User)
      → IsOurs s
      → length users ≡ par.so_user_num
      → IsAmong (map (λ (u : User). u.pid) users) s.my_pid
      → (s' : UserState) × (on_interrupt false (record s { users_pid = users }) ≡ some s')
        × Writes (λ (u : User). u.pid) HasOwned s.my_pid users s'.users_pid
  unfolding get_pid_user_index
  on_interrupt-Writes s users ours size there =
      let t = record s { users_pid = users } in
      let (i, at) =
        index_loop-found (λ (u : User). u.pid) s.par.so_user_num 0 s.my_pid users
          (rw ours.1 (omega (arith, size))) there in
      let (w, got', is, _) = get_pid_user_index-some s.par s.my_pid users i at in
      let (u, got, cases) = on_interrupt-Ends t i at in
      let mine : u.pid ≡ s.my_pid = (let same : u ≡ w = cc in cc) in
      elim cases [
        | inl (_, (s', done, left)) ↦ (
          s',
          done,
          record {
            index = i;
            old = u;
            new = final_entry t u;
            got = got;
            was = mine;
            is = mine;
            good =
                (λ j.
                  u32_of_ℤ (pos ((ours.1 j).so_budget_init) +ℤ net (visible (ours.0 j)) s.my_pid))
                ∙ ap (λ (p : ℤ). u32_of_ℤ (owned p)) (sym mine);
            result = left;
          },
        )
        | inr (below, _) ↦ let above = ours.2 in absurd (omega arith)
      ]

  -- Every user of the array is handled by one of the processes, and its pid stands there once.
  pub finish_users-HasOwned :
      (us : List UserState) (users : List User)
      → All IsOurs us
      → length users ≡ par.so_user_num
      → All (λ (s : UserState). Once (map (λ (u : User). u.pid) users) s.my_pid) us
      → All (Awaits (λ (u : User). u.pid) HasOwned (pids us)) users
      → (users' : List User) × (finish_users us users ≡ some users')
        × All HasOwned users'
        × (map (λ (u : User). u.pid) users' ≡ map (λ (u : User). u.pid) users)
        × (length users' ≡ length users)
  unfolding finish_users
  finish_users-HasOwned [] users ours size once awaits =
      (users, refl, Awaits-empty (λ (u : User). u.pid) HasOwned users awaits, refl, refl)
  finish_users-HasOwned (s ∷ us) users ours size once awaits =
      let (s', done, writes) =
        on_interrupt-Writes s users ours.0 size (λ z. omega (arith, once.0)) in
      let (left, same) =
        Writes-Awaits (λ (u : User). u.pid) HasOwned s.my_pid (pids us) users s'.users_pid writes
          once.0 awaits in
      let count : length s'.users_pid ≡ length users =
        ap (λ (xs : List User). length xs) writes.result
        ∙ length-set users writes.index writes.new in
      let (users', rest, owned_all, same', count') =
        finish_users-HasOwned us s'.users_pid ours.1 (count ∙ size) (rw same once.1) left in
      (users', rw (finish_users, done) rest, owned_all, same' ∙ same, count' ∙ count)
