-- ===== src/Users/Cycle/Solvent.antt =====
-- The main loop of src/users.c never spends what the user does not have.
use simulazione_transazioni.Prelude.{
  ℕ, ◌^◌, ◌≤◌, ◌<◌, ◌≡◌, ◌≢◌, sym, ap, ◌∙◌, List, [], ◌∷◌, ◌++◌, arith,
}
use simulazione_transazioni.Prelude.Int.{
  ℤ, pos, negsuc, pos_part, neg_part, ◌+ℤ◌, ◌≤ℤ◌, +ℤ_parts, int_laws,
}
use simulazione_transazioni.Prelude.Words.{u32_of_ℤ}
use simulazione_transazioni.Common.{User, MsgbufTrans, Transaction}
use simulazione_transazioni.Users.State.{UserState, get_pid_user_index}
use simulazione_transazioni.Users.Wallet.{cost}
use simulazione_transazioni.Users.Wallet.Count.{spent, visible}
use simulazione_transazioni.Users.Wallet.Pending.{
  Distinct, pending_after, pending_after-missing, pending_after-Clear, pending_after-All,
  pending_after-Distinct,
}
use simulazione_transazioni.Users.Wallet.Sums.{pending}
use simulazione_transazioni.Users.Wallet.Funds.{funds, pending-again, funds-pending}
use simulazione_transazioni.Users.Cycle.Fresh.{IsLater, Distinct-snoc, Clear-snoc, spent-snoc}

-- A user that stands in the array, whose transactions on the way differ, and that owns an amount
-- that an `int` holds; the reward is a percentage, and there are retries.
pub record IsSolvent (i : ℕ) (s : UserState) : Type 0 where
  pub at : get_pid_user_index s.par s.my_pid s.users_pid ≡ pos i
  pub distinct : Distinct s.out_going
  pub funded : pos 0 ≤ℤ funds s
  pub bounded : pos_part (funds s) < 2 ^ 31
  pub low : s.par.so_reward ≤ 100
  pub tries : s.par.so_retry ≢ 0

-- The balance of a user with such funds.
pub u32_of_ℤ_small : (a : ℤ) → pos 0 ≤ℤ a → pos_part a < 2 ^ 31 → u32_of_ℤ a ≡ pos_part a
unfolding u32_of_ℤ
u32_of_ℤ_small (pos n) h k = omega arith
u32_of_ℤ_small (negsuc n) h k = absurd (omega arith)

left_over :
    (a b : ℤ) (n : ℕ)
    → a ≡ b +ℤ pos n
    → pos n ≤ℤ a
    → pos_part a < 2 ^ 31
    → (pos 0 ≤ℤ b) × (pos_part b < 2 ^ 31)
left_over a (pos m) n e enough small =
    let p = ap pos_part e in
    let q = ap neg_part e in
    let l = +ℤ_parts (pos m) (pos n) in (omega (arith, p, q, l), omega (arith, p, q, l))
left_over a (negsuc m) n e enough small =
    let p = ap pos_part e in
    let q = ap neg_part e in let l = +ℤ_parts (negsuc m) (pos n) in absurd (omega (arith, p, q, l))

module _ (i : ℕ) (s : UserState) (solvent : IsSolvent i s) where
  -- What a round may change: the balance, the array and the message, and the list to `out`.
  abbrev pub moved : List Transaction → List User → ℕ → MsgbufTrans → UserState
  moved out users b m = record s {
    out_going = out;
    users_pid = users;
    curr_balance = b;
    trans_msg = m;
  }

  pending-Distinct : Distinct (pending s)
  pending-Distinct = pending_after-Distinct s.my_pid (visible s.ledger) s.out_going solvent.distinct

  module _ (users : List User) (b : ℕ) (m : MsgbufTrans)
      (at : get_pid_user_index s.par s.my_pid users ≡ pos i) where
    -- The list is what is on its way.
    pub kept-IsSolvent :
        IsSolvent i (moved (pending s) users b m)
        × (funds s ≡ funds (moved (pending s) users b m) +ℤ pos 0)
    kept-IsSolvent =
        let same = funds-pending s (pending-again s solvent.distinct) in
        (
          record {
            at = at;
            distinct = pending-Distinct;
            funded = rw same solvent.funded;
            bounded = rw same solvent.bounded;
            low = solvent.low;
            tries = solvent.tries;
          },
          sym same ∙ omega int_laws,
        )

    -- One more transaction is on the list, with a time of its own.
    pub spends-IsSolvent :
        (x : Transaction) (total : ℕ)
        → IsLater x.timestamp s.out_going
        → IsLater x.timestamp (visible s.ledger)
        → cost x ≡ pos total
        → pos total ≤ℤ funds s
        → IsSolvent i (moved (pending s ++ x ∷ []) users b m)
          × (funds s ≡ funds (moved (pending s ++ x ∷ []) users b m) +ℤ pos total)
    spends-IsSolvent x total fresh fresh' costs enough =
        let later =
          pending_after-All s.my_pid (λ (t : Transaction). t.timestamp ≢ x.timestamp)
            (visible s.ledger) s.out_going fresh in
        let clear =
          Clear-snoc x s.my_pid (visible s.ledger) (pending s)
            (pending_after-Clear s.my_pid (visible s.ledger) s.out_going solvent.distinct) fresh' in
        let left = pending_after-missing s.my_pid (visible s.ledger) (pending s ++ x ∷ []) clear in
        let less : spent (pending_after s.my_pid (visible s.ledger) (pending s ++ x ∷ []))
            ≡ spent (pending s) +ℤ pos total =
          ap spent left ∙ spent-snoc x (pending s) ∙ ap (◌+ℤ◌ (spent (pending s))) costs in
        let split : funds s ≡ funds (moved (pending s ++ x ∷ []) users b m) +ℤ pos total =
          rw less (omega int_laws) in
        let rest = left_over (funds s) _ total split enough solvent.bounded in
        (
          record {
            at = at;
            distinct = Distinct-snoc x (pending s) pending-Distinct later;
            funded = rest.0;
            bounded = rest.1;
            low = solvent.low;
            tries = solvent.tries;
          },
          split,
        )
