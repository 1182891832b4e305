-- ===== src/Users/Cycle/Life.antt =====
-- A user of src/users.c beside the other processes: its own passes, the blocks that the nodes add to
-- the ledger, and what others write to the array of users.
use simulazione_transazioni.Prelude.{
  ℕ, ◌^◌, ◌≤◌, ◌<◌, ◌≡◌, inl, inr, ◌∙◌, false, List, ◌++◌, some, get_elem?,
}
use simulazione_transazioni.Prelude.Int.{ℤ, pos, pos_part, ◌+ℤ◌, ◌-ℤ◌, ◌≤ℤ◌, int_laws}
use simulazione_transazioni.Common.{User, Transaction, Block, Timespec}
use mathlib.Core.Path.{subst}
use simulazione_transazioni.Users.State.{UserState, get_pid_user_index}
use simulazione_transazioni.Users.Wallet.{quiet, get_balance}
use simulazione_transazioni.Users.Wallet.Count.{spent, received, visible}
use simulazione_transazioni.Users.Wallet.Pending.{own, pending_after}
use simulazione_transazioni.Users.Wallet.Sums.{pending}
use simulazione_transazioni.Users.Wallet.Funds.{funds, refreshed, get_balance-refreshed}
use simulazione_transazioni.Users.Sending.{goes_on}
use simulazione_transazioni.Users.Cycle.{ran, user_cycle}
use simulazione_transazioni.Users.Cycle.Confirms.{
  Confirms, confirmed-spent, pending_after-append, received-append, spent-own-append,
}
use simulazione_transazioni.Users.Cycle.Fresh.{IsLater}
use simulazione_transazioni.Users.Cycle.Solvent.{IsSolvent}
use simulazione_transazioni.Users.Cycle.Spending.{user_cycle-Passes}

regroup :
    (b r r' o o' p' p : ℤ)
    → p' +ℤ o' ≡ p
    → b +ℤ (r +ℤ r' -ℤ (o +ℤ o') -ℤ p') ≡ b +ℤ (r -ℤ o -ℤ p) +ℤ r'
regroup b r r' o o' p' p e = rw (← e) (omega int_laws)

sum_funded : (a b : ℤ) → pos 0 ≤ℤ a → pos 0 ≤ℤ b → pos 0 ≤ℤ a +ℤ b
sum_funded a b h k = omega int_laws

-- A pass of the main loop: the time, the receiver, what send_message gives, the retries that are
-- left, the random number of the amount.
pub record Pass : Type 0 where
  pub now : Timespec
  pub to : ℤ
  pub sent : ℤ
  pub retry : ℕ
  pub draw : ℕ

module _ (i : ℕ) where
  -- What may happen between two states of a user.
  pub data Life (s : UserState) : UserState → Type 0 where
    starts : Life s s
    -- It goes through the main loop once more, at a time of its own.
    passes :
        {t t' : UserState} (p : Pass) (k : ℕ)
        → Life s t
        → IsLater p.now t.out_going
        → IsLater p.now (visible t.ledger)
        → 1 ≤ p.retry
        → p.retry < 2 ^ 32
        → user_cycle false p.now p.sent p.retry p.to p.draw t ≡ some (ran (goes_on k t'))
        → Life s t'
    -- Blocks are added: they confirm what is on its way, and pay the user.
    confirms :
        {t : UserState} (ledger : List Block) (ts : List Transaction)
        → Life s t
        → visible ledger ≡ visible t.ledger ++ ts
        → Confirms t.my_pid ts (pending t)
        → pos 0 ≤ℤ received t.my_pid ts
        → pos_part (funds t +ℤ received t.my_pid ts) < 2 ^ 31
        → Life s (record t { ledger = ledger })
    -- Another process writes to the array, and leaves the user where it is.
    shares :
        {t : UserState} (users : List User)
        → Life s t
        → get_pid_user_index t.par t.my_pid users ≡ pos i
        → Life s (record t { users_pid = users })

  funds-grow :
      (t : UserState) (ledger : List Block) (ts : List Transaction)
      → visible ledger ≡ visible t.ledger ++ ts
      → Confirms t.my_pid ts (pending t)
      → funds (record t { ledger = ledger }) ≡ funds t +ℤ received t.my_pid ts
  funds-grow t ledger ts more h =
      let me = t.my_pid in
      let old = visible t.ledger in
      (λ j.
        pos t.par.so_budget_init
        +ℤ (received me (more j)
            -ℤ spent (own me (more j))
            -ℤ spent (pending_after me (more j) t.out_going)))
      ∙ rw
          (
            received-append me old ts,
            spent-own-append me old ts,
            pending_after-append me old ts t.out_going,
          )
          (regroup (pos t.par.so_budget_init) (received me old) (received me ts)
            (spent (own me old)) (spent (own me ts)) (spent (pending_after me ts (pending t)))
            (spent (pending t)) (confirmed-spent me ts (pending t) h))

  grown-IsSolvent :
      (t : UserState) (ledger : List Block) (ts : List Transaction)
      → IsSolvent i t
      → visible ledger ≡ visible t.ledger ++ ts
      → Confirms t.my_pid ts (pending t)
      → pos 0 ≤ℤ received t.my_pid ts
      → pos_part (funds t +ℤ received t.my_pid ts) < 2 ^ 31
      → IsSolvent i (record t { ledger = ledger })
  grown-IsSolvent t ledger ts solvent more h paid small =
      let grown = funds-grow t ledger ts more h in
      record {
        at = solvent.at;
        distinct = solvent.distinct;
        funded = rw grown (sum_funded (funds t) (received t.my_pid ts) solvent.funded paid);
        bounded = rw grown small;
        low = solvent.low;
        tries = solvent.tries;
      }

  passes-IsSolvent :
      (t t' : UserState) (p : Pass) (k : ℕ)
      → IsSolvent i t
      → IsLater p.now t.out_going
      → IsLater p.now (visible t.ledger)
      → 1 ≤ p.retry
      → p.retry < 2 ^ 32
      → user_cycle false p.now p.sent p.retry p.to p.draw t ≡ some (ran (goes_on k t'))
      → IsSolvent i t'
  passes-IsSolvent t t' p k solvent fresh fresh' left small e =
      elim (user_cycle-Passes i p.now p.to p.sent p.retry p.draw t solvent fresh fresh' left
        small) [
          | inl (_, _, x, _, (f, ok, _)) ↦ let same : x ≡ t' = cc in subst (IsSolvent i) same ok
          | inr (x, inl (_, _, (f, ok, _))) ↦ let same : x ≡ t' = cc in subst (IsSolvent i) same ok
          | inr (x, inr (inl (_, _, (f, ok, _)))) ↦ cc
          | inr (x, inr (inr (_, (f, ok, _)))) ↦
              let same : x ≡ t' = cc in subst (IsSolvent i) same ok
        ]

  Life-IsSolvent : {s t : UserState} → IsSolvent i s → Life s t → IsSolvent i t
  Life-IsSolvent solvent starts = solvent
  Life-IsSolvent solvent (passes {t} {t'} p k life fresh fresh' left small e) =
      passes-IsSolvent t t' p k (Life-IsSolvent solvent life) fresh fresh' left small e
  Life-IsSolvent solvent (confirms {t} ledger ts life more h paid small) =
      grown-IsSolvent t ledger ts (Life-IsSolvent solvent life) more h paid small
  Life-IsSolvent solvent (shares users life at) =
      let before = Life-IsSolvent solvent life in
      record {
        at = at;
        distinct = before.distinct;
        funded = before.funded;
        bounded = before.bounded;
        low = before.low;
        tries = before.tries;
      }

  -- What get_balance finds at any time.
  abbrev pub IsCovered : UserState → Type 0
  IsCovered t =
      (u : User) × (get_elem? t.users_pid i ≡ some u)
      × (u.pid ≡ t.my_pid)
      × (pos 0 ≤ℤ funds t)
      × (get_balance false t ≡ some (refreshed t i u, quiet))

  -- For a user that stands in the array, with no two equal transactions on its outgoing list, funds
  -- that an `int` holds, a reward that is a percentage and retries: in whatever order it goes through
  -- its main loop, each time with a clock that no transaction it knows has and a retry left, nodes
  -- add blocks that confirm only what is on its way and pay it what an `int` still holds, and others
  -- write to the array without moving it, its funds are never negative, and get_balance raises
  -- nothing and writes just these funds to the entry of the user and to `currBalance`, and what is
  -- not on the ledger yet to the outgoing list.
  pub Life-IsCovered : {s t : UserState} → IsSolvent i s → Life s t → IsCovered t
  Life-IsCovered {t} solvent life =
      let ok = Life-IsSolvent solvent life in
      let (u, got, is, quiet_call) = get_balance-refreshed t i ok.at ok.funded in
      (u, got, is, ok.funded, quiet_call)
