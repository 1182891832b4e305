-- ===== src/Users/Handlers/Refunds.antt =====
-- What user_interrupt_handle of src/users.c gives back to the user.
use simulazione_transazioni.Prelude.{ℕ, ◌≡◌, ap, ◌∙◌, List, [], ◌∷◌, some, arith, get_elem?, set}
use simulazione_transazioni.Prelude.Int.{ℤ, pos, negsuc, ◌+ℤ◌, int_laws}
use simulazione_transazioni.Prelude.Words.{u32_of_ℤ}
use simulazione_transazioni.Table.{update_at-some}
use simulazione_transazioni.Common.{User, Transaction}
use simulazione_transazioni.Users.State.{UserState, get_pid_user_index, write_users}
use simulazione_transazioni.Users.Wallet.{cost}
use simulazione_transazioni.Users.Wallet.Count.{spent}
use simulazione_transazioni.Users.Handlers.{refund, last_status, user_interrupt_handle}

-- A sum that is wrapped on the way is the sum, wrapped.
wrap_add : (a c : ℤ) → u32_of_ℤ (pos (u32_of_ℤ a) +ℤ c) ≡ u32_of_ℤ (a +ℤ c)
unfolding u32_of_ℤ ◌+ℤ◌
wrap_add (pos a) (pos c) = ground arith
wrap_add (pos a) (negsuc c) = ground arith
wrap_add (negsuc a) (pos c) = ground arith
wrap_add (negsuc a) (negsuc c) = ground arith

refund-spent : (a : ℤ) (ts : List Transaction) → refund (u32_of_ℤ a) ts ≡ u32_of_ℤ (a +ℤ spent ts)
unfolding refund spent
refund-spent a [] = ap u32_of_ℤ (omega int_laws)
refund-spent a (t ∷ ts) =
    ap (λ (b : ℕ). refund b ts) (wrap_add a (cost t))
    ∙ refund-spent (a +ℤ cost t) ts
    ∙ ap u32_of_ℤ (omega int_laws)

module _ (s : UserState) (i : ℕ) (u : User) (a : ℤ) where
  -- The state that the handler leaves.
  abbrev pub ended : UserState
  ended = record s {
    users_pid =
        set s.users_pid i
          (record u { status = last_status u; balance = u32_of_ℤ (a +ℤ spent s.out_going) });
  }

  -- For a user that stands in the array, with a balance that is the integer `a` modulo 2 ^ 32, the
  -- handler of SIGINT leaves as its balance `a` and the cost of all its outgoing transactions,
  -- modulo 2 ^ 32: what is not confirmed is given back, however the sums wrap on the way. The user
  -- stays dead if it was, and else is alive if it had 2 units or more before, and broke if not. No
  -- other entry changes.
  pub user_interrupt_handle-ended :
      get_pid_user_index s.par s.my_pid s.users_pid ≡ pos i
      → get_elem? s.users_pid i ≡ some u
      → u.balance ≡ u32_of_ℤ a
      → user_interrupt_handle s ≡ some ended
  unfolding user_interrupt_handle write_users
  user_interrupt_handle-ended at got e =
      let back : refund u.balance s.out_going ≡ u32_of_ℤ (a +ℤ spent s.out_going) =
        ap (λ (b : ℕ). refund b s.out_going) e ∙ refund-spent a s.out_going in
      let at_end =
        update_at-some s.users_pid i
          (λ (w : User). record w {
            status = last_status w;
            balance = refund w.balance s.out_going;
          })
          got in
      rw (user_interrupt_handle, at, at_end, write_users)
        (λ j. some (record s {
          users_pid = set s.users_pid i (record u { status = last_status u; balance = back j });
        }))
