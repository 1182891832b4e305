-- ===== src/Users/Cycle/Confirms.antt =====
-- Blocks that confirm what a user of src/users.c has sent: what moves from the outgoing list to the
-- ledger.
use simulazione_transazioni.Prelude.{
  ◌≡◌, inl, inr, refl, ap, Bool, true, false, List, [], ◌∷◌, ◌++◌, some, if◌then◌else◌, Bool-cases,
}
use simulazione_transazioni.Prelude.Int.{ℤ, pos_part, neg_part, ◌+ℤ◌, ◌==ℤ◌, int_laws}
use simulazione_transazioni.Common.{Transaction}
use simulazione_transazioni.LinkedList.Contents.{find_first}
use simulazione_transazioni.Users.Wallet.Count.{spent, received, SameCost, spent-remove_first}
use simulazione_transazioni.Users.Wallet.Pending.{without, own, pending_after}

cancel : (p o w x y : ℤ) → p +ℤ o ≡ w → w +ℤ x ≡ y +ℤ o → p +ℤ x ≡ y
cancel p o w x y e f = omega (int_laws, ap pos_part e, ap neg_part e, ap pos_part f, ap neg_part f)

module _ (my_pid : ℤ) where
  -- Each transaction of the user in `ts` is one of those on its way, which is then taken off.
  abbrev pub Confirms : List Transaction → List Transaction → Type 0
  Confirms [] out = Unit {0}
  Confirms (t ∷ ts) out =
      ((t.sender ==ℤ my_pid) ≡ true
        → (u : Transaction) × (find_first t out ≡ some u) × SameCost out t)
      × Confirms ts (without my_pid (t.sender ==ℤ my_pid) t out)

  confirm_one :
      (b : Bool) (t : Transaction) (out ts : List Transaction)
      → (b ≡ true → (u : Transaction) × (find_first t out ≡ some u) × SameCost out t)
      → spent (without my_pid b t out) +ℤ spent (if b then t ∷ ts else ts) ≡ spent out +ℤ spent ts
  unfolding spent
  confirm_one true t out ts h =
      let (u, found, same) = h refl in rw (spent-remove_first t u out same found) (omega int_laws)
  confirm_one false t out ts h = refl

  -- What is confirmed moves from the outgoing list to the ledger.
  pub confirmed-spent :
      (ts out : List Transaction)
      → Confirms ts out
      → spent (pending_after my_pid ts out) +ℤ spent (own my_pid ts) ≡ spent out
  unfolding pending_after own spent
  confirmed-spent [] out h = omega int_laws
  confirmed-spent (t ∷ ts) out h =
      cancel (spent (pending_after my_pid ts (without my_pid (t.sender ==ℤ my_pid) t out)))
        (spent (own my_pid ts)) (spent (without my_pid (t.sender ==ℤ my_pid) t out)) _ _
        (confirmed-spent ts (without my_pid (t.sender ==ℤ my_pid) t out) h.1)
        (confirm_one (t.sender ==ℤ my_pid) t out (own my_pid ts) h.0)

  pub pending_after-append :
      (ts us out : List Transaction)
      → pending_after my_pid (ts ++ us) out ≡ pending_after my_pid us (pending_after my_pid ts out)
  unfolding pending_after
  pending_after-append [] us out = refl
  pending_after-append (t ∷ ts) us out =
      pending_after-append ts us (without my_pid (t.sender ==ℤ my_pid) t out)

  pub received-append :
      (ts us : List Transaction)
      → received my_pid (ts ++ us) ≡ received my_pid ts +ℤ received my_pid us
  unfolding received
  received-append [] us = omega int_laws
  received-append (t ∷ ts) us = rw (received-append ts us) (omega int_laws)

  pub spent-own-append :
      (ts us : List Transaction)
      → spent (own my_pid (ts ++ us)) ≡ spent (own my_pid ts) +ℤ spent (own my_pid us)
  unfolding own spent
  spent-own-append [] us = omega int_laws
  spent-own-append (t ∷ ts) us = elim (Bool-cases (t.sender ==ℤ my_pid)) [
    | inl mine ↦ rw mine (rw (spent-own-append ts us) (omega int_laws))
    | inr other ↦ rw other (spent-own-append ts us)
  ]
