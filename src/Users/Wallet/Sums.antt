-- ===== src/Users/Wallet/Sums.antt =====
-- What the scan of get_balance of src/users.c leaves on the outgoing list, and what it sums up.
use simulazione_transazioni.Prelude.{
  ◌≡◌, refl, ap, ◌∙◌, List, [], ◌∷◌, if◌then◌else◌, Bool-cases, inl, inr,
}
use simulazione_transazioni.Prelude.Int.{ℤ, pos, ◌+ℤ◌, ◌-ℤ◌, ◌==ℤ◌, int_laws}
use simulazione_transazioni.Common.{Transaction}
use simulazione_transazioni.Users.State.{UserState}
use simulazione_transazioni.Users.Wallet.{Scan, scan_entry, scan_entries, scanned, accumulated}
use simulazione_transazioni.Users.Wallet.Count.{
  spent, received, visible, scan_ledger-visible, subtract_out_going-spent,
}
use simulazione_transazioni.Users.Wallet.Pending.{without, pending_after, own}

module _ (my_pid : ℤ) where
  scan_entry-without :
      (s : Scan) (t : Transaction)
      → (scan_entry my_pid s t).out_going ≡ without my_pid (t.sender ==ℤ my_pid) t s.out_going
  unfolding scan_entry
  scan_entry-without s t = elim (Bool-cases (t.sender ==ℤ my_pid)) [
    | inl mine ↦ rw mine refl
    | inr other ↦ elim (Bool-cases (t.receiver ==ℤ my_pid)) [
      | inl got ↦ rw (other, got) refl
      | inr theirs ↦ rw (other, theirs) refl
    ]
  ]

  scan_entry-sum :
      (s : Scan) (t : Transaction) (r : ℤ) (ts : List Transaction)
      → (scan_entry my_pid s t).accumulate +ℤ r -ℤ spent ts
        ≡ s.accumulate
          +ℤ ((if t.sender ==ℤ my_pid
                then pos 0
                else if t.receiver ==ℤ my_pid
                then t.amount
                else pos 0)
              +ℤ r)
          -ℤ spent (if t.sender ==ℤ my_pid then t ∷ ts else ts)
  unfolding scan_entry spent
  scan_entry-sum s t r ts = elim (Bool-cases (t.sender ==ℤ my_pid)) [
    | inl mine ↦ rw mine (omega int_laws)
    | inr other ↦ elim (Bool-cases (t.receiver ==ℤ my_pid)) [
      | inl got ↦ rw (other, got) (omega int_laws)
      | inr theirs ↦ rw (other, theirs) (omega int_laws)
    ]
  ]

  -- The scan of get_balance: the list that it leaves, and its sum.
  scan_entries-pending :
      (s : Scan) (ts : List Transaction)
      → ((scan_entries my_pid s ts).out_going ≡ pending_after my_pid ts s.out_going)
        × ((scan_entries my_pid s ts).accumulate
            ≡ s.accumulate +ℤ received my_pid ts -ℤ spent (own my_pid ts))
  unfolding scan_entries pending_after received own spent
  scan_entries-pending s [] = (refl, omega int_laws)
  scan_entries-pending s (t ∷ ts) =
      let (left, sum) = scan_entries-pending (scan_entry my_pid s t) ts in
      (
        left ∙ ap (pending_after my_pid ts) (scan_entry-without s t),
        sum ∙ scan_entry-sum s t (received my_pid ts) (own my_pid ts),
      )

module _ (s : UserState) where
  -- What is still on its way.
  abbrev pub pending : List Transaction
  pending = pending_after s.my_pid (visible s.ledger) s.out_going

  -- Both parts of the scan of the ledger.
  pub scanned-pending : (scanned s).out_going ≡ pending
  unfolding scanned
  scanned-pending =
      let start : Scan = record { out_going = s.out_going; accumulate = pos 0 } in
      ap (λ (x : Scan). x.out_going) (scan_ledger-visible s.my_pid start s.ledger)
      ∙ (scan_entries-pending s.my_pid start (visible s.ledger)).0

  pub accumulated-pending :
      accumulated s
      ≡ received s.my_pid (visible s.ledger)
        -ℤ spent (own s.my_pid (visible s.ledger))
        -ℤ spent pending
  unfolding accumulated scanned
  accumulated-pending =
      let start : Scan = record { out_going = s.out_going; accumulate = pos 0 } in
      let (left, sum) = scan_entries-pending s.my_pid start (visible s.ledger) in
      subtract_out_going-spent (scanned s).accumulate (scanned s).out_going
      ∙ ap (λ (x : Scan). x.accumulate -ℤ spent x.out_going)
          (scan_ledger-visible s.my_pid start s.ledger)
      ∙ (λ j. sum j -ℤ spent (left j))
      ∙ omega int_laws
