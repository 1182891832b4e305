-- ===== src/Users/Wallet/Count.antt =====
-- The sum that get_balance of src/users.c makes, as a difference of what was received and what was
-- sent: a transaction of the user counts once, on its way or on the ledger.
use simulazione_transazioni.Prelude.{
  ◌≡◌, refl, sym, ap, ◌∙◌, true, false, List, [], ◌∷◌, ◌++◌, none, some, arith, if◌then◌else◌, ◌==◌,
  Bool-cases, Option-cases, inl, inr, All,
}
use simulazione_transazioni.Prelude.Int.{ℤ, pos, ◌+ℤ◌, ◌-ℤ◌, ◌==ℤ◌, int_laws}
use simulazione_transazioni.Common.{Transaction, Block}
use simulazione_transazioni.LinkedList.{compare_transactions}
use simulazione_transazioni.LinkedList.Contents.{find_first, remove_first}
use simulazione_transazioni.Users.State.{UserState}
use simulazione_transazioni.Users.Wallet.{
  cost, Scan, scan_entry, scan_entries, block_flag, entries, scan_ledger, subtract_out_going,
  scanned, accumulated,
}

-- What the transactions of a list cost their sender.
unfoldable pub spent : List Transaction → ℤ
spent [] = pos 0
spent (t ∷ ts) = cost t +ℤ spent ts

module _ (my_pid : ℤ) where
  -- What the user receives from others.
  unfoldable pub received : List Transaction → ℤ
  received [] = pos 0
  received (t ∷ ts) =
      (if t.sender ==ℤ my_pid then pos 0 else if t.receiver ==ℤ my_pid then t.amount else pos 0)
      +ℤ received ts

  -- The transactions of the user that were taken off the outgoing list before.
  unfoldable pub unlisted : List Transaction → List Transaction → List Transaction
  unlisted [] out = []
  unlisted (t ∷ ts) out =
      let later = unlisted ts (remove_first t out) in
      let rest = unlisted ts out in
      if t.sender ==ℤ my_pid
      then elim (find_first t out) [ none ↦ t ∷ later | some _ ↦ later ]
      else rest

-- A transaction on the ledger costs as much as the one of the outgoing list that compares equal.
abbrev pub SameCost : List Transaction → Transaction → Type 0
SameCost out t = All (λ u. compare_transactions u t ≡ true → cost u ≡ cost t) out

abbrev pub SameCosts : List Transaction → List Transaction → Type 0
SameCosts out = All (SameCost out)

pub All-remove_first :
    (P : Transaction → Type 0) (t : Transaction) (us : List Transaction)
    → All P us
    → All P (remove_first t us)
unfolding remove_first
All-remove_first P t [] h = tt
All-remove_first P t (u ∷ us) h = elim (Bool-cases (compare_transactions u t)) [
  | inl hit ↦ rw hit h.1
  | inr miss ↦ rw miss (h.0, All-remove_first P t us h.1)
]

SameCosts-remove_first :
    (t : Transaction) (out ts : List Transaction)
    → SameCosts out ts
    → SameCosts (remove_first t out) ts
SameCosts-remove_first t out [] h = tt
SameCosts-remove_first t out (x ∷ ts) h =
    (All-remove_first _ t out h.0, SameCosts-remove_first t out ts h.1)

remove_first-none :
    (t : Transaction) (out : List Transaction) → find_first t out ≡ none → remove_first t out ≡ out
unfolding find_first remove_first
remove_first-none t [] e = refl
remove_first-none t (u ∷ us) e = ground (arith, remove_first-none t us)

pub spent-remove_first :
    (t u : Transaction) (out : List Transaction)
    → SameCost out t
    → find_first t out ≡ some u
    → spent out ≡ cost t +ℤ spent (remove_first t out)
unfolding find_first remove_first spent
spent-remove_first t u [] h e = cc
spent-remove_first t u (x ∷ us) h e = elim (Bool-cases (compare_transactions x t)) [
  | inl hit ↦ rw (hit, h.0 hit)
  | inr miss ↦
      rw (miss, spent-remove_first t u us h.1 (rw (miss, find_first) at e)) (omega int_laws)
]

-- What a scan is worth: what it has summed up, less what is on its way.
abbrev worth : Scan → ℤ
worth s = s.accumulate -ℤ spent s.out_going

module _ (my_pid : ℤ) where
  own-none :
      (s : Scan) (t : Transaction) (r v : ℤ)
      → find_first t s.out_going ≡ none
      → s.accumulate -ℤ cost t -ℤ spent (remove_first t s.out_going) +ℤ r -ℤ v
        ≡ worth s +ℤ (pos 0 +ℤ r) -ℤ (cost t +ℤ v)
  own-none s t r v e = rw (remove_first-none t s.out_going e) (omega int_laws)

  own-some :
      (s : Scan) (t u : Transaction) (r v : ℤ)
      → SameCost s.out_going t
      → find_first t s.out_going ≡ some u
      → s.accumulate -ℤ cost t -ℤ spent (remove_first t s.out_going) +ℤ r -ℤ v
        ≡ worth s +ℤ (pos 0 +ℤ r) -ℤ v
  own-some s t u r v h e = rw (spent-remove_first t u s.out_going h e) (omega int_laws)

  scan_entry-own :
      (s : Scan) (t : Transaction)
      → (t.sender ==ℤ my_pid) ≡ true
      → scan_entry my_pid s t
        ≡ record s { out_going = remove_first t s.out_going; accumulate = s.accumulate -ℤ cost t }
  unfolding scan_entry
  scan_entry-own s t own = rw own

  scan_entry-mine :
      (s : Scan) (t : Transaction)
      → (t.sender ==ℤ my_pid) ≡ false
      → (t.receiver ==ℤ my_pid) ≡ true
      → scan_entry my_pid s t ≡ record s { accumulate = s.accumulate +ℤ t.amount }
  unfolding scan_entry
  scan_entry-mine s t other mine = rw (other, mine)

  scan_entry-theirs :
      (s : Scan) (t : Transaction)
      → (t.sender ==ℤ my_pid) ≡ false
      → (t.receiver ==ℤ my_pid) ≡ false
      → scan_entry my_pid s t ≡ s
  unfolding scan_entry
  scan_entry-theirs s t other theirs = rw (other, theirs)

  scan_entries-worth :
      (s : Scan) (ts : List Transaction)
      → SameCosts s.out_going ts
      → worth (scan_entries my_pid s ts)
        ≡ worth s +ℤ received my_pid ts -ℤ spent (unlisted my_pid ts s.out_going)
  unfolding scan_entries received unlisted spent
  scan_entries-worth s [] h = omega int_laws
  scan_entries-worth s (t ∷ ts) h =
      let out = remove_first t s.out_going in
      let sent = record s { out_going = out; accumulate = s.accumulate -ℤ cost t } in
      let ih = scan_entries-worth sent ts (SameCosts-remove_first t s.out_going ts h.1) in
      let by = λ (x : Scan) (e : scan_entry my_pid s t ≡ x).
        ap (λ (y : Scan). worth (scan_entries my_pid y ts)) e in
      elim (Bool-cases (t.sender ==ℤ my_pid)) [
        | inl own ↦ elim (Option-cases (find_first t s.out_going)) [
          | inl missing ↦
              by sent (scan_entry-own s t own)
              ∙ ih
              ∙ rw (own, missing)
                  (own-none s t (received my_pid ts) (spent (unlisted my_pid ts out)) missing)
          | inr (u, found) ↦
              by sent (scan_entry-own s t own)
              ∙ ih
              ∙ rw (own, found)
                  (own-some s t u (received my_pid ts) (spent (unlisted my_pid ts out)) h.0 found)
        ]
        | inr other ↦ elim (Bool-cases (t.receiver ==ℤ my_pid)) [
          | inl mine ↦
              let got = record s { accumulate = s.accumulate +ℤ t.amount } in
              by got (scan_entry-mine s t other mine)
              ∙ scan_entries-worth got ts h.1
              ∙ rw (other, mine) (omega int_laws)
          | inr theirs ↦
              by s (scan_entry-theirs s t other theirs)
              ∙ scan_entries-worth s ts h.1
              ∙ rw (other, theirs) (omega int_laws)
        ]
      ]

-- The transactions that get_balance reads: those of the blocks before the first that was never
-- written.
unfoldable pub visible : List Block → List Transaction
unfolding block_flag
visible [] = []
visible (b ∷ bs) = if block_flag b == 0 then [] else entries b ++ visible bs

scan_entries-append :
    (my_pid : ℤ) (s : Scan) (ts us : List Transaction)
    → scan_entries my_pid s (ts ++ us) ≡ scan_entries my_pid (scan_entries my_pid s ts) us
unfolding scan_entries
scan_entries-append my_pid s [] us = refl
scan_entries-append my_pid s (t ∷ ts) us = scan_entries-append my_pid (scan_entry my_pid s t) ts us

pub scan_ledger-visible :
    (my_pid : ℤ) (s : Scan) (bs : List Block)
    → scan_ledger my_pid s bs ≡ scan_entries my_pid s (visible bs)
unfolding scan_ledger visible
scan_ledger-visible my_pid s [] = unfold scan_entries in refl
scan_ledger-visible my_pid s (b ∷ bs) = elim (Bool-cases (block_flag b == 0)) [
  | inl end ↦ rw end (unfold scan_entries in refl)
  | inr more ↦ rw more (
      scan_ledger-visible my_pid (scan_entries my_pid s (entries b)) bs
      ∙ sym (scan_entries-append my_pid s (entries b) (visible bs)))
]

pub subtract_out_going-spent :
    (a : ℤ) (ts : List Transaction) → subtract_out_going a ts ≡ a -ℤ spent ts
unfolding subtract_out_going spent
subtract_out_going-spent a [] = omega int_laws
subtract_out_going-spent a (t ∷ ts) = subtract_out_going-spent (a -ℤ cost t) ts ∙ omega int_laws

-- What the user has gained, by what is on the ledger and what is on its way.
abbrev pub gained : UserState → ℤ
gained s =
    received s.my_pid (visible s.ledger)
    -ℤ spent (unlisted s.my_pid (visible s.ledger) s.out_going)
    -ℤ spent s.out_going

pub accumulated-gained :
    (s : UserState) → SameCosts s.out_going (visible s.ledger) → accumulated s ≡ gained s
unfolding accumulated scanned
accumulated-gained s h =
    let start : Scan = record { out_going = s.out_going; accumulate = pos 0 } in
    subtract_out_going-spent _ _
    ∙ ap (λ (x : Scan). x.accumulate -ℤ spent x.out_going)
        (scan_ledger-visible s.my_pid start s.ledger)
    ∙ scan_entries-worth s.my_pid start (visible s.ledger) h
    ∙ omega int_laws
