-- ===== src/Economy/Pay.antt =====
-- What the reward transactions that src/nodes.c writes come to for all nodes together.
use simulazione_transazioni.Prelude.{
  ◌+◌, ◌-◌, ◌^◌, ◌≤◌, ◌<◌, ◌≡◌, refl, ap, ◌∙◌, inl, inr, List, [], ◌∷◌, ◌++◌, arith, All, take_all,
  ◌==◌, Bool-cases,
}
use simulazione_transazioni.Prelude.Int.{ℤ, pos, neg_part, ◌+ℤ◌, ◌==ℤ◌, int_laws}
use simulazione_transazioni.Prelude.Words.{u64_of_ℤ}
use simulazione_transazioni.Common.{Transaction, Block, so_block_size}
use simulazione_transazioni.Ledger.Blocks.{total_reward}
use simulazione_transazioni.Nodes.{ledger_balance}
use simulazione_transazioni.Nodes.Earned.{own_reward, earned, Pays, ledger_balance-earned}
use simulazione_transazioni.Users.Wallet.{block_flag, entries}
use simulazione_transazioni.Users.Wallet.Count.{visible}
use simulazione_transazioni.Economy.{total, IsBetween, IsFair, IsBlank, IsBooked}
use simulazione_transazioni.Economy.Trade.{only, total-only, total-cong}

pub total-add : (f g : ℤ → ℤ) (ps : List ℤ) → total (λ p. f p +ℤ g p) ps ≡ total f ps +ℤ total g ps
total-add f g [] = omega int_laws
total-add f g (p ∷ ps) = ap (◌+ℤ◌ (f p +ℤ g p)) (total-add f g ps) ∙ omega int_laws

pub total-zero : (f : ℤ → ℤ) → ((p : ℤ) → f p ≡ pos 0) → (ps : List ℤ) → total f ps ≡ pos 0
total-zero f h [] = refl
total-zero f h (p ∷ ps) = (λ j. h p j +ℤ total-zero f h ps j) ∙ omega int_laws

pub total_reward-append :
    (xs ys : List Transaction) → total_reward (xs ++ ys) ≡ total_reward xs + total_reward ys
unfolding total_reward
total_reward-append [] ys = omega arith
total_reward-append (x ∷ xs) ys = omega (arith, total_reward-append xs ys)

All-append :
    (P : Transaction → Type 0) (xs ys : List Transaction) → All P xs → All P ys → All P (xs ++ ys)
All-append P [] ys h k = k
All-append P (x ∷ xs) ys h k = (h.0, All-append P xs ys h.1 k)

module _ (users nodes : List ℤ) where
  module _ (b : Block) (fair : IsFair users nodes b) where
    -- What the block pays to a node.
    own_reward-fair :
        (n : ℤ) → own_reward n b ≡ only fair.pay.receiver (pos (total_reward fair.sent)) n
    unfolding own_reward
    own_reward-fair n =
        ap (λ (ts : List Transaction). own_reward n (record b { trans_list = ts })) fair.shape
        ∙ ap (λ (c : ℤ). only fair.pay.receiver c n) fair.exact

    entries-fair : entries b ≡ fair.sent
    entries-fair = rw fair.shape (take_all (so_block_size - 1) fair.sent fair.nine)

    pub visible-fair : (l : List Block) → visible (b ∷ l) ≡ fair.sent ++ visible l
    unfolding visible
    visible-fair l = elim (Bool-cases (block_flag b == 0)) [
      | inl untimed ↦ absurd (fair.timed (ground arith))
      | inr timed ↦ rw (timed, entries-fair)
    ]

    fair-Pays : (n : ℤ) → Pays n b
    fair-Pays n = elim (Bool-cases (fair.pay.receiver ==ℤ n)) [
      | inl hit ↦ rw (own_reward-fair n, hit)
      | inr miss ↦ rw (own_reward-fair n, miss)
    ]

    earned-fair :
        (l : List Block) (n : ℤ)
        → pos (earned n (b ∷ l))
          ≡ only fair.pay.receiver (pos (total_reward fair.sent)) n +ℤ pos (earned n l)
    unfolding earned
    earned-fair l n = elim (Bool-cases (fair.pay.receiver ==ℤ n)) [
      | inl hit ↦ rw (own_reward-fair n, hit) (omega int_laws)
      | inr miss ↦ rw (own_reward-fair n, miss) (omega int_laws)
    ]

    earned-fair_bound :
        (l : List Block) (n : ℤ) → earned n (b ∷ l) ≤ total_reward fair.sent + earned n l
    unfolding earned
    earned-fair_bound l n = elim (Bool-cases (fair.pay.receiver ==ℤ n)) [
      | inl hit ↦ rw (own_reward-fair n, hit) (omega arith)
      | inr miss ↦ rw (own_reward-fair n, miss) (omega arith)
    ]

  earned-blank : (n : ℤ) (l : List Block) → All IsBlank l → earned n l ≡ 0
  unfolding earned
  earned-blank n [] h = refl
  earned-blank n (b ∷ l) h = rw (h.0.1 n) (omega (arith, earned-blank n l h.1))

  pub visible-blank : (l : List Block) → All IsBlank l → visible l ≡ []
  unfolding visible
  visible-blank [] h = refl
  visible-blank (b ∷ l) h = rw h.0.0

  blank-Pays : (n : ℤ) (l : List Block) → All IsBlank l → All (Pays n) l
  blank-Pays n [] h = tt
  blank-Pays n (b ∷ l) h = (ap neg_part (h.0.1 n), blank-Pays n l h.1)

  pub visible-IsBetween :
      (l : List Block) → IsBooked users nodes l → All (IsBetween users) (visible l)
  unfolding visible
  visible-IsBetween [] h = tt
  visible-IsBetween (b ∷ l) (inl blank) = rw (visible-blank (b ∷ l) blank) tt
  visible-IsBetween (b ∷ l) (inr (fair, h)) =
      rw (visible-fair b fair l)
        (All-append (IsBetween users) fair.sent (visible l) fair.between (visible-IsBetween l h))

  -- No node is paid a negative sum.
  Booked-Pays : (n : ℤ) (l : List Block) → IsBooked users nodes l → All (Pays n) l
  Booked-Pays n [] h = tt
  Booked-Pays n (b ∷ l) (inl blank) = blank-Pays n (b ∷ l) blank
  Booked-Pays n (b ∷ l) (inr (fair, h)) = (fair-Pays b fair n, Booked-Pays n l h)

  earned_bound :
      (n : ℤ) (l : List Block) → IsBooked users nodes l → earned n l ≤ total_reward (visible l)
  earned_bound n [] h = unfold earned visible total_reward in omega arith
  earned_bound n (b ∷ l) (inl blank) = omega (arith, earned-blank n (b ∷ l) blank)
  earned_bound n (b ∷ l) (inr (fair, h)) = rw (visible-fair b fair l) (
      omega (
        arith,
        earned-fair_bound b fair l n,
        earned_bound n l h,
        total_reward-append fair.sent (visible l),
      ))

  -- What the nodes earn is what the users pay as rewards.
  total-earned :
      (l : List Block)
      → IsBooked users nodes l
      → total (λ n. pos (earned n l)) nodes ≡ pos (total_reward (visible l))
  total-earned [] h = unfold earned visible total_reward in total-zero _ (λ n. refl) nodes
  total-earned (b ∷ l) (inl blank) =
      total-zero _ (λ n. ap pos (earned-blank n (b ∷ l) blank)) nodes
      ∙ rw (visible-blank (b ∷ l) blank) (unfold total_reward in refl)
  total-earned (b ∷ l) (inr (fair, h)) =
      let reward = pos (total_reward fair.sent) in
      total-cong _ _ (earned-fair b fair l) nodes
      ∙ total-add (only fair.pay.receiver reward) (λ n. pos (earned n l)) nodes
      ∙ (λ j. total-only fair.pay.receiver reward nodes fair.to_node j +ℤ total-earned l h j)
      ∙ rw (visible-fair b fair l, total_reward-append fair.sent (visible l)) (omega int_laws)

  module _ (l : List Block) (h : IsBooked users nodes l)
      (small : total_reward (visible l) < 2 ^ 31) where
    ledger_balance-booked : (n : ℤ) → ledger_balance n (pos 0) l ≡ pos (earned n l)
    ledger_balance-booked n =
        ledger_balance-earned n 0 l (Booked-Pays n l h) (omega (arith, earned_bound n l h))
        ∙ ap pos (omega arith)

    -- The balance of a node is not cut off.
    pub ledger_balance-whole :
        (n : ℤ) → pos (u64_of_ℤ (ledger_balance n (pos 0) l)) ≡ ledger_balance n (pos 0) l
    unfolding u64_of_ℤ
    ledger_balance-whole n =
        rw (ledger_balance-booked n) (ap pos (omega (arith, earned_bound n l h)))

    -- The balances that the nodes sum up in the end.
    pub total-ledger_balance :
        total (λ n. ledger_balance n (pos 0) l) nodes ≡ pos (total_reward (visible l))
    total-ledger_balance = total-cong _ _ ledger_balance-booked nodes ∙ total-earned l h
