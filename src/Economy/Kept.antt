-- ===== src/Economy/Kept.antt =====
-- The block that a child of a node of src/nodes.c writes keeps the ledger booked.
use simulazione_transazioni.Prelude.{
  ℕ, ◌+◌, ◌-◌, ◌%◌, ◌^◌, ◌<◌, ◌≡◌, ◌≢◌, refl, sym, ap, ◌∙◌, inl, inr, false, List, [], ◌∷◌, ◌++◌,
  map, some, arith, All, length, set, count_if, take_all,
}
use simulazione_transazioni.Prelude.Int.{ℤ, pos, ◌==ℤ◌, ==ℤ_ne}
use mathlib.Core.List.{append-nil, append_assoc}
use simulazione_transazioni.Common.{
  Parameters, Timespec, Transaction, Block, Node, so_block_size, so_registry_size,
}
use simulazione_transazioni.Ledger.{
  is_free, confirm, confirm_block, get_pid_node_index, insert_block_in_ledger, reward_transaction,
}
use simulazione_transazioni.Ledger.Append.{written, insert_block_in_ledger-set}
use simulazione_transazioni.Ledger.Blocks.{total_reward, HaveRewards, taken, new_block-Rewards}
use simulazione_transazioni.Nodes.{create_block}
use simulazione_transazioni.Users.Wallet.{block_flag}
use simulazione_transazioni.Users.Wallet.Count.{visible}
use simulazione_transazioni.Economy.{Once, IsBetween, IsFair, IsBlank, IsBooked}
use simulazione_transazioni.Economy.Pay.{visible-fair, visible-blank}

length-confirm : (ts : List Transaction) → length (map confirm ts) ≡ length ts
length-confirm [] = refl
length-confirm (t ∷ ts) = omega (arith, length-confirm ts)

total_reward-confirm : (ts : List Transaction) → total_reward (map confirm ts) ≡ total_reward ts
unfolding total_reward
total_reward-confirm [] = refl
total_reward-confirm (t ∷ ts) = omega (arith, total_reward-confirm ts)

module _ (users nodes : List ℤ) where
  between-HaveRewards : (ts : List Transaction) → All (IsBetween users) ts → HaveRewards ts
  between-HaveRewards [] h = tt
  between-HaveRewards (t ∷ ts) h = (h.0.rewarded, between-HaveRewards ts h.1)

  IsBooked-blank : (l : List Block) → All IsBlank l → IsBooked users nodes l
  IsBooked-blank [] h = tt
  IsBooked-blank (b ∷ l) h = inl h

  confirm-IsBetween :
      (ts : List Transaction) → All (IsBetween users) ts → All (IsBetween users) (map confirm ts)
  confirm-IsBetween [] h = tt
  confirm-IsBetween (t ∷ ts) h = (
    record {
      from = h.0.from;
      to = h.0.to;
      others = h.0.others;
      fits = h.0.fits;
      rewarded = h.0.rewarded;
    },
    confirm-IsBetween ts h.1,
  )

  -- A fair block is not taken for a free slot, when no user has pid 0.
  module _ (no_zero : count_if (λ p. pos 0 ==ℤ p) users ≡ 0) where
    sent-full :
        (b : Block) (pay : Transaction) (sent : List Transaction)
        → b.trans_list ≡ pay ∷ sent
        → length sent ≡ so_block_size - 1
        → All (IsBetween users) sent
        → is_free b ≡ false
    unfolding is_free
    sent-full b pay [] shape nine between = absurd (omega arith)
    sent-full b pay (t ∷ ts) shape nine between =
        rw shape
          (==ℤ_ne t.sender (pos 0) (λ e. let once = rw e at between.0.from in absurd (omega arith)))

    fair-full : (b : Block) → IsFair users nodes b → is_free b ≡ false
    fair-full b fair = sent-full b fair.pay fair.sent fair.shape fair.nine fair.between

    -- A fair block in the slot behind the written ones.
    module _ (x : Block) (fair : IsFair users nodes x) where
      set-IsBooked :
          (l : List Block)
          → IsBooked users nodes l
          → length (written l) < length l
          → IsBooked users nodes (set l (length (written l)) x)
            × (visible (set l (length (written l)) x) ≡ visible l ++ fair.sent)
      unfolding written
      set-IsBooked [] h room = absurd (omega arith)
      set-IsBooked (b ∷ l) (inl blank) room =
          rw
            (
              blank.0.2,
              visible-fair users nodes x fair l,
              visible-blank users nodes l blank.1,
              visible-blank users nodes (b ∷ l) blank,
            )
            (inr (fair, IsBooked-blank l blank.1), append-nil fair.sent)
      set-IsBooked (b ∷ l) (inr (first, h)) room =
          let full = fair-full b first in
          let (rest, seen) = set-IsBooked l h (let more = rw full at room in omega arith) in
          rw (full, visible-fair users nodes b first l)
            (
              inr (first, rest),
              visible-fair users nodes b first _
                  ∙ ap (◌++◌ first.sent) seen
                  ∙ sym (append_assoc first.sent (visible l) fair.sent),
            )

    module _ (par : Parameters) (my_pid : ℤ) (now : Timespec) (raw_index : ℕ)
        (buffer : List Transaction) (i : ℕ) where
      -- The block in its slot `k`.
      abbrev booked_block : ℕ → Block
      booked_block k = record {
        trans_list =
            confirm (reward_transaction my_pid now (pos (total_reward buffer)))
            ∷ map confirm buffer;
        block_index = k;
      }

      booked_block-IsFair :
          (k : ℕ)
          → now.tv_nsec + now.tv_sec ≢ 0
          → Once nodes my_pid
          → length buffer ≡ so_block_size - 1
          → All (IsBetween users) buffer
          → (fair : IsFair users nodes (booked_block k)) × (fair.sent ≡ map confirm buffer)
      unfolding block_flag
      booked_block-IsFair k timed known nine between = (
        record {
          pay = confirm (reward_transaction my_pid now (pos (total_reward buffer)));
          sent = map confirm buffer;
          shape = refl;
          nine = length-confirm buffer ∙ nine;
          timed = timed;
          to_node = known;
          exact = ap pos (sym (total_reward-confirm buffer));
          between = confirm-IsBetween buffer between;
        },
        refl,
      )

      -- What the child of a node leaves behind.
      abbrev pub Books : List Node → List Block → Type 0
      Books nodes_pid l =
          (nodes_pid' : List Node) × (l' : List Block) × (create_block par my_pid now raw_index
              buffer nodes_pid l
            ≡ some (nodes_pid', some l'))
          × IsBooked users nodes l'
          × (visible l' ≡ visible l ++ map confirm buffer)

      -- Take a ledger of the size of the registry that has in front blocks with a time, each of nine
      -- transactions between two different users and a payment of just their rewards to a node, and
      -- behind them free slots with no time that pay nothing; and a node that is known, in its array,
      -- and has nine such transactions, whose rewards sum up to less than 2 ^ 31. When no user has
      -- pid 0, the clock is not at 0 and a slot is left, the child that the node forks writes a block
      -- such that the ledger is of that kind again, and a user reads on it, behind the transactions
      -- that were there, just the nine, confirmed.
      pub create_block-IsBooked :
          (nodes_pid : List Node) (l : List Block)
          → IsBooked users nodes l
          → length l ≡ so_registry_size
          → length (written l) < so_registry_size
          → get_pid_node_index par my_pid nodes_pid ≡ pos i
          → now.tv_nsec + now.tv_sec ≢ 0
          → Once nodes my_pid
          → length buffer ≡ so_block_size - 1
          → All (IsBetween users) buffer
          → total_reward buffer < 2 ^ 31
          → Books nodes_pid l
      unfolding create_block confirm_block
      create_block-IsBooked nodes_pid l booked size room at timed known nine between small =
          let k = length (written l) in
          let all : taken par my_pid now raw_index nodes_pid buffer ≡ buffer =
            take_all (so_block_size - 1) buffer nine in
          let (n, nb, got, is, made, listed, _) =
            new_block-Rewards par my_pid now raw_index nodes_pid buffer i at (omega (arith, nine))
              (rw all (between-HaveRewards buffer between)) (rw all small) in
          let x = booked_block k in
          let inserted : insert_block_in_ledger nb l ≡ some (set l k x) =
            insert_block_in_ledger-set nb l size room
            ∙ ap
                (λ (ts : List Transaction).
                  let y : Block = record { trans_list = map confirm ts; block_index = k } in
                  some (set l k y))
                (rw all at listed) in
          let (fair, sent) = booked_block-IsFair k timed known nine between in
          let (kept, seen) = set-IsBooked x fair l booked (omega (arith, size)) in
          (
            set nodes_pid i (record n {
              balance =
                  (n.balance + total_reward (taken par my_pid now raw_index nodes_pid buffer))
                  % 2 ^ 64;
            }),
            set l k x,
            rw (create_block, made, inserted) refl,
            kept,
            seen ∙ ap (◌++◌ (visible l)) sent,
          )
