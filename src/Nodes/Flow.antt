-- ===== src/Nodes/Flow.antt =====
-- The transactions that fetch_messages of src/nodes.c takes in and gives away, counted.
use simulazione_transazioni.Prelude.{
  ℕ, ◌%◌, ◌+◌, ◌≤◌, ◌<◌, ◌^◌, ◌≡◌, ◌≢◌, inl, inr, refl, sym, ap, Bool, true, false, ◌&&◌, List, [],
  ◌∷◌, ◌++◌, some, if◌then◌else◌, ltb, length, All, All-snoc, All-get_elem?, count_if,
  count_if-append, arith, Bool-cases,
}
use simulazione_transazioni.Prelude.Int.{ℤ, pos, ◌==ℤ◌}
use simulazione_transazioni.Common.{Parameters, Transaction, MsgbufTrans, success}
use mathlib.Core.List.{map-append}
use mathlib.Core.Path.{subst}
use simulazione_transazioni.Nodes.{
  NodeState, put, Hop, nothing, stopped, kept, to_master, discarded, to_friend, Answers,
  send_to_random_friend, Fetched, receive_both, fetch_messages,
}
use simulazione_transazioni.Nodes.Hops.{
  hopped, hopped_out, Hops, without_oldest, send_to_random_friend-Hops,
}
use simulazione_transazioni.Nodes.Pooling.{transactions}

-- The transaction that left the node.
abbrev pub away : Hop → List Transaction
away nothing = []
away stopped = []
away kept = []
away (to_master m) = m.user_trans ∷ []
away (discarded m) = m.user_trans ∷ []
away (to_friend f m) = m.user_trans ∷ []

abbrev pub fetches : Parameters → NodeState → Bool
fetches par s = ltb s.size par.so_tp_size && ltb s.flag 20

-- The transaction that a call of fetch_messages took from the queue.
abbrev pub accepted : Parameters → NodeState → Fetched → List Transaction
accepted par s f =
    if fetches par s
    then if f.trans_code ==ℤ success then f.fetched_mex.user_trans ∷ [] else []
    else []

-- Every friend was set.
abbrev pub AllSet : List ℤ → Type 0
AllSet = All (λ (f : ℤ). f ≢ pos 0)

-- From `s`, after `ins` came in, nothing is lost and nothing is made.
abbrev pub Keeps : NodeState → List Transaction → Hop × NodeState → Type 0
Keeps s ins r =
    AllSet r.1.friend_list
    × (r.0 ≢ stopped)
    × ((p : Transaction → Bool)
        → count_if p (transactions s.trans_pool) + count_if p ins
          ≡ count_if p (away r.0) + count_if p (transactions r.1.trans_pool))

count_if-transactions :
    (p : Transaction → Bool) (xs : List MsgbufTrans) (m : MsgbufTrans)
    → count_if p (transactions (xs ++ m ∷ []))
      ≡ count_if p (transactions xs) + count_if p (m.user_trans ∷ [])
count_if-transactions p xs m =
    rw (map-append (λ (n : MsgbufTrans). n.user_trans) xs (m ∷ []))
      (count_if-append p (transactions xs) (m.user_trans ∷ []))

if-append {ℓ} :
    {A : Type ℓ} (P : A → Type 0) (b : Bool) {xs ys : A} → P xs → P ys → P (if b then xs else ys)
if-append P true h k = h
if-append P false h k = k

module _ (s : NodeState) (set : AllSet s.friend_list) where
  put-Keeps :
      (hop : Hop) (m : MsgbufTrans)
      → hop ≢ stopped
      → away hop ≡ []
      → Keeps s (m.user_trans ∷ []) (hop, put m s)
  unfolding put
  put-Keeps hop m runs stays =
      (set, runs, λ p. omega (arith, count_if-transactions p s.trans_pool m, ap (count_if p) stays))

  self-Keeps : (hop : Hop) → hop ≢ stopped → Keeps s (away hop) (hop, s)
  self-Keeps hop runs = (set, runs, λ p. omega arith)

  fetched-Keeps :
      (b : Bool) (m : MsgbufTrans)
      → Keeps s (if b then m.user_trans ∷ [] else []) (nothing, if b then put m s else s)
  fetched-Keeps true m = put-Keeps nothing m (λ e. cc) refl
  fetched-Keeps false m = self-Keeps nothing (λ e. cc)

  receive_both-Keeps :
      (f : Fetched)
      → f.friend_received.friend ≢ pos 0
      → Keeps s
          (if f.trans_code ==ℤ success then f.fetched_mex.user_trans ∷ [] else [])
          (nothing, receive_both f s)
  unfolding receive_both
  receive_both-Keeps f known =
      let (_, runs, counts) = fetched-Keeps (f.trans_code ==ℤ success) f.fetched_mex in
      (
        if-append AllSet (f.friend_code ==ℤ success)
            (All-snoc (λ (g : ℤ). g ≢ pos 0) s.friend_list f.friend_received.friend set known) set,
        runs,
        counts,
      )

module _ (answers : Answers) (par : Parameters) (queue_id : ℤ) (s : NodeState)
    (set : AllSet s.friend_list) where
  Keeps-eq :
      (ins : List Transaction) (r q : Hop × NodeState) → r ≡ q → Keeps s ins q → Keeps s ins r
  Keeps-eq ins r q e k = subst (Keeps s ins) (sym e) k

  Hops-Keeps :
      (draw : ℕ) (m : MsgbufTrans) (rest : List MsgbufTrans) (r : Hop × NodeState)
      → s.trans_pool ≡ m ∷ rest
      → Hops answers par queue_id m (without_oldest rest s) draw r
      → Keeps s [] r
  unfolding put
  Hops-Keeps draw m rest r e h =
      let w = without_oldest rest s in
      let taken : (p : Transaction → Bool)
          → count_if p (transactions s.trans_pool)
            ≡ count_if p (m.user_trans ∷ []) + count_if p (transactions rest) =
        λ p. omega (arith, ap (λ (pool : List MsgbufTrans). count_if p (transactions pool)) e) in
      let leaves : (hop : Hop)
          → r ≡ (hop, w)
          → hop ≢ stopped
          → away hop ≡ m.user_trans ∷ []
          → Keeps s [] r =
        λ hop same runs gone.
          Keeps-eq [] r (hop, w) same
            (set, runs, λ p. omega (arith, taken p, ap (count_if p) gone)) in
      let goes_back : r ≡ (kept, put (hopped m) w) → Keeps s [] r = λ again.
        Keeps-eq [] r (kept, put (hopped m) w) again
          (let (_, runs, counts) = put-Keeps w set kept (hopped m) (λ e. cc) refl in
            (set, runs, λ p. omega (arith, taken p, counts p))) in
      elim h [
        | inl (_, inl (_, master)) ↦ leaves (to_master (hopped_out m)) master (λ e. cc) refl
        | inl (_, inr (_, lost)) ↦ leaves (discarded (hopped_out m)) lost (λ e. cc) refl
        | inr (_, (f, at, inl (unset, _))) ↦ absurd (
            All-get_elem? (λ (g : ℤ). g ≢ pos 0) s.friend_list (draw % par.so_friends_num) set at
              unset)
        | inr (_, (_, _, inr (_, inl (_, again)))) ↦ goes_back again
        | inr (_, (f, _, inr (_, inr (_, inl (_, to_other))))) ↦
            leaves (to_friend f (hopped m)) to_other (λ e. cc) refl
        | inr (_, (_, _, inr (_, inr (_, inr (_, again))))) ↦ goes_back again
      ]

  module _ (some_left : 0 < par.so_friends_num) (few : par.so_friends_num < 2 ^ 32)
      (long : par.so_friends_num ≤ length s.friend_list) where
    abbrev Sent : ℕ → Type 0
    Sent draw =
        (r : Hop × NodeState) × (send_to_random_friend answers par queue_id draw s ≡ some r)
        × Keeps s [] r

    send-Keeps : (draw : ℕ) (pool : List MsgbufTrans) → s.trans_pool ≡ pool → Sent draw
    unfolding send_to_random_friend
    send-Keeps draw [] e =
        ((nothing, s), simp (send_to_random_friend, e), self-Keeps s set nothing (λ e. cc))
    send-Keeps draw (m ∷ rest) e =
        let (r, is, hops) =
          send_to_random_friend-Hops answers par queue_id draw s m rest e some_left few long in
        (r, is, Hops-Keeps draw m rest r e hops)

    pub fetch_messages-Keeps :
        (f : Fetched) (draw : ℕ)
        → f.friend_received.friend ≢ pos 0
        → (r : Hop × NodeState) × (fetch_messages answers f par queue_id draw s ≡ some r)
          × Keeps s (accepted par s f) r
    unfolding fetch_messages
    fetch_messages-Keeps f draw known = elim (Bool-cases (fetches par s)) [
      | inl fetch ↦ (
        (nothing, receive_both f s),
        rw (fetch_messages, fetch) refl,
        rw fetch (receive_both-Keeps s set f known),
      )
      | inr send ↦
          let ((hop, s'), is, keeps) = send-Keeps draw s.trans_pool refl in
          ((hop, record s' { flag = 0 }), rw (fetch_messages, send, is) refl, rw send keeps)
    ]
