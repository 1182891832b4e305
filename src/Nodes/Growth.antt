-- ===== src/Nodes/Growth.antt =====
-- How the pool of a node of src/nodes.c grows in fetch_messages.
use simulazione_transazioni.Prelude.{
  ℕ, suc, ◌-◌, ◌≤◌, ◌<◌, ◌^◌, ◌≡◌, inl, inr, refl, sym, ap, Bool, true, false, ◌&&◌, List, [], ◌∷◌,
  ◌++◌, some, if◌then◌else◌, ltb, length, length-append, arith, Bool-cases,
}
use simulazione_transazioni.Prelude.Int.{ℤ, ◌==ℤ◌}
use simulazione_transazioni.Common.{Parameters, MsgbufTrans, so_block_size, success}
use mathlib.Core.Path.{subst}
use simulazione_transazioni.Nodes.Hops.{
  hopped, hopped_out, Hops, without_oldest, send_to_random_friend-Hops,
}
use simulazione_transazioni.Nodes.{
  NodeState, put, Hop, nothing, stopped, kept, to_master, discarded, to_friend, Answers,
  send_to_random_friend, Fetched, receive_both, fetch_messages,
}

-- The counter is right, and the pool holds less than a block.
pub record IsSmall (s : NodeState) : Type 0 where
  pub counted : s.size ≡ length s.trans_pool
  pub less : length s.trans_pool < so_block_size - 1

-- What a step of fetch_messages from state `s` gives is counted, with one message more at most.
abbrev pub Grows : NodeState → Hop × NodeState → Type 0
Grows s r =
    (r.1.size ≡ length r.1.trans_pool)
    × (length r.1.trans_pool ≤ suc (length s.trans_pool))
    × (length s.friend_list ≤ length r.1.friend_list)

Grows-eq : (s : NodeState) (r q : Hop × NodeState) → r ≡ q → Grows s q → Grows s r
Grows-eq s r q e g = subst (Grows s) (sym e) g

module _ (s : NodeState) (small : IsSmall s) where
  put-Grows : (hop : Hop) (m : MsgbufTrans) → Grows s (hop, put m s)
  unfolding put
  put-Grows hop m = (
    omega (arith, small.counted, small.less, length-append s.trans_pool (m ∷ [])),
    omega (arith, length-append s.trans_pool (m ∷ [])),
    omega arith,
  )

  self-Grows : (hop : Hop) → Grows s (hop, s)
  self-Grows hop = (small.counted, omega arith, omega arith)

  fetched-Grows : (hop : Hop) (b : Bool) (m : MsgbufTrans) → Grows s (hop, if b then put m s else s)
  fetched-Grows hop true m = put-Grows hop m
  fetched-Grows hop false m = self-Grows hop

  longer_if :
      (b : Bool) (f : ℤ)
      → length s.friend_list ≤ length (if b then s.friend_list ++ f ∷ [] else s.friend_list)
  longer_if true f = omega (arith, length-append s.friend_list (f ∷ []))
  longer_if false f = omega arith

  receive_both-Grows : (hop : Hop) (f : Fetched) → Grows s (hop, receive_both f s)
  unfolding receive_both
  receive_both-Grows hop f =
      let g = fetched-Grows hop (f.trans_code ==ℤ success) f.fetched_mex in
      (g.0, g.1, longer_if (f.friend_code ==ℤ success) f.friend_received.friend)

module _ (answers : Answers) (par : Parameters) (queue_id : ℤ) (s : NodeState) (small : IsSmall s)
    (some_left : 0 < par.so_friends_num) (few : par.so_friends_num < 2 ^ 32)
    (long : par.so_friends_num ≤ length s.friend_list) where
  Hops-Grows :
      (draw : ℕ) (m : MsgbufTrans) (rest : List MsgbufTrans) (r : Hop × NodeState)
      → s.trans_pool ≡ m ∷ rest
      → Hops answers par queue_id m (without_oldest rest s) draw r
      → Grows s r
  Hops-Grows draw m rest r e h =
      let w = without_oldest rest s in
      let len : length s.trans_pool ≡ suc (length rest) =
        ap (λ (p : List MsgbufTrans). length p) e in
      let tiny : IsSmall w = record {
        counted = omega (arith, small.counted, small.less);
        less = omega (arith, small.less);
      } in
      let grow : (q : Hop × NodeState) → r ≡ q → Grows w q → Grows s r =
        λ q same g. let g' = Grows-eq w r q same g in (g'.0, omega (arith, g'.1), g'.2) in
      elim h [
        | inl (_, inl (_, master)) ↦
            grow (to_master (hopped_out m), w) master (self-Grows w tiny (to_master (hopped_out m)))
        | inl (_, inr (_, lost)) ↦
            grow (discarded (hopped_out m), w) lost (self-Grows w tiny (discarded (hopped_out m)))
        | inr (_, (_, _, inl (_, unset))) ↦ grow (stopped, w) unset (self-Grows w tiny stopped)
        | inr (_, (_, _, inr (_, inl (_, again)))) ↦
            grow (kept, put (hopped m) w) again (put-Grows w tiny kept (hopped m))
        | inr (_, (f, _, inr (_, inr (_, inl (_, away))))) ↦
            grow (to_friend f (hopped m), w) away (self-Grows w tiny (to_friend f (hopped m)))
        | inr (_, (_, _, inr (_, inr (_, inr (_, again))))) ↦
            grow (kept, put (hopped m) w) again (put-Grows w tiny kept (hopped m))
      ]

  abbrev Sent : ℕ → Type 0
  Sent draw =
      (r : Hop × NodeState) × (send_to_random_friend answers par queue_id draw s ≡ some r)
      × Grows s r

  send-Grows : (draw : ℕ) (pool : List MsgbufTrans) → s.trans_pool ≡ pool → Sent draw
  unfolding send_to_random_friend
  send-Grows draw [] e = ((nothing, s), simp (send_to_random_friend, e), self-Grows s small nothing)
  send-Grows draw (m ∷ rest) e =
      let (r, is, hops) =
        send_to_random_friend-Hops answers par queue_id draw s m rest e some_left few long in
      (r, is, Hops-Grows draw m rest r e hops)

  pub fetch_messages-Grows :
      (f : Fetched) (draw : ℕ)
      → (r : Hop × NodeState) × (fetch_messages answers f par queue_id draw s ≡ some r) × Grows s r
  unfolding fetch_messages
  fetch_messages-Grows f draw = elim (Bool-cases (ltb s.size par.so_tp_size && ltb s.flag 20)) [
    | inl fetch ↦ (
      (nothing, receive_both f s),
      rw (fetch_messages, fetch) refl,
      receive_both-Grows s small nothing f,
    )
    | inr send ↦
        let ((hop, s'), is, grows) = send-Grows draw s.trans_pool refl in
        ((hop, record s' { flag = 0 }), rw (fetch_messages, send, is) refl, grows)
  ]
