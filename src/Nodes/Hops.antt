-- ===== src/Nodes/Hops.antt =====
-- fetch_messages and send_to_random_friend of src/nodes.c: where the oldest message of the pool
-- goes, and how the pool grows.
use simulazione_transazioni.Prelude.{
  ℕ, ◌%◌, ◌≤◌, ◌<◌, ◌^◌, ◌≡◌, ◌≢◌, ◌⊎◌, inl, inr, refl, sym, ◌∙◌, false, List, ◌∷◌, some,
  if◌then◌else◌, get_elem?, length, arith, Bool-cases,
}
use simulazione_transazioni.Prelude.Int.{ℤ, pos, ◌-ℤ◌, ◌==ℤ◌, ==ℤ_iff, ltb_ℤ, ◌≤ℤ◌}
use simulazione_transazioni.Prelude.Words.{sub_u32}
use simulazione_transazioni.Common.{Parameters, MsgbufTrans, transaction_mtype, success}
use simulazione_transazioni.Table.{get_elem?-some}
use simulazione_transazioni.Rand.{rand_from_0}
use mathlib.Core.Bool.{false≢true}
use simulazione_transazioni.Nodes.{
  NodeState, put, Hop, stopped, kept, to_master, discarded, to_friend, Answers, hop_out, hop_on,
  hop_message, send_to_random_friend,
}

-- The message with no hop left.
abbrev pub hopped_out : MsgbufTrans → MsgbufTrans
hopped_out m = record m { mtype = transaction_mtype; hops = pos 0 }

-- With one hop less.
abbrev pub hopped : MsgbufTrans → MsgbufTrans
hopped m = record m { mtype = transaction_mtype; hops = m.hops -ℤ pos 1 }

==ℤ_false : (a b : ℤ) → (a ==ℤ b) ≡ false → a ≢ b
==ℤ_false a b e same = false≢true (sym e ∙ (==ℤ_iff a b).1 same)

module _ (answers : Answers) (par : Parameters) (queue_id : ℤ) where
  module _ (m : MsgbufTrans) (s : NodeState) where
    -- What becomes of a message that is sent to the queue of friend `f`, which is another one.
    abbrev pub Leaves : ℤ → Hop × NodeState → Type 0
    Leaves f r =
        ((answers.sent ≡ success) × (r ≡ (to_friend f (hopped m), s)))
        ⊎ ((answers.sent ≢ success) × (r ≡ (kept, put (hopped m) s)))

    -- What becomes of a message that can hop, when the friend `f` is drawn.
    abbrev pub HopsOn : ℤ → Hop × NodeState → Type 0
    HopsOn f r =
        ((f ≡ pos 0) × (r ≡ (stopped, s)))
        ⊎ ((f ≢ pos 0)
            × (((answers.queue_of f ≡ queue_id) × (r ≡ (kept, put (hopped m) s)))
                ⊎ ((answers.queue_of f ≢ queue_id) × Leaves f r)))

    leaves_lem :
        (f : ℤ)
        → Leaves f (
            if answers.sent ==ℤ success
            then (to_friend f (hopped m), s)
            else (kept, put (hopped m) s))
    leaves_lem f = elim (Bool-cases (answers.sent ==ℤ success)) [
      | inl done ↦ inl ((==ℤ_iff answers.sent success).0 done, rw done refl)
      | inr refused ↦ inr (==ℤ_false answers.sent success refused, rw refused refl)
    ]

    hop_on_lem : (f : ℤ) → HopsOn f (hop_on answers queue_id f m s)
    unfolding hop_on
    hop_on_lem f = elim (Bool-cases (f ==ℤ pos 0)) [
      | inl unset ↦ inl ((==ℤ_iff f (pos 0)).0 unset, rw unset refl)
      | inr known ↦ inr (
        ==ℤ_false f (pos 0) known,
        rw known (elim (Bool-cases (answers.queue_of f ==ℤ queue_id)) [
          | inl own ↦ inl ((==ℤ_iff (answers.queue_of f) queue_id).0 own, rw own refl)
          | inr other ↦ inr (==ℤ_false (answers.queue_of f) queue_id other, rw other (leaves_lem f))
        ]),
      )
    ]

    -- What becomes of a message that is taken from the pool.
    abbrev pub Hops : ℕ → Hop × NodeState → Type 0
    Hops draw r =
        ((m.hops ≤ℤ pos 0)
          × (((answers.sent ≡ success) × (r ≡ (to_master (hopped_out m), s)))
              ⊎ ((answers.sent ≢ success) × (r ≡ (discarded (hopped_out m), s)))))
        ⊎ ((pos 1 ≤ℤ m.hops)
            × ((f : ℤ) × (get_elem? s.friend_list (draw % par.so_friends_num) ≡ some f)
                × HopsOn f r))

    hop_out_lem :
        ((answers.sent ≡ success) × (hop_out answers m s ≡ (to_master (hopped_out m), s)))
        ⊎ ((answers.sent ≢ success) × (hop_out answers m s ≡ (discarded (hopped_out m), s)))
    unfolding hop_out
    hop_out_lem = elim (Bool-cases (answers.sent ==ℤ success)) [
      | inl done ↦ inl ((==ℤ_iff answers.sent success).0 done, rw done refl)
      | inr refused ↦ inr (==ℤ_false answers.sent success refused, rw refused refl)
    ]

    hop_message_lem :
        (draw : ℕ)
        → 0 < par.so_friends_num
        → par.so_friends_num < 2 ^ 32
        → par.so_friends_num ≤ length s.friend_list
        → (r : Hop × NodeState) × (hop_message answers par queue_id draw m s ≡ some r) × Hops draw r
    unfolding hop_message
    hop_message_lem draw some_left small long =
        let (i, e, lt, is) = rand_from_0 draw par.so_friends_num some_left small in
        let (f, at) = get_elem?-some s.friend_list i (omega arith) in
        elim (Bool-cases (ltb_ℤ (pos 0) m.hops)) [
          | inl more ↦ (
            hop_on answers queue_id f m s,
            rw (hop_message, e, more, at) refl,
            inr (ground arith, (f, rw is at at, hop_on_lem f)),
          )
          | inr no_more ↦ (
            hop_out answers m s,
            rw (hop_message, e, no_more) refl,
            inl (ground arith, hop_out_lem),
          )
        ]

-- The state of a node whose oldest message was taken.
abbrev pub without_oldest : List MsgbufTrans → NodeState → NodeState
without_oldest rest s = record s { trans_pool = rest; size = sub_u32 s.size 1 }

module _ (answers : Answers) (par : Parameters) (queue_id : ℤ) (draw : ℕ) (s : NodeState) where
  -- With at least one friend, and an entry in the list for each of the SO_FRIENDS_NUM friends,
  -- send_to_random_friend takes the oldest message of a pool that holds one. If it has no hop left,
  -- it goes to the master when send_message succeeds, and is lost when not. Else one hop is counted,
  -- and the friend at the number that was drawn, modulo SO_FRIENDS_NUM, is looked up: if it is not
  -- set the node ends, with the message; if its queue is this node's own, the message goes back to
  -- the end of the pool; if not, it goes to the friend when send_message succeeds, and back to the
  -- end of the pool when not.
  pub send_to_random_friend-Hops :
      (m : MsgbufTrans) (rest : List MsgbufTrans)
      → s.trans_pool ≡ m ∷ rest
      → 0 < par.so_friends_num
      → par.so_friends_num < 2 ^ 32
      → par.so_friends_num ≤ length s.friend_list
      → (r : Hop × NodeState) × (send_to_random_friend answers par queue_id draw s ≡ some r)
        × Hops answers par queue_id m (without_oldest rest s) draw r
  unfolding send_to_random_friend
  send_to_random_friend-Hops m rest e some_left small long =
      let (r, is, hops) =
        hop_message_lem answers par queue_id m (without_oldest rest s) draw some_left small long in
      (r, rw (send_to_random_friend, e) is, hops)
