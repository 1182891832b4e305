-- ===== src/Master/Startup/Spawned.antt =====
-- The shared arrays after the loops of main of src/master.c that spawn the nodes and the users.
use simulazione_transazioni.Prelude.{
  ℕ, ◌+◌, ◌*◌, ◌^◌, ◌≤◌, ◌<◌, ◌≡◌, ◌⊎◌, inl, inr, refl, sym, ap, ◌∙◌, List, [], ◌∷◌, ◌++◌, some,
  if◌then◌else◌, length, length-append, arith, get_elem?, set, Bool-cases,
}
use simulazione_transazioni.Prelude.Int.{ℤ, pos, negsuc, ◌==ℤ◌}
use simulazione_transazioni.Common.{Parameters, Node, available, User, alive}
use mathlib.Core.List.{append_assoc}
use simulazione_transazioni.Table.{update_at, update_at-some}
use simulazione_transazioni.Master.{
  Spawner, first_over, next_slot, record_node, spawn_node, reset_node, start_node,
}
use simulazione_transazioni.Master.Startup.{
  start_nodes, spawn_user, reset_user, start_user, start_users,
}

-- What a round leaves in an entry, for the pid that fork gives.
abbrev pub started_node : ℤ → Node → Node
started_node pid n = record n {
  pid = if pid ==ℤ negsuc 0 then n.pid else pid;
  balance = 0;
  status = available;
}

abbrev pub started_user : ℤ → User → User
started_user pid u = record u {
  pid = if pid ==ℤ negsuc 0 then u.pid else pid;
  balance = 0;
  status = alive;
}

-- The loop writes to the first entries, and to no other.
abbrev pub started {ℓ} : {A : Type ℓ} → (ℤ → A → A) → List ℤ → List A → List A
started f [] xs = xs
started f (p ∷ ps) [] = []
started f (p ∷ ps) (x ∷ xs) = f p x ∷ started f ps xs

module _ {A : Type 0} where
  get_elem?-append : (xs ys : List A) (y : A) → get_elem? (xs ++ y ∷ ys) (length xs) ≡ some y
  get_elem?-append [] ys y = refl
  get_elem?-append (x ∷ xs) ys y = get_elem?-append xs ys y

  set-append : (xs ys : List A) (y z : A) → set (xs ++ y ∷ ys) (length xs) z ≡ xs ++ z ∷ ys
  set-append [] ys y z = refl
  set-append (x ∷ xs) ys y z = ap (◌∷◌ x) (set-append xs ys y z)

  -- A write to the entry behind the first ones.
  update_at-append :
      (f : A → A) (xs ys : List A) (y : A)
      → update_at (xs ++ y ∷ ys) (pos (length xs)) f ≡ some (xs ++ f y ∷ ys)
  update_at-append f xs ys y =
      update_at-some (xs ++ y ∷ ys) (length xs) f (get_elem?-append xs ys y)
      ∙ ap some (set-append xs ys y (f y))

  snoc-append : (xs ys : List A) (y : A) → xs ++ y ∷ ys ≡ (xs ++ y ∷ []) ++ ys
  snoc-append xs ys y = sym (append_assoc xs (y ∷ []) ys)

start_user_lem :
    (pid : ℤ) (done later : List User) (u : User)
    → start_user pid (length done) (done ++ u ∷ later) ≡ some (done ++ started_user pid u ∷ later)
unfolding start_user reset_user spawn_user
start_user_lem pid done later u =
    rw (update_at-append reset_user done later u, start_user)
      (elim (Bool-cases (pid ==ℤ negsuc 0)) [
        | inl failed ↦ rw failed refl
        | inr forked ↦
            rw forked
              (update_at-append (λ (w : User). record w { pid = pid }) done later (reset_user u))
      ])

-- The loops, from an entry on.
pub start_users_lem :
    (pids : List ℤ) (done later : List User)
    → length pids ≤ length later
    → start_users (length done) pids (done ++ later)
      ≡ some (done ++ started started_user pids later)
unfolding start_users
start_users_lem [] done later h = refl
start_users_lem (pid ∷ pids) done [] h = absurd (omega arith)
start_users_lem (pid ∷ pids) done (u ∷ later) h =
    let done' = done ++ started_user pid u ∷ [] in
    let len : length done + 1 ≡ length done' =
      omega (arith, length-append done (started_user pid u ∷ [])) in
    rw
      (
        start_users,
        start_user_lem pid done later u,
        len,
        snoc-append done later (started_user pid u),
      )
      (start_users_lem pids done' later (omega arith)
        ∙ ap some (sym (snoc-append done (started started_user pids later) (started_user pid u))))

module _ (par : Parameters) (some_nodes : 0 < par.so_nodes_num)
    (few : par.so_nodes_num * 2 < 2 ^ 32) where
  -- The counter of the extra nodes has its first value, or none yet.
  abbrev pub IsFirst : ℕ → Type 0
  IsFirst over = (over ≡ 0) ⊎ (over ≡ par.so_nodes_num)

  first_over_lem : (over : ℕ) → IsFirst over → first_over par over ≡ par.so_nodes_num
  unfolding first_over
  first_over_lem over (inl e) = ground arith
  first_over_lem over (inr e) = ground arith

  next_slot_lem : (k : ℕ) → next_slot par (pos k) par.so_nodes_num ≡ some (pos k, par.so_nodes_num)
  unfolding next_slot
  next_slot_lem k = ground arith

  start_node_lem :
      (pid : ℤ) (over : ℕ) (done later : List Node) (n : Node)
      → IsFirst over
      → start_node par pid (length done) (record { over_buf = over; nodes = done ++ n ∷ later })
        ≡ some (
          pid,
          record { over_buf = par.so_nodes_num; nodes = done ++ started_node pid n ∷ later },
        )
  unfolding start_node reset_node spawn_node record_node
  start_node_lem pid over done later n first =
      rw
        (
          start_node,
          update_at-append reset_node done later n,
          spawn_node,
          first_over_lem over first,
          next_slot_lem (length done),
        )
        (elim (Bool-cases (pid ==ℤ negsuc 0)) [
          | inl failed ↦ rw (failed, record_node) refl
          | inr forked ↦
              rw
                (
                  forked,
                  record_node,
                  update_at-append (λ (w : Node). record w { pid = pid }) done later (reset_node n),
                )
                refl
        ])

  abbrev pub Starts : List ℤ → ℕ → List Node → List Node → Type 0
  Starts pids over done later =
      (over' : ℕ) × IsFirst over'
      × (start_nodes par (length done) pids (record { over_buf = over; nodes = done ++ later })
          ≡ some (record { over_buf = over'; nodes = done ++ started started_node pids later }))

  pub start_nodes_lem :
      (pids : List ℤ) (over : ℕ) (done later : List Node)
      → IsFirst over
      → length pids ≤ length later
      → Starts pids over done later
  unfolding start_nodes
  start_nodes_lem [] over done later first h = (over, first, refl)
  start_nodes_lem (pid ∷ pids) over done [] first h = absurd (omega arith)
  start_nodes_lem (pid ∷ pids) over done (n ∷ later) first h =
      let done' = done ++ started_node pid n ∷ [] in
      let len : length done + 1 ≡ length done' =
        omega (arith, length-append done (started_node pid n ∷ [])) in
      let (over', first', rest) =
        start_nodes_lem pids par.so_nodes_num done' later (inr refl) (omega arith) in
      (
        over',
        first',
        rw
            (
              start_nodes,
              start_node_lem pid over done later n first,
              len,
              snoc-append done later (started_node pid n),
            )
            (rest
              ∙ ap
                  (λ (ns : List Node).
                    let s : Spawner = record { over_buf = over'; nodes = ns } in some s)
                  (sym (snoc-append done (started started_node pids later) (started_node pid n)))),
      )
