-- ===== src/Master/Counts.antt =====
-- The counts of start_continuous_print of src/master.c.
use simulazione_transazioni.Prelude.{
  ℕ, ◌+◌, ◌≡◌, ◌∙◌, Bool, true, false, List, [], ◌∷◌, if◌then◌else◌, arith, count_if,
}
use simulazione_transazioni.Common.{User, Node, is_dead}
use simulazione_transazioni.Master.{is_alive, count_users, is_active, count_nodes}

add_one : (b : Bool) (a c : ℕ) → (if b then a + 1 else a) + c ≡ a + ((if b then 1 else 0) + c)
add_one true a c = omega arith
add_one false a c = omega arith

-- The number of the nodes that are counted.
pub count_nodes_lem : (ns : List Node) (a : ℕ) → count_nodes ns a ≡ a + count_if is_active ns
unfolding count_nodes
count_nodes_lem [] a = omega arith
count_nodes_lem (n ∷ ns) a =
    count_nodes_lem ns (if is_active n then a + 1 else a)
    ∙ add_one (is_active n) a (count_if is_active ns)

-- The numbers of the users alive and dead.
pub count_users_lem :
    (us : List User) (a g : ℕ)
    → ((count_users us (a, g)).0 ≡ a + count_if (λ (u : User). is_alive u.status) us)
      × ((count_users us (a, g)).1 ≡ g + count_if (λ (u : User). is_dead u.status) us)
unfolding count_users
count_users_lem [] a g = (omega arith, omega arith)
count_users_lem (u ∷ us) a g =
    let (alive, dead) =
      count_users_lem us (if is_alive u.status then a + 1 else a)
        (if is_dead u.status then g + 1 else g) in
    (
      alive ∙ add_one (is_alive u.status) a (count_if (λ (v : User). is_alive v.status) us),
      dead ∙ add_one (is_dead u.status) g (count_if (λ (v : User). is_dead v.status) us),
    )
