-- ===== src/Tests/Master.antt =====
-- Friends drawn from four nodes, and the extra nodes of a simulation with two.
use simulazione_transazioni.Prelude.{
  ℕ, ◌*◌, ◌≡◌, ◌⊎◌, refl, inr, arith, some, List, [], ◌∷◌, set, true,
}
use simulazione_transazioni.Prelude.Int.{pos}
use simulazione_transazioni.Common.{is_dead, Node, Parameters, available, alive, dead}
use simulazione_transazioni.Master.{
  Spawner, reset_node, announced, serve_hopped, is_chosen, choose, friends_at, make_friend_list,
  users_are_dead, count_users, is_alive,
}
use simulazione_transazioni.Master.Friends.{Draws, make_friend_list-Draws}
use simulazione_transazioni.Master.Slots.{
  IsNext, IsFull, IsPlaced, spawn_node_lem, serve_hopped_lem,
}
use simulazione_transazioni.Tests.Data.{par}

abbrev node : ℕ → Node
node p = record { pid = pos p; balance = 0; tp_size = pos 0; status = available }

abbrev four : Parameters
four = record par { so_nodes_num = 4; so_friends_num = 2 }

abbrev four_nodes : List Node
four_nodes = node 200 ∷ node 201 ∷ node 202 ∷ node 203 ∷ []

make_friend_list-Draws_example : Draws (λ i. i * 7) four four_nodes
make_friend_list-Draws_example =
    make_friend_list-Draws (λ i. i * 7) four four_nodes (omega arith) (omega arith)

make_friend_list_test :
    make_friend_list (λ i. i * 7) four four_nodes ≡ some (pos 200 ∷ pos 202 ∷ [])
unfolding make_friend_list choose is_chosen friends_at
make_friend_list_test = refl

abbrev two : Parameters
two = record par { so_nodes_num = 2 }

-- Nodes 200 and 201, and the extra node 300, which has a balance.
abbrev spawner : Spawner
spawner = record {
  over_buf = 3;
  nodes = node 200 ∷ node 201 ∷ record (node 300) { balance = 9 } ∷ node 0 ∷ [];
}

spawn_node_lem_example :
    (over : ℕ) × IsNext two (pos 301) spawner over
    × (IsPlaced two (pos 301) spawner over ⊎ IsFull two (pos 301) spawner over)
spawn_node_lem_example =
    spawn_node_lem two (pos 301) spawner (λ e. cc) (inr (omega arith)) (omega arith) refl

serve_hopped_lem_example :
    serve_hopped two (pos 301) 2 spawner
    ≡ some (
        announced (pos 301) (pos 300) (record {
          over_buf = 4;
          nodes =
              set
                (set spawner.nodes 2 (reset_node (record (node 300) { balance = 9 })))
                3
                (node 301);
        }))
serve_hopped_lem_example =
    serve_hopped_lem two (pos 301) spawner 3 (record (node 300) { balance = 9 }) (node 0) (λ e. cc)
      refl (omega arith) (omega arith) (omega arith) refl refl

-- One user of two that is dead ends the simulation.
users_are_dead_test :
    users_are_dead par (
      record { pid = pos 100; balance = 0; status = dead }
      ∷ record { pid = pos 101; balance = 0; status = alive }
      ∷ [])
    ≡ true
unfolding users_are_dead count_users is_alive is_dead
users_are_dead_test = refl
