-- ===== src/Tests/Children.antt =====
-- A node whose first two blocks are created on an empty ledger.
use simulazione_transazioni.Prelude.{
  ℕ, zero, suc, ◌≡◌, refl, arith, [], ◌∷◌, List, length, replicate, All-replicate, true, ◌≢◌,
}
use simulazione_transazioni.Prelude.Int.{pos}
use simulazione_transazioni.Common.{Node, Block, Transaction, available, so_registry_size}
use simulazione_transazioni.Ledger.{is_free, get_pid_node_index}
use simulazione_transazioni.Ledger.Append.{written}
use simulazione_transazioni.Ledger.Blocks.{total_reward}
use simulazione_transazioni.Nodes.Earned.{own_reward, earned, Pays, IsAccurate}
use simulazione_transazioni.Nodes.Children.{Child, IsWhole}
use simulazione_transazioni.Nodes.Children.Settled.{Settles, node_interrupt_handle-same_after}
use simulazione_transazioni.Tests.Data.{
  par, payment, nine, zero_block, empty_ledger, length-empty_ledger, empty_ledger-IsPrefixed,
}

abbrev nodes : List Node
nodes = record { pid = pos 200; balance = 0; tp_size = pos 0; status = available } ∷ []

nothing_paid : (n : ℕ) → earned (pos 200) (replicate n zero_block) ≡ 0
unfolding earned
nothing_paid zero = refl
nothing_paid (suc n) = omega (arith, nothing_paid n)

nothing_written : (n : ℕ) → length (written (replicate n zero_block)) ≡ 0
unfolding written is_free
nothing_written zero = refl
nothing_written (suc n) = refl

empty_ledger-IsAccurate : IsAccurate par (pos 200) 0 nodes empty_ledger
unfolding get_pid_node_index empty_ledger own_reward
empty_ledger-IsAccurate = record {
  at = refl;
  node = record { pid = pos 200; balance = 0; tp_size = pos 0; status = available };
  got = refl;
  balanced = omega (arith, nothing_paid so_registry_size);
  small = omega (arith, nothing_paid so_registry_size);
  pays = All-replicate (Pays (pos 200)) so_registry_size zero_block refl;
  free_pay_nothing =
      All-replicate (λ (b : Block). is_free b ≡ true → own_reward (pos 200) b ≡ pos 0)
        so_registry_size zero_block (λ e. refl);
  size = length-empty_ledger;
  prefixed = empty_ledger-IsPrefixed;
}

abbrev child : Child
child = record { now = record { tv_sec = 7; tv_nsec = 1 }; raw_index = 0; buffer = nine }

child-IsWhole : IsWhole child.buffer
child-IsWhole = record {
  nine = refl;
  rewards = omega arith;
  senders =
      All-replicate (λ (t : Transaction). t.sender ≢ pos 0) 9 (payment 5 (pos 100) (pos 101) 10 1)
        (λ e. ground arith);
}

node_interrupt_handle-same_after_example :
    Settles par (pos 200) 0 (child ∷ child ∷ []) nodes empty_ledger
unfolding empty_ledger total_reward
node_interrupt_handle-same_after_example =
    node_interrupt_handle-same_after par (pos 200) 0 (child ∷ child ∷ []) nodes empty_ledger
      empty_ledger-IsAccurate
      (All-replicate (λ (c : Child). IsWhole c.buffer) 2 child child-IsWhole)
      (omega (arith, nothing_written so_registry_size))
      (omega (arith, nothing_paid so_registry_size))
