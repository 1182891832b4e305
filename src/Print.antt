-- ===== src/Print.antt =====
-- What src/print.c computes for its tables: the most and the least wealthy processes, the users who
-- died, and the blocks of the ledger. The printing itself is left out.
pub mod Ranks
pub mod Report
pub mod Chains
use simulazione_transazioni.Prelude.{
  ℕ, zero, suc, ◌+◌, ◌-◌, ◌*◌, ◌^◌, Bool, true, false, not, ◌&&◌, List, [], ◌∷◌, Option, none, some,
  if◌then◌else◌, ltb, get_elem?, take,
}
use simulazione_transazioni.Prelude.Int.{ℤ, pos, negsuc, ◌==ℤ◌}
use simulazione_transazioni.Prelude.Words.{u32}
use simulazione_transazioni.Common.{
  is_dead, Parameters, User, Node, UserStatus, dead, Block, so_registry_size, self,
}

-- A place in a table: a balance and the pid of its owner.
pub record Place : Type 0 where
  pub balance : ℕ
  pub pid : ℤ

-- The three variables of a loop of print_most_significant_processes, the best place first.
pub record Places : Type 0 where
  pub first : Place
  pub second : Place
  pub third : Place

-- Three places of which nothing is known: balance `b`, pid 0.
abbrev pub no_places : ℕ → Places
no_places b = record {
  first = record { balance = b; pid = pos 0 };
  second = record { balance = b; pid = pos 0 };
  third = record { balance = b; pid = pos 0 };
}

-- The body of the loops for the wealthiest.
unfoldable pub rank_high : Place → Places → Places
rank_high x t =
    if ltb t.first.balance x.balance
    then record t { second = t.first; first = x }
    else if ltb t.second.balance x.balance
    then record t { third = t.second; second = x }
    else if ltb t.third.balance x.balance
    then record t { third = x }
    else t

-- The body of the loops for the least wealthy: `first` is the last line of the table.
unfoldable pub rank_low : Place → Places → Places
rank_low x t =
    if ltb x.balance t.first.balance
    then record t { second = t.first; first = x }
    else if ltb x.balance t.second.balance
    then record t { third = t.second; second = x }
    else if ltb x.balance t.third.balance
    then record t { third = x }
    else t

unfoldable pub rank_all : (Place → Places → Places) → List Place → Places → Places
rank_all rank [] t = t
rank_all rank (x ∷ xs) t = rank_all rank xs (rank x t)

abbrev pub node_place : Node → Place
node_place n = record { balance = n.balance; pid = n.pid }

abbrev pub user_place : User → Place
user_place u = record { balance = u.balance; pid = u.pid }

-- The tests of the second loop skip the slots of no node.
unfoldable pub rank_low_node : Place → Places → Places
unfolding rank_low
rank_low_node x t = if x.pid ==ℤ pos 0 then t else rank_low x t

-- ULONG_MAX and UINT_MAX.
abbrev pub ulong_max : ℕ
ulong_max = 2 ^ 64 - 1

abbrev pub uint_max : ℕ
uint_max = 2 ^ 32 - 1

-- What is printed, by the four loops. The pids of the nodes are static: `kept` is what the two
-- loops over them left in the call before.
pub record Tables : Type 0 where
  pub high_nodes : Places
  pub low_nodes : Places
  pub high_users : Places
  pub low_users : Places

abbrev pub start_from : ℕ → Places → Places
start_from b kept = record {
  first = record { balance = b; pid = kept.first.pid };
  second = record { balance = b; pid = kept.second.pid };
  third = record { balance = b; pid = kept.third.pid };
}

unfoldable pub most_significant : Tables → List Place → List Place → Tables
unfolding rank_all rank_high rank_low rank_low_node
most_significant kept users nodes = record {
  high_nodes = rank_all rank_high nodes (start_from 0 kept.high_nodes);
  low_nodes = rank_all rank_low_node nodes (start_from ulong_max kept.low_nodes);
  high_users = rank_all rank_high users (no_places 0);
  low_users = rank_all rank_low users (no_places uint_max);
}

-- The loop of print_num_aborted.
unfoldable pub count_aborted : List User → ℕ → ℕ
unfolding is_dead
count_aborted [] counter = counter
count_aborted (u ∷ us) counter =
    count_aborted us (if is_dead u.status then counter + 1 else counter)

unfoldable pub first_sender : Block → Option ℤ
first_sender b = elim b.trans_list [ [] ↦ none | t ∷ _ ↦ some t.sender ]

unfoldable pub is_written : Block → Bool
unfolding first_sender
is_written b = elim (first_sender b) [ none ↦ false | some sender ↦ sender ==ℤ self ]

-- The loop of print_num_blocks, over the slots that are left. After the last slot of the ledger it
-- tests what lies behind it, and then its bound, so that the result is the same.
unfoldable pub last_index : List Block → ℕ → ℕ
unfolding is_written
last_index [] block_index = block_index
last_index (b ∷ bs) block_index =
    let rest = last_index bs b.block_index in if is_written b then rest else block_index

-- What print_num_blocks returns; one more is printed.
unfoldable pub num_blocks : List Block → ℕ
unfolding last_index
num_blocks ledger = last_index (take so_registry_size ledger) 0
