-- ===== src/Tests/Economy.antt =====
-- Two users and a node, with one block on the ledger, and a child that writes the next one.
use simulazione_transazioni.Prelude.{
  ◌≡◌, refl, arith, inl, inr, List, [], ◌∷◌, length, All-replicate, if◌then◌else◌,
}
use simulazione_transazioni.Prelude.Int.{ℤ, pos, negsuc, ◌+ℤ◌, ◌-ℤ◌, ◌==ℤ◌}
use simulazione_transazioni.Prelude.Words.{u32_of_ℤ, i32_of_u32, add_i32}
use simulazione_transazioni.Common.{Block}
use simulazione_transazioni.LinkedList.{compare_transactions}
use simulazione_transazioni.LinkedList.Contents.{remove_first}
use simulazione_transazioni.Ledger.{is_free, get_pid_node_index}
use simulazione_transazioni.Ledger.Append.{written}
use simulazione_transazioni.Ledger.Blocks.{total_reward}
use simulazione_transazioni.Nodes.Earned.{own_reward}
use simulazione_transazioni.Users.State.{UserState, get_pid_user_index}
use simulazione_transazioni.Users.Wallet.{block_flag, cost}
use simulazione_transazioni.Users.Wallet.Count.{received, spent, visible}
use simulazione_transazioni.Users.Wallet.Pending.{pending_after, own}
use simulazione_transazioni.Economy.{total, IsBetween, IsFair, IsBlank, IsBooked}
use simulazione_transazioni.Economy.Conserved.{IsReader, Conserves, get_balance-Conserves}
use simulazione_transazioni.Economy.Finish.Table.{
  IsEnding, Balanced, SumsTo, budgets, drift, user_pids, print_user_nodes_table-Balanced,
  print_user_nodes_table-SumsTo,
}
use simulazione_transazioni.Economy.Kept.{Books, create_block-IsBooked}
use simulazione_transazioni.Tests.Data.{
  par, payment, message, users, nodes, nine, full_block, zero_block, empty_ledger,
  length-empty_ledger,
}

abbrev ledger : List Block
ledger = full_block ∷ zero_block ∷ []

abbrev payer : UserState
payer = record {
  par = par;
  users_pid = users;
  ledger = ledger;
  out_going = payment 8 (pos 100) (pos 101) 50 1 ∷ [];
  curr_balance = 0;
  my_pid = pos 100;
  trans_msg = message 0;
}

abbrev payee : UserState
payee = record payer { out_going = []; my_pid = pos 101 }

payment-IsBetween : IsBetween (pos 100 ∷ pos 101 ∷ []) (payment 5 (pos 100) (pos 101) 10 1)
unfolding ◌+ℤ◌
payment-IsBetween = record {
  from = refl;
  to = refl;
  others = λ e. ground arith;
  fits = (omega arith, omega arith);
  rewarded = refl;
}

full_block-IsFair : IsFair (pos 100 ∷ pos 101 ∷ []) (pos 200 ∷ []) full_block
unfolding block_flag total_reward
full_block-IsFair = record {
  pay = payment 6 (negsuc 0) (pos 200) 9 0;
  sent = nine;
  shape = refl;
  nine = refl;
  timed = λ e. omega arith;
  to_node = refl;
  exact = refl;
  between =
      All-replicate (IsBetween (pos 100 ∷ pos 101 ∷ [])) 9 (payment 5 (pos 100) (pos 101) 10 1)
        payment-IsBetween;
}

zero_block-IsBlank : IsBlank zero_block
unfolding block_flag own_reward is_free
zero_block-IsBlank = (refl, (λ n. ground arith), refl)

payer-IsReader : IsReader ledger payer
unfolding get_pid_user_index visible block_flag received spent own pending_after remove_first
    compare_transactions cost add_i32 u32_of_ℤ i32_of_u32 ◌+ℤ◌ ◌-ℤ◌
payer-IsReader = record {
  reads = refl;
  index = 0;
  at = refl;
  funded = omega arith;
  small = omega arith;
}

payee-IsReader : IsReader ledger payee
unfolding get_pid_user_index visible block_flag received spent own pending_after cost add_i32
    u32_of_ℤ i32_of_u32 ◌+ℤ◌ ◌-ℤ◌
payee-IsReader = record {
  reads = refl;
  index = 1;
  at = refl;
  funded = omega arith;
  small = omega arith;
}

get_balance-Conserves_example : Conserves ledger (payer ∷ payee ∷ []) (pos 200 ∷ [])
unfolding visible block_flag total_reward
get_balance-Conserves_example =
    get_balance-Conserves ledger (payer ∷ payee ∷ []) (pos 200 ∷ [])
      (payer-IsReader, (payee-IsReader, tt)) (inr (full_block-IsFair, inl (zero_block-IsBlank, tt)))
      (omega arith)

empty_ledger-IsBooked : IsBooked (pos 100 ∷ pos 101 ∷ []) (pos 200 ∷ []) empty_ledger
unfolding empty_ledger
empty_ledger-IsBooked =
    inl (zero_block-IsBlank, All-replicate IsBlank 999 zero_block zero_block-IsBlank)

nothing_written : length (written empty_ledger) ≡ 0
unfolding empty_ledger written is_free
nothing_written = refl

create_block-IsBooked_example :
    Books
      (pos 100 ∷ pos 101 ∷ [])
      (pos 200 ∷ [])
      refl
      par
      (pos 200)
      (record { tv_sec = 7; tv_nsec = 1 })
      0
      nine
      0
      nodes
      empty_ledger
unfolding get_pid_node_index total_reward
create_block-IsBooked_example =
    create_block-IsBooked (pos 100 ∷ pos 101 ∷ []) (pos 200 ∷ []) refl par (pos 200)
      (record { tv_sec = 7; tv_nsec = 1 }) 0 nine 0 nodes empty_ledger empty_ledger-IsBooked
      length-empty_ledger (omega (arith, nothing_written)) refl (λ e. omega arith) refl refl
      (All-replicate (IsBetween (pos 100 ∷ pos 101 ∷ [])) 9 (payment 5 (pos 100) (pos 101) 10 1)
        payment-IsBetween)
      (omega arith)

-- The user 101 gets its signal first.
ending : IsEnding par ledger (λ _. ledger) (payee ∷ payer ∷ []) (pos 200 ∷ []) users nodes
unfolding pending_after remove_first compare_transactions visible block_flag received spent own
    total_reward cost add_i32 u32_of_ℤ i32_of_u32 ◌+ℤ◌ ◌-ℤ◌
ending = record {
  ours = ((refl, refl, omega arith), ((refl, refl, omega arith), tt));
  users_size = refl;
  users_once = (refl, (refl, tt));
  users_done = ((λ e. omega arith), ((λ e. omega arith), tt));
  nodes_size = omega arith;
  nodes_once = (refl, tt);
  nodes_done = (inr (λ e. omega arith), (inl refl, tt));
  booked = inr (full_block-IsFair, inl (zero_block-IsBlank, tt));
  rewards = omega arith;
  fits = ((omega arith, omega arith), ((omega arith, omega arith), tt));
}

print_user_nodes_table-Balanced_example :
    Balanced par ledger (payee ∷ payer ∷ []) (pos 200 ∷ []) users nodes
print_user_nodes_table-Balanced_example =
    print_user_nodes_table-Balanced par ledger (payee ∷ payer ∷ []) (pos 200 ∷ []) users nodes
      ending

-- User 100 reads the ledger before the block is there, and what it sent is still on its list.
abbrev early : ℤ → List Block
early p = if p ==ℤ pos 100 then zero_block ∷ [] else ledger

reading_early :
    IsEnding par ledger early
      (payee ∷ record payer { ledger = zero_block ∷ [] } ∷ [])
      (pos 200 ∷ [])
      users
      nodes
unfolding pending_after remove_first compare_transactions visible block_flag received spent own
    total_reward cost add_i32 u32_of_ℤ i32_of_u32 ◌+ℤ◌ ◌-ℤ◌
reading_early = record {
  ours = ((refl, refl, omega arith), ((refl, refl, omega arith), tt));
  users_size = refl;
  users_once = (refl, (refl, tt));
  users_done = ((λ e. omega arith), ((λ e. omega arith), tt));
  nodes_size = omega arith;
  nodes_once = (refl, tt);
  nodes_done = (inr (λ e. omega arith), (inl refl, tt));
  booked = inr (full_block-IsFair, inl (zero_block-IsBlank, tt));
  rewards = omega arith;
  fits = ((omega arith, omega arith), ((omega arith, omega arith), tt));
}

print_user_nodes_table-SumsTo_example :
    SumsTo par ledger early
      (payee ∷ record payer { ledger = zero_block ∷ [] } ∷ [])
      (pos 200 ∷ [])
      users
      nodes
      (budgets par users +ℤ total (drift ledger early) (user_pids users))
print_user_nodes_table-SumsTo_example =
    print_user_nodes_table-SumsTo par ledger early
      (payee ∷ record payer { ledger = zero_block ∷ [] } ∷ []) (pos 200 ∷ []) users nodes
      reading_early

-- The nine payments of 11 are still on the account of user 100: the table has 99 units too many.
early_test : total (drift ledger early) (user_pids users) ≡ pos 99
unfolding visible block_flag received spent own cost add_i32 u32_of_ℤ i32_of_u32 ◌+ℤ◌ ◌-ℤ◌
early_test = refl
