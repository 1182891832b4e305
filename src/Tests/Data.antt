-- ===== src/Tests/Data.antt =====
-- Users, nodes, transactions and blocks for the tests.
use simulazione_transazioni.Prelude.{
  ℕ, zero, suc, ◌≡◌, refl, inl, List, [], ◌∷◌, replicate, length, length-replicate,
}
use simulazione_transazioni.Prelude.Int.{ℤ, pos, negsuc}
use simulazione_transazioni.Common.{
  Parameters, User, Node, Transaction, Block, MsgbufTrans, alive, available, pending, so_block_size,
  so_registry_size, zero_transaction, transaction_mtype,
}
use simulazione_transazioni.Ledger.{is_free}
use simulazione_transazioni.Ledger.Append.{AllFree, IsPrefixed}

abbrev pub par : Parameters
par = record {
  so_user_num = 2;
  so_nodes_num = 1;
  so_budget_init = 1000;
  so_reward = 1;
  so_min_trans_gen_nsec = 100;
  so_max_trans_gen_nsec = 200;
  so_retry = 20;
  so_tp_size = 1000;
  so_min_trans_proc_nsec = 100;
  so_max_trans_proc_nsec = 200;
  so_sim_sec = 10;
  so_friends_num = 1;
  so_hops = 10;
}

-- A payment at second `sec` from `from` to `to`.
abbrev pub payment : ℕ → ℤ → ℤ → ℕ → ℕ → Transaction
payment sec from to amount reward = record {
  timestamp = record { tv_sec = sec; tv_nsec = 0 };
  sender = from;
  receiver = to;
  amount = pos amount;
  reward = pos reward;
  status = pending;
}

-- Nine payments of 10 from user 100 to user 101, with a reward of 1.
abbrev pub nine : List Transaction
nine = replicate 9 (payment 5 (pos 100) (pos 101) 10 1)

abbrev pub full_block : Block
full_block = record { trans_list = payment 6 (negsuc 0) (pos 200) 9 0 ∷ nine; block_index = 0 }

abbrev pub zero_block : Block
zero_block = record { trans_list = replicate so_block_size zero_transaction; block_index = 0 }

-- The ledger at the start.
unfoldable pub empty_ledger : List Block
empty_ledger = replicate so_registry_size zero_block

all_free : (n : ℕ) → AllFree (replicate n zero_block)
unfolding is_free
all_free zero = tt
all_free (suc n) = (refl, all_free n)

prefixed : (n : ℕ) → IsPrefixed (replicate n zero_block)
unfolding is_free
prefixed zero = tt
prefixed (suc n) = inl (refl, all_free n)

pub length-empty_ledger : length empty_ledger ≡ so_registry_size
unfolding empty_ledger
length-empty_ledger = length-replicate so_registry_size zero_block

pub empty_ledger-IsPrefixed : IsPrefixed empty_ledger
unfolding empty_ledger
empty_ledger-IsPrefixed = prefixed so_registry_size

abbrev pub nodes : List Node
nodes =
    record { pid = pos 200; balance = 5; tp_size = pos 0; status = available }
    ∷ record { pid = pos 0; balance = 0; tp_size = pos 0; status = available }
    ∷ []

abbrev pub users : List User
users =
    record { pid = pos 100; balance = 0; status = alive }
    ∷ record { pid = pos 101; balance = 0; status = alive }
    ∷ []

abbrev pub message : ℕ → MsgbufTrans
message n = record {
  mtype = transaction_mtype;
  hops = pos 10;
  user_trans = payment n (pos 100) (pos 101) 10 1;
}
