-- ===== src/Common.antt =====
-- src/include/common.h: the constants, the structs that the processes share, and the messages.
-- `unsigned int` and `unsigned long` are native numbers, `int`, `long` and `pid_t` integers.
-- The fields of a `struct timespec` are never negative: they come from CLOCK_REALTIME.
use simulazione_transazioni.Prelude.{ℕ, Bool, true, false, List}
use simulazione_transazioni.Prelude.Int.{ℤ, pos, negsuc}

-- Transactions per block.
abbrev pub so_block_size : ℕ
so_block_size = 10

-- Blocks in the ledger.
abbrev pub so_registry_size : ℕ
so_registry_size = 1000

-- The sender of a reward transaction.
abbrev pub self : ℤ
self = negsuc 0

abbrev pub transaction_mtype : ℕ
transaction_mtype = 28410

abbrev pub friends_mtype : ℕ
friends_mtype = 28411

-- What the functions return.
abbrev pub success : ℤ
success = pos 0

abbrev pub error : ℤ
error = negsuc 0

pub record Parameters : Type 0 where
  pub so_user_num : ℕ
  pub so_nodes_num : ℕ
  pub so_budget_init : ℕ
  pub so_reward : ℕ
  pub so_min_trans_gen_nsec : ℕ
  pub so_max_trans_gen_nsec : ℕ
  pub so_retry : ℕ
  pub so_tp_size : ℕ
  pub so_min_trans_proc_nsec : ℕ
  pub so_max_trans_proc_nsec : ℕ
  pub so_sim_sec : ℕ
  pub so_friends_num : ℕ
  pub so_hops : ℕ

pub data UserStatus : Type 0 where
  alive broke dead : UserStatus

-- The test `status == dead`.
unfoldable pub is_dead : UserStatus → Bool
is_dead dead = true
is_dead _ = false

pub record User : Type 0 where
  pub pid : ℤ
  pub balance : ℕ
  pub status : UserStatus

pub data NodeStatus : Type 0 where
  available full : NodeStatus

pub record Node : Type 0 where
  pub pid : ℤ
  pub balance : ℕ
  pub tp_size : ℤ
  pub status : NodeStatus

pub record Timespec : Type 0 where
  pub tv_sec : ℕ
  pub tv_nsec : ℕ

pub data TransStatus : Type 0 where
  pending processing confirmed aborted : TransStatus

pub record Transaction : Type 0 where
  pub timestamp : Timespec
  pub sender : ℤ
  pub receiver : ℤ
  pub amount : ℤ
  pub reward : ℤ
  pub status : TransStatus

-- `trans_list` has `so_block_size` entries.
pub record Block : Type 0 where
  pub trans_list : List Transaction
  pub block_index : ℕ

-- A `struct msgbuf_trans` but for its `next` pointer, which the memory cell holds.
pub record MsgbufTrans : Type 0 where
  pub mtype : ℕ
  pub hops : ℤ
  pub user_trans : Transaction

pub record MsgbufFriends : Type 0 where
  pub mtype : ℕ
  pub friend : ℤ

pub data Term : Type 0 where
  time_elapsed users_dead ledger_full : Term

-- What a zeroed shared memory segment holds.
abbrev pub zero_transaction : Transaction
zero_transaction = record {
  timestamp = record { tv_sec = 0; tv_nsec = 0 };
  sender = pos 0;
  receiver = pos 0;
  amount = pos 0;
  reward = pos 0;
  status = pending;
}
