-- ===== src/Sys.antt =====
-- What the program uses of the C library and the kernel: `errno`, the semaphore sets of `semget`
-- and the message queues of `msgget`, as their manual pages describe them. No file of the
-- repository is modelled here.
pub mod Decimal
use simulazione_transazioni.Prelude.{
  ℕ, zero, suc, ◌+◌, ◌-◌, ◌/◌, ◌%◌, leb, ◌==◌, if◌then◌else◌, ltb, List, [], ◌∷◌, Option, none,
  some, get_elem?, set, replicate,
}
use simulazione_transazioni.Prelude.Int.{ℤ, pos, negsuc}
use simulazione_transazioni.Common.{MsgbufTrans, MsgbufFriends}

-- `other` is any error that the program does not name.
pub data Errno : Type 0 where
  no_error e2big eacces eagain efault efbig eidrm eintr einval enomem enomsg erange other : Errno

-- The answer of a call that changes a semaphore set: the new values, an error, or no return yet.
pub data SemResult : Type 0 where
  done : List ℕ → SemResult
  failed : Errno → SemResult
  blocked : SemResult

-- `semget` gives a new set of `nsems` semaphores of value 0.
abbrev pub semget : ℕ → List ℕ
semget nsems = replicate nsems 0

-- The largest value of a semaphore.
abbrev pub semvmx : ℕ
semvmx = 32767

-- `struct sembuf`
pub record Sembuf : Type 0 where
  pub sem_num : ℕ
  pub sem_op : ℤ
  pub sem_flg : ℕ

abbrev pub ipc_nowait : ℕ
ipc_nowait = 2048

-- What a call does that cannot go on now.
abbrev pub wait_or_fail : ℕ → SemResult
wait_or_fail sem_flg = if sem_flg / ipc_nowait % 2 == 0 then blocked else failed eagain

-- An operation on semaphore `num`, of value `v`: a positive number is added, 0 waits for 0, a
-- negative number is subtracted as soon as the value allows.
unfoldable pub semop_value : List ℕ → ℕ → ℕ → ℤ → ℕ → SemResult
semop_value values num v (pos zero) sem_flg = if v == 0 then done values else wait_or_fail sem_flg
semop_value values num v (pos (suc n)) sem_flg =
    if leb (v + suc n) semvmx then done (set values num (v + suc n)) else failed erange
semop_value values num v (negsuc n) sem_flg =
    if leb (suc n) v then done (set values num (v - suc n)) else wait_or_fail sem_flg

-- `semop` with one operation.
unfoldable pub semop : List ℕ → Sembuf → SemResult
unfolding semop_value
semop values sops = elim (get_elem? values sops.sem_num) [
  | none ↦ failed efbig
  | some v ↦ semop_value values sops.sem_num v sops.sem_op sops.sem_flg
]

-- `semctl` with SETVAL.
unfoldable pub semctl_setval : List ℕ → ℕ → ℕ → SemResult
semctl_setval values sem_num v = elim (get_elem? values sem_num) [
  | none ↦ failed einval
  | some _ ↦ if ltb semvmx v then failed erange else done (set values sem_num v)
]

-- The messages that wait on a queue, oldest first.
pub data Message : Type 0 where
  trans : MsgbufTrans → Message
  friend : MsgbufFriends → Message

abbrev pub Queue : Type 0
Queue = List Message

-- `msgrcv` of the first transaction on the queue.
unfoldable pub msgrcv_trans : Queue → Option (MsgbufTrans × Queue)
msgrcv_trans [] = none
msgrcv_trans (trans m ∷ q) = some (m, q)
msgrcv_trans (friend f ∷ q) = elim (msgrcv_trans q) [
  | none ↦ none
  | some (m, r) ↦ some (m, friend f ∷ r)
]

-- `msgrcv` of the first friend on the queue.
unfoldable pub msgrcv_friend : Queue → Option (MsgbufFriends × Queue)
msgrcv_friend [] = none
msgrcv_friend (friend f ∷ q) = some (f, q)
msgrcv_friend (trans m ∷ q) = elim (msgrcv_friend q) [
  | none ↦ none
  | some (f, r) ↦ some (f, trans m ∷ r)
]
