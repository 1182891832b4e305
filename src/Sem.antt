-- ===== src/Sem.antt =====
-- src/utils/sem.c: the semaphore operations, over a set given by its values, and the sets that
-- semaphores_init of src/master.c makes. A call returns 0 or -1; `errno` is set on an error.
pub mod Locking
use simulazione_transazioni.Prelude.{ℕ, List, [], ◌∷◌, ◌++◌, Option, none, some}
use simulazione_transazioni.Prelude.Int.{ℤ, pos, negsuc}
use simulazione_transazioni.Sys.Decimal.{decimal}
use simulazione_transazioni.Sys.{SemResult, semget, semop, semctl_setval}

unfoldable pub sem_set_val : List ℕ → ℕ → ℕ → SemResult
unfolding semctl_setval
sem_set_val values sem_num sem_val = semctl_setval values sem_num sem_val

unfoldable pub sem_reserve : List ℕ → ℕ → SemResult
unfolding semop
sem_reserve values sem_num =
    semop values (record { sem_num = sem_num; sem_op = negsuc 0; sem_flg = 0 })

unfoldable pub sem_release : List ℕ → ℕ → SemResult
unfolding semop
sem_release values sem_num =
    semop values (record { sem_num = sem_num; sem_op = pos 1; sem_flg = 0 })

-- The text that sem_getall makes of the values of a set, without its final NUL.
unfoldable pub sem_getall : List ℕ → List ℕ
sem_getall [] = []
sem_getall (v ∷ vs) = let rest = sem_getall vs in decimal (pos v) ++ b' ' ∷ rest

pub record Semaphores : Type 0 where
  pub users_pids : List ℕ
  pub nodes_pids : List ℕ
  pub ledger : List ℕ

-- Three sets of one semaphore each, with no initial value set.
unfoldable pub semaphores_init : Semaphores
semaphores_init = record { users_pids = semget 1; nodes_pids = semget 1; ledger = semget 1 }

-- The semaphore number that every caller in src/nodes.c and src/users.c passes.
abbrev pub locked_num : ℕ
locked_num = 1
