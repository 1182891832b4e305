-- ===== src/Master/Arguments.antt =====
-- The IDs of the shared objects, from make_ipc_array and make_arguments of src/master.c over the
-- arguments of a process to attach_ipc_objects of src/nodes.c and of src/users.c, with the macros for
-- argv of src/include/common.h. An argument is a text without its final NUL, or NULL.
pub mod Attached
use simulazione_transazioni.Prelude.{
  ℕ, List, [], ◌∷◌, ◌++◌, Option, none, some, get_elem?, set, take,
}
use simulazione_transazioni.Prelude.Int.{ℤ}
use simulazione_transazioni.Sys.Decimal.{snprintf_int, atoi}

-- SHM_NUM
abbrev pub shm_num : ℕ
shm_num = 4

-- The length of the texts, as all calls give it.
abbrev pub argument_size : ℕ
argument_size = 13

-- The array that shared_memory_objects_init fills.
unfoldable pub shm_array : ℤ → ℤ → ℤ → ℤ → List ℤ
shm_array users_pid nodes_pid par ledger = users_pid ∷ nodes_pid ∷ par ∷ ledger ∷ []

-- make_ipc_array: the shared memory, and the semaphores in the order of `semIDs`.
unfoldable pub make_ipc_array : List ℤ → ℤ → ℤ → ℤ → List ℤ
make_ipc_array shm_ids sem_users_pids sem_ledger sem_nodes_pids =
    take shm_num shm_ids ++ (sem_users_pids ∷ sem_ledger ∷ sem_nodes_pids ∷ [])

-- snprintf to a local array, and strncpy to the argument.
unfoldable pub argument : ℤ → Option (List ℕ)
argument id = some (snprintf_int argument_size id)

-- `argv` holds the entries of the array and the word behind them, which the last statement writes.
-- `none`: the array of IDs is too short.
unfoldable pub make_arguments : List ℤ → List (Option (List ℕ)) → Option (List (Option (List ℕ)))
unfolding argument
make_arguments (i₀ ∷ i₁ ∷ i₂ ∷ i₃ ∷ i₄ ∷ i₅ ∷ i₆ ∷ rest) argv =
    let argv₁ = set argv 1 (argument i₀) in
    let argv₂ = set argv₁ 2 (argument i₁) in
    let argv₃ = set argv₂ 3 (argument i₂) in
    let argv₄ = set argv₃ 4 (argument i₃) in
    let argv₅ = set argv₄ 5 (argument i₄) in
    let argv₆ = set argv₅ 6 (argument i₅) in
    let argv₇ = set argv₆ 7 (argument i₆) in some (set argv₇ 8 none)
make_arguments _ argv = none

-- `atoi(argv[i])`. `none`: the entry is outside the array, or NULL.
unfoldable pub argument_id : List (Option (List ℕ)) → ℕ → Option ℤ
argument_id argv i = elim (get_elem? argv i) [
  | none ↦ none
  | some text ↦ elim text [ none ↦ none | some t ↦ some (atoi t) ]
]

infixl 5 ◌>>=◌
abbrev ◌>>=◌ : {A B : Type 0} → Option A → (A → Option B) → Option B
none >>= f = none
some a >>= f = f a

-- What a node attaches to.
pub record NodeObjects : Type 0 where
  pub par : ℤ
  pub users_pid : ℤ
  pub nodes_pid : ℤ
  pub ledger : ℤ
  pub sem_nodes_pids : ℤ
  pub sem_ledger : ℤ

unfoldable pub attach_node_objects : List (Option (List ℕ)) → Option NodeObjects
unfolding argument_id
attach_node_objects argv = do
  par ← argument_id argv 3
  users_pid ← argument_id argv 1
  nodes_pid ← argument_id argv 2
  ledger ← argument_id argv 4
  sem_nodes_pids ← argument_id argv 7
  sem_ledger ← argument_id argv 6
  some (record {
    par = par;
    users_pid = users_pid;
    nodes_pid = nodes_pid;
    ledger = ledger;
    sem_nodes_pids = sem_nodes_pids;
    sem_ledger = sem_ledger;
  })

-- What a user attaches to.
pub record UserObjects : Type 0 where
  pub par : ℤ
  pub users_pid : ℤ
  pub nodes_pid : ℤ
  pub ledger : ℤ
  pub sem_users_pids : ℤ
  pub sem_ledger : ℤ

unfoldable pub attach_user_objects : List (Option (List ℕ)) → Option UserObjects
unfolding argument_id
attach_user_objects argv = do
  par ← argument_id argv 3
  users_pid ← argument_id argv 1
  nodes_pid ← argument_id argv 2
  ledger ← argument_id argv 4
  sem_users_pids ← argument_id argv 5
  sem_ledger ← argument_id argv 6
  some (record {
    par = par;
    users_pid = users_pid;
    nodes_pid = nodes_pid;
    ledger = ledger;
    sem_users_pids = sem_users_pids;
    sem_ledger = sem_ledger;
  })
