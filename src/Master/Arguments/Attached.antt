-- ===== src/Master/Arguments/Attached.antt =====
-- What the processes attach to is what the master created.
use simulazione_transazioni.Prelude.{ℕ, ◌≡◌, refl, List, [], ◌∷◌, Option, none, some, get_elem?}
use simulazione_transazioni.Prelude.Int.{ℤ}
use simulazione_transazioni.Prelude.Words.{IsI32}
use simulazione_transazioni.Sys.Decimal.{snprintf_int, atoi, atoi-snprintf_int}
use simulazione_transazioni.Master.Arguments.{
  argument_size, shm_array, make_ipc_array, argument, make_arguments, attach_node_objects,
  attach_user_objects,
}

-- The array of main, with what malloc left in its texts, and the word behind it.
abbrev pub argv_spawns : (ℕ → List ℕ) → Option (List ℕ) → List (Option (List ℕ))
argv_spawns raw behind =
    some (raw 0)
    ∷ some (raw 1)
    ∷ some (raw 2)
    ∷ some (raw 3)
    ∷ some (raw 4)
    ∷ some (raw 5)
    ∷ some (raw 6)
    ∷ some (raw 7)
    ∷ behind
    ∷ []

-- The arguments of a child: its name, the texts of the IDs, and NULL.
abbrev pub argv_of : List ℕ → ℤ → ℤ → ℤ → ℤ → ℤ → ℤ → ℤ → List (Option (List ℕ))
argv_of name i₀ i₁ i₂ i₃ i₄ i₅ i₆ =
    some name
    ∷ argument i₀
    ∷ argument i₁
    ∷ argument i₂
    ∷ argument i₃
    ∷ argument i₄
    ∷ argument i₅
    ∷ argument i₆
    ∷ none
    ∷ []

argument_id-argument : (id : ℤ) → IsI32 id → atoi (snprintf_int argument_size id) ≡ id
argument_id-argument id h = (atoi-snprintf_int id h.0 h.1).0

module _ (raw : ℕ → List ℕ) (behind : Option (List ℕ))
    (users_pid nodes_pid par ledger sem_users_pids sem_ledger sem_nodes_pids : ℤ) where
  abbrev pub Attaches : Type 0
  Attaches =
      (argv : List (Option (List ℕ))) × (make_arguments
          (make_ipc_array (shm_array users_pid nodes_pid par ledger) sem_users_pids sem_ledger
            sem_nodes_pids)
          (argv_spawns raw behind)
        ≡ some argv)
      × (get_elem? argv 8 ≡ some none)
      × (attach_node_objects argv
          ≡ some (record {
            par = par;
            users_pid = users_pid;
            nodes_pid = nodes_pid;
            ledger = ledger;
            sem_nodes_pids = sem_nodes_pids;
            sem_ledger = sem_ledger;
          }))
      × (attach_user_objects argv
          ≡ some (record {
            par = par;
            users_pid = users_pid;
            nodes_pid = nodes_pid;
            ledger = ledger;
            sem_users_pids = sem_users_pids;
            sem_ledger = sem_ledger;
          }))

  -- For IDs that an `int` holds: what make_ipc_array collects and make_arguments writes as texts to
  -- the arguments of the children, attach_ipc_objects of a node and of a user reads back, each the
  -- shared memory and the semaphores that it names; the last argument of a child is NULL.
  pub make_arguments-Attaches :
      IsI32 users_pid
      → IsI32 nodes_pid
      → IsI32 par
      → IsI32 ledger
      → IsI32 sem_users_pids
      → IsI32 sem_ledger
      → IsI32 sem_nodes_pids
      → Attaches
  unfolding make_arguments make_ipc_array shm_array attach_node_objects attach_user_objects argument
  make_arguments-Attaches users_ok nodes_ok par_ok ledger_ok su_ok sl_ok sn_ok =
      let users = argument_id-argument users_pid users_ok in
      let nodes = argument_id-argument nodes_pid nodes_ok in
      let pars = argument_id-argument par par_ok in
      let ledgers = argument_id-argument ledger ledger_ok in
      let sus = argument_id-argument sem_users_pids su_ok in
      let sls = argument_id-argument sem_ledger sl_ok in
      let sns = argument_id-argument sem_nodes_pids sn_ok in
      (
        argv_of (raw 0) users_pid nodes_pid par ledger sem_users_pids sem_ledger sem_nodes_pids,
        refl,
        refl,
        λ j. some (record {
          par = pars j;
          users_pid = users j;
          nodes_pid = nodes j;
          ledger = ledgers j;
          sem_nodes_pids = sns j;
          sem_ledger = sls j;
        }),
        λ j. some (record {
          par = pars j;
          users_pid = users j;
          nodes_pid = nodes j;
          ledger = ledgers j;
          sem_users_pids = sus j;
          sem_ledger = sls j;
        }),
      )
