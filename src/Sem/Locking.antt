-- ===== src/Sem/Locking.antt =====
-- What the semaphores that the master makes do for the critical sections of src/nodes.c and
-- src/users.c.
use simulazione_transazioni.Prelude.{
  ℕ, zero, suc, ◌≤◌, ◌≡◌, refl, List, [], ◌∷◌, none, arith, get_elem?, length,
}
use simulazione_transazioni.Sys.{failed, efbig}
use simulazione_transazioni.Sem.{sem_reserve, sem_release, semaphores_init, locked_num}

get_elem?-eq-none {ℓ} : {A : Type ℓ} (xs : List A) (i : ℕ) → length xs ≤ i → get_elem? xs i ≡ none
get_elem?-eq-none [] i h = refl
get_elem?-eq-none (x ∷ xs) zero h = absurd (omega arith)
get_elem?-eq-none (x ∷ xs) (suc i) h = get_elem?-eq-none xs i (omega arith)

-- On a set of at most one semaphore, such as the master makes, the reservation and the release that
-- the nodes and the users call are refused with EFBIG, whatever the values: they neither block nor
-- change the set.
pub sem_reserve-locked_num :
    (values : List ℕ)
    → length values ≤ length semaphores_init.ledger
    → (sem_reserve values locked_num ≡ failed efbig)
      × (sem_release values locked_num ≡ failed efbig)
unfolding sem_reserve sem_release semaphores_init
sem_reserve-locked_num values h =
    let e = get_elem?-eq-none values 1 h in (ground (arith, e), ground (arith, e))
