-- ===== src/Ledger/Race.antt =====
-- insert_block_in_ledger of src/nodes.c, run by the child processes of several nodes at once over
-- the shared ledger and the semaphore set `semLedger_ID`. A process takes one step at a time: a
-- test of a slot, a semaphore call, the copy of the block, its confirmation. That the copy is one step,
-- though other processes may see parts of it, is a simplification.
pub mod Slots
pub mod Invariant
pub mod Lost
use simulazione_transazioni.Prelude.{
  ℕ, ◌+◌, ◌==◌, ◌≡◌, List, Option, none, some, if◌then◌else◌, get_elem?, set,
}
use simulazione_transazioni.Common.{Block, so_registry_size}
use simulazione_transazioni.Sys.{SemResult, done, failed, blocked}
use simulazione_transazioni.Sem.{sem_reserve, sem_release, locked_num}
use simulazione_transazioni.Ledger.{slot_is_free, confirm_block}

-- What a process does next: test slot `i`, reserve the semaphore, copy the block to slot `i`,
-- confirm slot `i`, release; or it has returned, or found the ledger full.
pub data Pc : Type 0 where
  scan reserve store confirm release : ℕ → Pc
  returned killed : Pc

pub record System : Type 0 where
  pub ledger : List Block
  pub sem : List ℕ
  pub pcs : ℕ → Pc
  pub new_blocks : ℕ → Block

-- What a process does after a semaphore call, whose return value it does not look at.
unfoldable pub past : Pc → List Block → List ℕ → SemResult → Option (Pc × List Block × List ℕ)
past pc ledger sem (done sem') = some (pc, ledger, sem')
past pc ledger sem (failed _) = some (pc, ledger, sem)
past pc ledger sem blocked = none

-- One step of a process with the block `new_block`; `none` if it waits or has ended.
unfoldable pub advance : Block → Pc → List Block → List ℕ → Option (Pc × List Block × List ℕ)
unfolding past
advance new_block (scan i) ledger sem =
    if i == so_registry_size
    then some (killed, ledger, sem)
    else if slot_is_free ledger i
    then some (reserve i, ledger, sem)
    else some (scan (i + 1), ledger, sem)
advance new_block (reserve i) ledger sem = past (store i) ledger sem (sem_reserve sem locked_num)
advance new_block (store i) ledger sem =
    some (confirm i, set ledger i (record new_block { block_index = i }), sem)
advance new_block (confirm i) ledger sem = elim (get_elem? ledger i) [
  | none ↦ none
  | some b ↦ some (release i, set ledger i (confirm_block b), sem)
]
advance new_block (release i) ledger sem = past returned ledger sem (sem_release sem locked_num)
advance new_block returned ledger sem = none
advance new_block killed ledger sem = none

abbrev pub update : (ℕ → Pc) → ℕ → Pc → ℕ → Pc
update pcs p pc q = if p == q then pc else pcs q

unfoldable pub resume : System → ℕ → Option (Pc × List Block × List ℕ) → Option System
resume s p none = none
resume s p (some (pc, ledger, sem)) =
    some (record s { ledger = ledger; sem = sem; pcs = update s.pcs p pc })

-- Process `p` takes a step.
unfoldable pub turn : ℕ → System → Option System
unfolding advance resume
turn p s = resume s p (advance (s.new_blocks p) (s.pcs p) s.ledger s.sem)

pub data Reach (s : System) : System → Type 0 where
  here : Reach s s
  next : {t u : System} (p : ℕ) → Reach s t → turn p t ≡ some u → Reach s u
