-- ===== src/Tests/Race.antt =====
-- Two processes on an empty ledger, with the semaphores of the master.
use mathlib.Core.Bool.{false≢true}
use simulazione_transazioni.Prelude.{
  ℕ, zero, suc, ◌<◌, ◌≡◌, refl, sym, ◌∙◌, true, arith, some, inl, get_elem?, replicate,
}
use simulazione_transazioni.Common.{Block, so_registry_size}
use simulazione_transazioni.Sys.{efbig}
use simulazione_transazioni.Sem.{sem_reserve, sem_release, semaphores_init}
use simulazione_transazioni.Ledger.{is_free, slot_is_free, write_slot}
use simulazione_transazioni.Ledger.Race.{scan, returned, System, Reach}
use simulazione_transazioni.Ledger.Race.Slots.{IsLedger}
use simulazione_transazioni.Ledger.Race.Invariant.{Inv, Reach-Inv}
use simulazione_transazioni.Ledger.Race.Lost.{insert_block_in_ledger_lost}
use simulazione_transazioni.Tests.Data.{full_block, zero_block, empty_ledger, length-empty_ledger}

abbrev start : System
start = record {
  ledger = empty_ledger;
  sem = semaphores_init.ledger;
  pcs = λ _. scan 0;
  new_blocks = λ _. full_block;
}

free_slot : (n i : ℕ) → i < n → slot_is_free (replicate n zero_block) i ≡ true
unfolding slot_is_free is_free
free_slot zero i h = absurd (omega arith)
free_slot (suc n) zero h = refl
free_slot (suc n) (suc i) h = free_slot n i (omega arith)

same_block :
    (n i : ℕ) (b : Block) → get_elem? (replicate n zero_block) i ≡ some b → is_free b ≡ true
unfolding is_free
same_block zero i b e = cc
same_block (suc n) zero b e = let is : zero_block ≡ b = cc in rw (← is)
same_block (suc n) (suc i) b e = same_block n i b e

pub empty_ledger-IsLedger : IsLedger empty_ledger
unfolding empty_ledger is_free
empty_ledger-IsLedger = record {
  size = length-empty_ledger;
  prefixed = λ i j lt top e. free_slot so_registry_size j top;
  numbered = λ i b e full. absurd (false≢true (sym full ∙ same_block so_registry_size i b e));
}

start-Inv : Inv start
unfolding empty_ledger is_free
start-Inv = record {
  ledger = empty_ledger-IsLedger;
  behind = λ p j h. absurd (omega arith);
  full = λ p. refl;
}

insert_block_in_ledger_lost_example :
    (t : System) × Reach start t
    × (t.pcs 0 ≡ returned)
    × (t.pcs 1 ≡ returned)
    × (t.ledger ≡ write_slot full_block empty_ledger 0)
unfolding sem_reserve sem_release semaphores_init empty_ledger is_free
insert_block_in_ledger_lost_example =
    insert_block_in_ledger_lost start 0 1 0 (omega arith) semaphores_init.ledger
      (inl (efbig, refl, refl, refl)) length-empty_ledger (omega arith) refl refl
      (free_slot so_registry_size 0 (omega arith))

Reach-Inv_example : Inv insert_block_in_ledger_lost_example.0
Reach-Inv_example = Reach-Inv start-Inv insert_block_in_ledger_lost_example.1
