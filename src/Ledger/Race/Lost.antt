-- ===== src/Ledger/Race/Lost.antt =====
-- Two processes that call insert_block_in_ledger of src/nodes.c at once: the second block replaces
-- the first, since the free slot is looked for outside the critical section.
use simulazione_transazioni.Prelude.{
  ℕ, ◌<◌, ◌≡◌, ◌≢◌, refl, sym, ◌∙◌, ◌⊎◌, inl, inr, true, false, List, some, arith, ◌==◌, length,
  length-set, get_elem?, set, set-set, get_elem?-set_self,
}
use simulazione_transazioni.Common.{Block, so_registry_size}
use simulazione_transazioni.Sys.{Errno, done, failed}
use simulazione_transazioni.Sem.{sem_reserve, sem_release, locked_num}
use simulazione_transazioni.Ledger.{slot_is_free, confirm_block, write_slot}
use simulazione_transazioni.Ledger.Race.{
  Pc, scan, reserve, store, confirm, release, returned, System, advance, update, resume, turn, past,
  Reach, here, next,
}

-- A semaphore set that lets one process at a time through: its calls are refused, or it is a free
-- lock, which is `held` meanwhile.
abbrev pub LetsThrough : List ℕ → List ℕ → Type 0
LetsThrough sem held =
    ((e : Errno) × (sem_reserve sem locked_num ≡ failed e)
      × (sem_release sem locked_num ≡ failed e)
      × (held ≡ sem))
    ⊎ ((sem_reserve sem locked_num ≡ done held) × (sem_release held locked_num ≡ done sem))

Reach-trans : {s t u : System} → Reach s t → Reach t u → Reach s u
Reach-trans r here = r
Reach-trans r (next p q e) = next p (Reach-trans r q) e

abbrev moved : System → ℕ → Pc → List Block → List ℕ → System
moved s p pc ledger sem = record s { ledger = ledger; sem = sem; pcs = update s.pcs p pc }

turn-moved :
    (s : System) (p : ℕ) (before pc : Pc) (ledger : List Block) (sem : List ℕ)
    → s.pcs p ≡ before
    → advance (s.new_blocks p) before s.ledger s.sem ≡ some (pc, ledger, sem)
    → turn p s ≡ some (moved s p pc ledger sem)
unfolding turn resume
turn-moved s p before pc ledger sem at e = rw (at, e, turn, resume)

update_self : (pcs : ℕ → Pc) (p : ℕ) (pc : Pc) → update pcs p pc p ≡ pc
update_self pcs p pc = ground arith

update_ne : (pcs : ℕ → Pc) (p q : ℕ) (pc : Pc) → p ≢ q → update pcs p pc q ≡ pcs q
update_ne pcs p q pc h = ground arith

past-reserve :
    (sem held : List ℕ) (pc : Pc) (l : List Block)
    → LetsThrough sem held
    → past pc l sem (sem_reserve sem locked_num) ≡ some (pc, l, held)
unfolding past
past-reserve sem held pc l (inl (e, r, _, same)) = rw (r, past, same)
past-reserve sem held pc l (inr (r, _)) = rw (r, past)

past-release :
    (sem held : List ℕ) (pc : Pc) (l : List Block)
    → LetsThrough sem held
    → past pc l held (sem_release held locked_num) ≡ some (pc, l, sem)
unfolding past
past-release sem held pc l (inl (e, _, r, same)) = rw same (rw (r, past))
past-release sem held pc l (inr (_, r)) = rw (r, past)

confirm-found :
    (new_block : Block) (i : ℕ) (l : List Block) (sem : List ℕ) {b : Block}
    → get_elem? l i ≡ some b
    → advance new_block (confirm i) l sem ≡ some (release i, set l i (confirm_block b), sem)
unfolding advance
confirm-found new_block i l sem at = rw (at, advance)

-- The end of a call of process `p` that found slot `i` free.
record Ends (s : System) (p i : ℕ) : Type 0 where
  last : System
  reach : Reach s last
  ended : last.pcs p ≡ returned
  others : (q : ℕ) → p ≢ q → last.pcs q ≡ s.pcs q
  ledger : last.ledger ≡ write_slot (s.new_blocks p) s.ledger i
  sem : last.sem ≡ s.sem
  new_blocks : last.new_blocks ≡ s.new_blocks

module _ (s : System) (p i : ℕ) (held : List ℕ) (lets : LetsThrough s.sem held) where
  b : Block
  b = record (s.new_blocks p) { block_index = i }

  stored : List Block
  stored = set s.ledger i b

  at_store : System
  at_store = moved s p (store i) s.ledger held

  at_confirm : System
  at_confirm = moved at_store p (confirm i) stored held

  at_release : System
  at_release = moved at_confirm p (release i) (set stored i (confirm_block b)) held

  at_return : System
  at_return = moved at_release p returned (set stored i (confirm_block b)) s.sem

  critical_section : s.pcs p ≡ reserve i → i < length s.ledger → Ends s p i
  unfolding at_return at_release at_confirm at_store stored b write_slot
  critical_section at inside = record {
    last = at_return;
    reach =
        next p
          (next p
            (next p
              (next p here (
                turn-moved s p (reserve i) (store i) s.ledger held at
                  (unfold advance in past-reserve s.sem held (store i) s.ledger lets)))
              (turn-moved at_store p (store i) (confirm i) stored held (update_self s.pcs p _)
                (unfold advance in refl)))
            (turn-moved at_confirm p (confirm i) (release i) (set stored i (confirm_block b)) held
              (update_self at_store.pcs p _)
              (confirm-found _ i stored held (get_elem?-set_self s.ledger i b inside))))
          (turn-moved at_release p (release i) returned (set stored i (confirm_block b)) s.sem
            (update_self at_confirm.pcs p _)
            (unfold advance in past-release s.sem held returned _ lets));
    ended = update_self at_release.pcs p _;
    others = λ q other. ground arith;
    ledger = set-set s.ledger i b (confirm_block b);
    sem = refl;
    new_blocks = refl;
  }

scan-found :
    (b : Block) (i : ℕ) (l : List Block) (sem : List ℕ)
    → i < so_registry_size
    → slot_is_free l i ≡ true
    → advance b (scan i) l sem ≡ some (reserve i, l, sem)
unfolding advance
scan-found b i l sem small free =
    let e : (i == so_registry_size) ≡ false = ground arith in rw (e, free)

module _ (s : System) (p q i : ℕ) (apart : p ≢ q) where
  both_found : System
  both_found = moved (moved s p (reserve i) s.ledger s.sem) q (reserve i) s.ledger s.sem

  both_found-Reach :
      i < so_registry_size
      → s.pcs p ≡ scan i
      → s.pcs q ≡ scan i
      → slot_is_free s.ledger i ≡ true
      → Reach s both_found
  unfolding both_found
  both_found-Reach small at_p at_q free =
      next q
        (next p here (
          turn-moved s p (scan i) (reserve i) s.ledger s.sem at_p
            (scan-found (s.new_blocks p) i s.ledger s.sem small free)))
        (turn-moved (moved s p (reserve i) s.ledger s.sem) q (scan i) (reserve i) s.ledger s.sem
          (update_ne s.pcs p q (reserve i) apart ∙ at_q)
          (scan-found (s.new_blocks q) i s.ledger s.sem small free))

  -- Two processes that are about to test the same free slot may both return from
  -- insert_block_in_ledger with the ledger that the second alone would have left: the block of the
  -- first is gone. This is so if the semaphore calls are refused, as on the sets of the master, and
  -- if the semaphore is a working lock.
  pub insert_block_in_ledger_lost :
      (held : List ℕ)
      → LetsThrough s.sem held
      → length s.ledger ≡ so_registry_size
      → i < so_registry_size
      → s.pcs p ≡ scan i
      → s.pcs q ≡ scan i
      → slot_is_free s.ledger i ≡ true
      → (t : System) × Reach s t
        × (t.pcs p ≡ returned)
        × (t.pcs q ≡ returned)
        × (t.ledger ≡ write_slot (s.new_blocks q) s.ledger i)
  unfolding both_found write_slot
  insert_block_in_ledger_lost held lets size small at_p at_q free =
      let first =
        critical_section both_found p i held lets
          (update_ne (update s.pcs p (reserve i)) q p (reserve i) (λ e. apart (sym e))
            ∙ update_self s.pcs p (reserve i))
          (omega arith) in
      let second =
        critical_section first.last q i held (rw first.sem lets)
          (first.others q apart ∙ update_self (update s.pcs p (reserve i)) q (reserve i))
          (rw (first.ledger, length-set s.ledger i) (omega arith)) in
      (
        second.last,
        Reach-trans (both_found-Reach small at_p at_q free) (Reach-trans first.reach second.reach),
        second.others p (λ e. apart (sym e)) ∙ first.ended,
        second.ended,
        second.ledger ∙ rw (first.ledger, first.new_blocks) (set-set s.ledger i _ _),
      )
