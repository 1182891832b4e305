-- ===== src/Ledger/Race/Invariant.antt =====
-- What every interleaving of insert_block_in_ledger keeps, with or without a working semaphore.
use simulazione_transazioni.Prelude.{
  ℕ, ◌+◌, ◌≡◌, refl, inl, inr, false, List, Option, none, some, arith, ◌==◌, get_elem?, Bool-cases,
  Option-cases,
}
use simulazione_transazioni.Common.{Block, so_registry_size}
use simulazione_transazioni.Sys.{SemResult, done, failed, blocked}
use simulazione_transazioni.Sem.{sem_reserve, sem_release, locked_num}
use simulazione_transazioni.Ledger.{slot_is_free, is_free}
use simulazione_transazioni.Ledger.Race.{
  Pc, scan, reserve, store, confirm, release, returned, killed, System, advance, update, resume,
  turn, past, Reach, here, next,
}
use simulazione_transazioni.Ledger.Race.Slots.{
  IsLedger, Behind, Behind-set, IsLedger-set, IsLedger-confirm, Behind-confirm, Behind-suc,
}

-- The slots that a process has seen written.
abbrev pub seen : Pc → ℕ
seen (scan i) = i
seen (reserve i) = i
seen (store i) = i
seen (confirm i) = i
seen (release i) = i
seen returned = 0
seen killed = 0

-- What a step of a process with a block that is not free does to the ledger.
record Advances (l : List Block) (pc : Pc) (l' : List Block) : Type 0 where
  ledger : IsLedger l'
  behind : Behind l' (seen pc)
  kept : (n : ℕ) → Behind l n → Behind l' n

module _ (b : Block) (full : is_free b ≡ false) (l : List Block) (ok : IsLedger l) where
  same :
      {pc' : Pc} {l' : List Block} (pc : Pc)
      → Behind l (seen pc)
      → pc ≡ pc'
      → l ≡ l'
      → Advances l pc' l'
  same pc behind e f = rw (← e, ← f) (record { ledger = ok; behind = behind; kept = λ n h. h })

  After : Option (Pc × List Block × List ℕ) → Type 0
  After none = Unit {0}
  After (some (pc, l', _)) = Advances l pc l'

  numbered_full : (i : ℕ) → is_free (record b { block_index = i }) ≡ false
  unfolding is_free
  numbered_full i = full

  past-Advances :
      (pc' : Pc) (sem : List ℕ) (r : SemResult) → Behind l (seen pc') → After (past pc' l sem r)
  unfolding past After
  past-Advances pc' sem (done _) behind = same pc' behind refl refl
  past-Advances pc' sem (failed _) behind = same pc' behind refl refl
  past-Advances pc' sem blocked behind = tt

  scan-Advances : (i : ℕ) (sem : List ℕ) → Behind l i → After (advance b (scan i) l sem)
  unfolding advance After
  scan-Advances i sem behind = elim (Bool-cases (i == so_registry_size)) [
    | inl end ↦ rw (end, After) (same killed (λ j h. absurd (omega arith)) refl refl)
    | inr more ↦ elim (Bool-cases (slot_is_free l i)) [
      | inl found ↦ rw (more, found, After) (same (reserve i) behind refl refl)
      | inr not_yet ↦
          rw (more, not_yet, After) (same (scan (i + 1)) (Behind-suc l i behind not_yet) refl refl)
    ]
  ]

  confirm-Advances : (i : ℕ) (sem : List ℕ) → Behind l i → After (advance b (confirm i) l sem)
  unfolding advance After
  confirm-Advances i sem behind = elim (Option-cases (get_elem? l i)) [
    | inl missing ↦ rw (missing, After) tt
    | inr (c, at) ↦
        rw (at, After)
          (record {
            ledger = IsLedger-confirm l i c at ok;
            behind = Behind-confirm l i c i at behind;
            kept = λ n. Behind-confirm l i c n at;
          })
  ]

  advance-Advances : (pc : Pc) (sem : List ℕ) → Behind l (seen pc) → After (advance b pc l sem)
  unfolding advance After
  advance-Advances (scan i) sem behind = scan-Advances i sem behind
  advance-Advances (reserve i) sem behind =
      past-Advances (store i) sem (sem_reserve sem locked_num) behind
  advance-Advances (store i) sem behind =
      let x = record b { block_index = i } in
      record {
        ledger = IsLedger-set l i x (numbered_full i) refl behind ok;
        behind = Behind-set l i x i (numbered_full i) behind;
        kept = λ n. Behind-set l i x n (numbered_full i);
      }
  advance-Advances (confirm i) sem behind = confirm-Advances i sem behind
  advance-Advances (release i) sem behind =
      past-Advances returned sem (sem_release sem locked_num) (λ j h. absurd (omega arith))
  advance-Advances returned sem behind = tt
  advance-Advances killed sem behind = tt

-- The invariant of the system: a ledger in order, every process behind which all slots are written,
-- and no process with a block that would leave its slot free.
pub record Inv (s : System) : Type 0 where
  pub ledger : IsLedger s.ledger
  pub behind : (p : ℕ) → Behind s.ledger (seen (s.pcs p))
  pub full : (p : ℕ) → is_free (s.new_blocks p) ≡ false

module _ (s : System) (inv : Inv s) (p : ℕ) where
  resume-Inv :
      (r : Option (Pc × List Block × List ℕ)) {t : System}
      → After (s.new_blocks p) (inv.full p) s.ledger inv.ledger r
      → resume s p r ≡ some t
      → Inv t
  unfolding resume After
  resume-Inv none a e = cc
  resume-Inv (some (pc, l, sem)) {t} a e =
      let is : record s { ledger = l; sem = sem; pcs = update s.pcs p pc } ≡ t = cc in
      rw (← is) (record {
        ledger = a.ledger;
        behind = λ q. elim (Bool-cases (p == q)) [
          | inl self ↦ rw self a.behind
          | inr other ↦ rw other (a.kept (seen (s.pcs q)) (inv.behind q))
        ];
        full = inv.full;
      })

  turn-Inv : {t : System} → turn p s ≡ some t → Inv t
  unfolding turn
  turn-Inv = resume-Inv (advance (s.new_blocks p) (s.pcs p) s.ledger s.sem) (
      advance-Advances (s.new_blocks p) (inv.full p) s.ledger inv.ledger (s.pcs p) s.sem
        (inv.behind p))

-- If the ledger has the size of the registry, its written slots stand in front of the free ones
-- and bear their numbers, all slots below the one that a process is at are written, and no process
-- has a block that would leave its slot free, then all of this is so in every state that is
-- reached, however any number of processes interleave their calls of insert_block_in_ledger and
-- whatever the semaphores do.
pub Reach-Inv : {s t : System} → Inv s → Reach s t → Inv t
Reach-Inv inv here = inv
Reach-Inv inv (next {t} p r e) = turn-Inv t (Reach-Inv inv r) p e
