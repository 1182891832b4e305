-- ===== src/Memory.antt =====
-- The memory of one process, as src/utils/pool.c and src/utils/lklist.c use it: cells at addresses,
-- each a value with a `next` pointer, and commands that allocate, read, write and free them. A
-- freed cell keeps its contents until the address is given out again, as the usual allocators do,
-- and a read of it, which the C standard leaves undefined, is counted.
pub mod Chain
use simulazione_transazioni.Prelude.{ℕ, zero, suc, ◌==◌, if◌then◌else◌, ◌&&◌, List, [], ◌∷◌}

abbrev pub Ptr : Type 0
Ptr = ℕ

abbrev pub null : Ptr
null = 0

pub record Cell (A : Type 0) : Type 0 where
  pub value : A
  pub next : Ptr

pub data Slot (A : Type 0) : Type 0 where
  unused : Slot A
  live : Cell A → Slot A
  freed : Cell A → Slot A

pub record Memory (A : Type 0) : Type 0 where
  pub slot : Ptr → Slot A
  pub stale_reads : ℕ

-- `fault`: an access through NULL, through a pointer to no cell, or a write to a freed cell.
pub data Run (A B : Type 0) : Type 0 where
  ok : B → Memory A → Run A B
  fault : Run A B
  out_of_fuel : Run A B

abbrev pub Cmd : Type 0 → Type 0 → Type 0
Cmd A B = Memory A → Run A B

abbrev pub pure : {A B : Type 0} → B → Cmd A B
pure b m = ok b m

module _ {A B C : Type 0} where
  abbrev pub and_then : Run A B → (B → Cmd A C) → Run A C
  and_then (ok b m) k = k b m
  and_then fault k = fault
  and_then out_of_fuel k = out_of_fuel

  infixl 5 ◌>>=◌ ◌>>◌
  abbrev pub ◌>>=◌ : Cmd A B → (B → Cmd A C) → Cmd A C
  c >>= k = λ m. and_then (c m) k

  abbrev pub ◌>>◌ : Cmd A B → Cmd A C → Cmd A C
  c >> d = c >>= λ _. d

module _ {A : Type 0} where
  abbrev pub write : (Ptr → Slot A) → Ptr → Slot A → Ptr → Slot A
  write f p s q = if p == q then s else f q

  abbrev read_slot : Slot A → Cmd A (Cell A)
  read_slot unused m = fault
  read_slot (live c) m = ok c m
  read_slot (freed c) m = ok c (record m { stale_reads = suc m.stale_reads })

  -- `*p`
  unfoldable pub load : Ptr → Cmd A (Cell A)
  load p m = if p == null then fault else read_slot (m.slot p) m

  abbrev write_slot : Ptr → Slot A → Slot A → Cmd A Unit
  write_slot p s unused m = fault
  write_slot p s (live _) m = ok tt (record m { slot = write m.slot p s })
  write_slot p s (freed _) m = fault

  -- `*p = c`
  unfoldable pub store : Ptr → Cell A → Cmd A Unit
  store p c m = if p == null then fault else write_slot p (live c) (m.slot p) m

  abbrev free_slot : Ptr → Slot A → Cmd A Unit
  free_slot p unused m = fault
  free_slot p (live c) m = ok tt (record m { slot = write m.slot p (freed c) })
  free_slot p (freed _) m = fault

  unfoldable pub free : Ptr → Cmd A Unit
  free p m = if p == null then ok tt m else free_slot p (m.slot p) m

  -- `malloc` gives the address `fresh`, or NULL; the new cell holds anything.
  unfoldable pub malloc : Ptr → Cell A → Cmd A Ptr
  malloc fresh raw m =
      if fresh == null
      then ok null m
      else ok fresh (record m { slot = write m.slot fresh (live raw) })
