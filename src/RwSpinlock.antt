-- ===== src/RwSpinlock.antt =====
-- CommonLib/src/rw_spinlock.c: processors that take a reader-writer spinlock, one access to its
-- shared words at a time. A processor that takes the lock has its interrupts off until it has
-- released it, so that it runs on; the interrupt flag itself is not modelled.
pub mod Invariant
pub mod Safety
mod Tests
use hall.Prelude.{
  ℕ, ◌+◌, ◌-◌, ◌%◌, ◌<◌, ◌≡◌, ◌≢◌, ◌⊎◌, Option, some, List, get_elem?, set, replicate,
}

-- RW_SPINLOCK: three words of 16 bits, one behind the other.
pub record RwSpinlock : Type 0 where
  pub waiting_writers : ℕ
  pub active_writer : ℕ
  pub active_readers : ℕ

abbrev pub u16_mod : ℕ
u16_mod = 0x1_0000

-- _InterlockedIncrement16 and _InterlockedDecrement16
abbrev pub increment : ℕ → ℕ
increment w = (w + 1) % u16_mod

abbrev pub decrement : ℕ → ℕ
decrement w = (w + u16_mod - 1) % u16_mod

-- Where a processor stands in RwSpinlockAcquire and RwSpinlockRelease.
pub data Pc : Type 0 where
  idle : Pc  -- does not hold the lock
  waiting : Pc  -- a writer in its loop
  won : Pc  -- a writer behind its loop
  writing : Pc  -- holds the lock exclusively
  shared_waiting : Pc  -- a reader in its loop
  claimed : Pc  -- a reader behind its loop: it poses as the writer
  counted : Pc  -- a reader that has counted itself, before the ASSERT
  checked : Pc  -- a reader behind the ASSERT, which still poses as the writer
  reading : Pc  -- holds the lock shared
  leaving : Pc  -- a writer in RwSpinlockRelease, behind its ASSERT
  halted : Pc  -- failed an ASSERT

-- One step of one processor. The compare-exchange of a writer covers ActiveWriter and
-- ActiveReaders, that of a reader WaitingWriters and ActiveWriter: each swaps a zero double word
-- for one with ActiveWriter at 1. An ASSERT reads ActiveWriter in a step of its own.
pub data Move (l : RwSpinlock) : Pc → RwSpinlock → Pc → Type 0 where
  announce : Move l Pc.idle (record l { waiting_writers = increment l.waiting_writers }) Pc.waiting
  write_busy : (l.active_writer ≢ 0) ⊎ (l.active_readers ≢ 0) → Move l Pc.waiting l Pc.waiting
  write_win :
      l.active_writer ≡ 0
      → l.active_readers ≡ 0
      → Move l Pc.waiting (record l { active_writer = 1; active_readers = 0 }) Pc.won
  confess_writer :
      Move l Pc.won (record l { waiting_writers = decrement l.waiting_writers }) Pc.writing
  begin_shared : Move l Pc.idle l Pc.shared_waiting
  read_busy :
      (l.waiting_writers ≢ 0) ⊎ (l.active_writer ≢ 0) → Move l Pc.shared_waiting l Pc.shared_waiting
  read_win :
      l.waiting_writers ≡ 0
      → l.active_writer ≡ 0
      → Move l Pc.shared_waiting (record l { waiting_writers = 0; active_writer = 1 }) Pc.claimed
  count : Move l Pc.claimed (record l { active_readers = increment l.active_readers }) Pc.counted
  check_reader : l.active_writer ≡ 1 → Move l Pc.counted l Pc.checked
  confess_reader :
      Move l Pc.checked (record l { active_writer = decrement l.active_writer }) Pc.reading
  acquire_fails : l.active_writer ≢ 1 → Move l Pc.counted l Pc.halted
  check_writer : l.active_writer ≡ 1 → Move l Pc.writing l Pc.leaving
  release_exclusive :
      Move l Pc.leaving (record l { active_writer = decrement l.active_writer }) Pc.idle
  release_fails : l.active_writer ≢ 1 → Move l Pc.writing l Pc.halted
  release_shared :
      Move l Pc.reading (record l { active_readers = decrement l.active_readers }) Pc.idle

pub record System : Type 0 where
  pub lock : RwSpinlock
  pub cpus : List Pc

pub data Step (s : System) : System → Type 0 where
  pick :
      (i : ℕ) {p q : Pc} {l : RwSpinlock}
      → get_elem? s.cpus i ≡ some p
      → Move s.lock p l q
      → Step s (record { lock = l; cpus = set s.cpus i q })

-- RwSpinlockInit, with `n` processors that have not used the lock yet.
abbrev pub init : ℕ → System
init n = record {
  lock = record { waiting_writers = 0; active_writer = 0; active_readers = 0 };
  cpus = replicate n Pc.idle;
}

pub data Reach (n : ℕ) : System → Type 0 where
  start : Reach n (init n)
  later : {s t : System} → Reach n s → Step s t → Reach n t
