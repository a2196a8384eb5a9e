-- ===== src/RwSpinlock/Invariant.antt =====
-- What the words of the lock count, in every reachable state.
use hall.Prelude.{
  ℕ, ◌+◌, ◌≤◌, ◌<◌, ◌≡◌, refl, ◌⊎◌, inl, some, arith, get_elem?, set, length, length-set, tally,
  tally-set, weight-le-tally, tally-le-length, tally-replicate, length-replicate,
}
use hall.RwSpinlock.{
  RwSpinlock, u16_mod, Pc, idle, waiting, won, writing, claimed, counted, checked, reading, leaving,
  halted, Move, announce, write_busy, write_win, confess_writer, begin_shared, read_busy, read_win,
  count, check_reader, check_writer, confess_reader, acquire_fails, release_exclusive,
  release_fails, release_shared, System, Step, pick, init, Reach, start, later,
}

-- Announced writers, writers that hold the lock, readers that pose as the writer, counted readers,
-- and processors that have failed an ASSERT.
abbrev pub announced : Pc → ℕ
announced waiting = 1
announced won = 1
announced _ = 0

abbrev pub writer : Pc → ℕ
writer won = 1
writer writing = 1
writer leaving = 1
writer _ = 0

abbrev pub pretender : Pc → ℕ
pretender claimed = 1
pretender counted = 1
pretender checked = 1
pretender _ = 0

abbrev pub reader : Pc → ℕ
reader counted = 1
reader checked = 1
reader reading = 1
reader _ = 0

abbrev pub failed : Pc → ℕ
failed halted = 1
failed _ = 0

pub record Inv (s : System) : Type 0 where
  pub few : length s.cpus < u16_mod
  pub waits : s.lock.waiting_writers ≡ tally announced s.cpus
  pub writes : s.lock.active_writer ≡ tally writer s.cpus + tally pretender s.cpus
  pub reads : s.lock.active_readers ≡ tally reader s.cpus
  pub single : tally writer s.cpus + tally pretender s.cpus ≤ 1
  pub exclusive : (tally writer s.cpus ≡ 0) ⊎ (tally reader s.cpus ≡ 0)
  pub alive : tally failed s.cpus ≡ 0

small_announced : (p : Pc) → announced p ≤ 1
small_announced p = ground arith

small_reader : (p : Pc) → reader p ≤ 1
small_reader p = ground arith

-- The sums before and after a step of one processor from `p` to `q`.
record Sums (s : System) (i : ℕ) (p q : Pc) : Type 0 where
  cpus : length (set s.cpus i q) ≡ length s.cpus
  waits : tally announced (set s.cpus i q) + announced p ≡ tally announced s.cpus + announced q
  writes : tally writer (set s.cpus i q) + writer p ≡ tally writer s.cpus + writer q
  poses : tally pretender (set s.cpus i q) + pretender p ≡ tally pretender s.cpus + pretender q
  reads : tally reader (set s.cpus i q) + reader p ≡ tally reader s.cpus + reader q
  fails : tally failed (set s.cpus i q) + failed p ≡ tally failed s.cpus + failed q
  waits_few : tally announced (set s.cpus i q) ≤ length s.cpus
  reads_few : tally reader (set s.cpus i q) ≤ length s.cpus
  held :
      (announced p ≤ tally announced s.cpus)
      × (writer p ≤ tally writer s.cpus)
      × (pretender p ≤ tally pretender s.cpus)
      × (reader p ≤ tally reader s.cpus)

sums : (s : System) (i : ℕ) (p q : Pc) → get_elem? s.cpus i ≡ some p → Sums s i p q
sums s i p q h = record {
  cpus = length-set s.cpus i q;
  waits = tally-set announced s.cpus i p q h;
  writes = tally-set writer s.cpus i p q h;
  poses = tally-set pretender s.cpus i p q h;
  reads = tally-set reader s.cpus i p q h;
  fails = tally-set failed s.cpus i p q h;
  waits_few =
      omega
        (arith, tally-le-length announced small_announced (set s.cpus i q), length-set s.cpus i q);
  reads_few =
      omega (arith, tally-le-length reader small_reader (set s.cpus i q), length-set s.cpus i q);
  held = (
    weight-le-tally announced s.cpus i p h,
    weight-le-tally writer s.cpus i p h,
    weight-le-tally pretender s.cpus i p h,
    weight-le-tally reader s.cpus i p h,
  );
}

Move-Inv :
    {s : System} (i : ℕ) {p q : Pc} {l : RwSpinlock}
    → Inv s
    → Sums s i p q
    → Move s.lock p l q
    → Inv (record { lock = l; cpus = set s.cpus i q })
Move-Inv i inv f announce = omega arith
Move-Inv i inv f (write_busy h) = omega arith
Move-Inv i inv f (write_win h k) = omega arith
Move-Inv i inv f confess_writer = omega arith
Move-Inv i inv f begin_shared = omega arith
Move-Inv i inv f (read_busy h) = omega arith
Move-Inv i inv f (read_win h k) = omega arith
Move-Inv i inv f count = omega arith
Move-Inv i inv f (check_reader h) = omega arith
Move-Inv i inv f confess_reader = omega arith
Move-Inv i inv f (acquire_fails h) = omega arith
Move-Inv i inv f (check_writer h) = omega arith
Move-Inv i inv f release_exclusive = omega arith
Move-Inv i inv f (release_fails h) = omega arith
Move-Inv i inv f release_shared = omega arith

pub Step-Inv : {s t : System} → Step s t → Inv s → Inv t
Step-Inv {s} (pick i {p} {q} at mv) inv = Move-Inv i inv (sums s i p q at) mv

init-Inv : (n : ℕ) → n < u16_mod → Inv (init n)
init-Inv n few = record {
  few = omega (arith, length-replicate n idle);
  waits = omega (arith, tally-replicate announced n idle refl);
  writes = omega (arith, tally-replicate writer n idle refl, tally-replicate pretender n idle refl);
  reads = omega (arith, tally-replicate reader n idle refl);
  single = omega (arith, tally-replicate writer n idle refl, tally-replicate pretender n idle refl);
  exclusive = inl (tally-replicate writer n idle refl);
  alive = tally-replicate failed n idle refl;
}

pub Reach-Inv : {n : ℕ} {s : System} → n < u16_mod → Reach n s → Inv s
Reach-Inv {n} few start = init-Inv n few
Reach-Inv few (later r st) = Step-Inv st (Reach-Inv few r)
