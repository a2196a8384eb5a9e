-- ===== src/RwSpinlock/Safety.antt =====
-- What the reader-writer spinlock guarantees to the processors that use it.
use hall.Prelude.{
  ℕ, ◌<◌, ◌≡◌, ◌≢◌, refl, ◌⊎◌, inl, inr, sym, ◌∙◌, Bool, true, false, some, arith, dec_lt,
  get_elem?, some_inj, tally, weight-le-tally, two_weights-le-tally, tally_pos, get_elem?-set_ne,
  get_elem?-set_self, ℕ_discrete,
}
use hall.RwSpinlock.{
  RwSpinlock, u16_mod, Pc, waiting, won, writing, shared_waiting, claimed, counted, checked,
  reading, leaving, halted, Move, read_busy, read_win, write_win, System, Step, pick, Reach,
}
use hall.RwSpinlock.Invariant.{announced, writer, pretender, reader, failed, Inv, Reach-Inv}

-- The lock is exclusive: with fewer processors than a word counts, while one of them holds the lock
-- for writing no other one holds it, neither for writing nor for reading.
pub mutual_exclusion :
    {n : ℕ} {s : System} (i j : ℕ)
    → n < u16_mod
    → Reach n s
    → get_elem? s.cpus i ≡ some writing
    → i ≢ j
    → (get_elem? s.cpus j ≢ some writing) × (get_elem? s.cpus j ≢ some reading)
mutual_exclusion {s = s} i j few r at ne =
    let inv = Reach-Inv few r in
    (
      λ e. absurd (
          omega
            (arith, inv.single, two_weights-le-tally writer s.cpus i j writing writing ne at e)),
      λ e. absurd (
          omega (
            arith,
            inv.exclusive,
            weight-le-tally writer s.cpus i writing at,
            weight-le-tally reader s.cpus j reading e,
          )),
    )

-- With fewer processors than a word counts, none of them ever fails one of the ASSERTs on
-- ActiveWriter in RwSpinlockAcquire and RwSpinlockRelease.
pub assertions_hold :
    {n : ℕ} {s : System} (i : ℕ) → n < u16_mod → Reach n s → get_elem? s.cpus i ≢ some halted
assertions_hold {s = s} i few r e =
    absurd (omega (arith, (Reach-Inv few r).alive, weight-le-tally failed s.cpus i halted e))

-- Writers have priority: with fewer processors than a word counts, while a writer waits, a step
-- leaves every reader in its loop there.
pub writer_priority :
    {n : ℕ} {s t : System} (i j : ℕ)
    → n < u16_mod
    → Reach n s
    → get_elem? s.cpus i ≡ some waiting
    → get_elem? s.cpus j ≡ some shared_waiting
    → Step s t
    → get_elem? t.cpus j ≡ some shared_waiting
writer_priority {s = s} i j few r w at (pick k {p} {q} from mv) = elim (ℕ_discrete k j) [
  | yes e ↦ rw e (get_elem?-set_self s.cpus j q at ∙ stays p q _ (some_inj (sym at ∙ moved e)) mv)
  | no ne ↦ get_elem?-set_ne s.cpus k j q ne ∙ at
]
  where
    inv : Inv s
    inv = Reach-Inv few r

    moved : k ≡ j → get_elem? s.cpus j ≡ some p
    moved e = rw (← e) from

    stays :
        (p q : Pc) (l : RwSpinlock)
        → shared_waiting ≡ p
        → Move s.lock p l q
        → some q ≡ some shared_waiting
    stays p q l e (read_busy h) = refl
    stays p q l e (read_win h k) =
        absurd (omega (arith, inv.waits, weight-le-tally announced s.cpus i waiting w))
    stays p q l e mv = cc

-- Whoever stands in a loop can leave it, or some processor holds the lock or is about to.
abbrev pub holds : Pc → Bool
holds won = true
holds writing = true
holds claimed = true
holds counted = true
holds checked = true
holds reading = true
holds leaving = true
holds _ = false

pub Holder : System → Type 0
Holder s = (j : ℕ) × (p : Pc) × (get_elem? s.cpus j ≡ some p) × (holds p ≡ true)

module _ {s : System} (inv : Inv s) where
  holds-writer : (p : Pc) → 0 < writer p → holds p ≡ true
  holds-writer p h = ground arith

  holds-pretender : (p : Pc) → 0 < pretender p → holds p ≡ true
  holds-pretender p h = ground arith

  holds-reader : (p : Pc) → 0 < reader p → holds p ≡ true
  holds-reader p h = ground arith

  writer_or_free : (s.lock.active_writer ≡ 0) ⊎ Holder s
  unfolding Holder
  writer_or_free = elim (dec_lt 0 (tally writer s.cpus)) [
    | yes h ↦ let (j, p, at, pos) = tally_pos writer s.cpus h in inr (j, p, at, holds-writer p pos)
    | no none_writes ↦ elim (dec_lt 0 (tally pretender s.cpus)) [
      | yes h ↦
          let (j, p, at, pos) = tally_pos pretender s.cpus h in
          inr (j, p, at, holds-pretender p pos)
      | no none_poses ↦ inl (omega (arith, inv.writes))
    ]
  ]

  readers_or_free : (s.lock.active_readers ≡ 0) ⊎ Holder s
  unfolding Holder
  readers_or_free = elim (dec_lt 0 (tally reader s.cpus)) [
    | yes h ↦ let (j, p, at, pos) = tally_pos reader s.cpus h in inr (j, p, at, holds-reader p pos)
    | no none_reads ↦ inl (omega (arith, inv.reads))
  ]

-- No deadlock among writers: with fewer processors than a word counts, a writer in its loop can get
-- the lock by a step of its own, or some processor holds the lock, or is between its loop and the end
-- of RwSpinlockAcquire, or gives the lock back in RwSpinlockRelease.
pub writer_progress :
    {n : ℕ} {s : System} (i : ℕ)
    → n < u16_mod
    → Reach n s
    → get_elem? s.cpus i ≡ some waiting
    → ((t : System) × Step s t × (get_elem? t.cpus i ≡ some won)) ⊎ Holder s
writer_progress {s = s} i few r at = elim (writer_or_free (Reach-Inv few r)) [
  | inr h ↦ inr h
  | inl free ↦ elim (readers_or_free (Reach-Inv few r)) [
    | inr h ↦ inr h
    | inl quiet ↦ inl (_, pick i at (write_win free quiet), get_elem?-set_self s.cpus i won at)
  ]
]
