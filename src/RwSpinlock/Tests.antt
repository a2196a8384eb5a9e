-- ===== src/RwSpinlock/Tests.antt =====
-- Runs of two processors, and the theorems in the states that they reach.
use hall.Prelude.{ℕ, ◌≡◌, ◌≢◌, refl, ◌⊎◌, inl, some, [], ◌∷◌, arith, get_elem?}
use hall.RwSpinlock.{
  Pc, idle, waiting, won, writing, shared_waiting, checked, reading, halted, announce, write_win,
  check_reader, confess_writer, begin_shared, read_busy, read_win, count, confess_reader, System,
  Step, pick, Reach, start, later,
}
use hall.RwSpinlock.Safety.{
  mutual_exclusion, assertions_hold, writer_priority, Holder, writer_progress,
}

abbrev state : ℕ → ℕ → ℕ → Pc → Pc → System
state w a r p q = record {
  lock = record { waiting_writers = w; active_writer = a; active_readers = r };
  cpus = p ∷ q ∷ [];
}

one_writes : Reach 2 (state 0 1 0 writing idle)
one_writes =
    later (later (later start (pick 0 refl announce)) (pick 0 refl (write_win refl refl)))
      (pick 0 refl confess_writer)

one_checks : Reach 2 (state 0 1 1 idle checked)
one_checks =
    later
      (later (later (later start (pick 1 refl begin_shared)) (pick 1 refl (read_win refl refl)))
        (pick 1 refl count))
      (pick 1 refl (check_reader refl))

one_reads : Reach 2 (state 0 0 1 idle reading)
one_reads = later one_checks (pick 1 refl confess_reader)

both_wait : Reach 2 (state 1 0 0 waiting shared_waiting)
both_wait = later (later start (pick 0 refl announce)) (pick 1 refl begin_shared)

mutual_exclusion_example :
    (get_elem? (writing ∷ idle ∷ []) 1 ≢ some writing)
    × (get_elem? (writing ∷ idle ∷ []) 1 ≢ some reading)
mutual_exclusion_example = mutual_exclusion 0 1 (omega arith) one_writes refl (omega arith)

assertions_hold_example : get_elem? (idle ∷ reading ∷ []) 1 ≢ some halted
assertions_hold_example = assertions_hold 1 (omega arith) one_reads

writer_priority_example : get_elem? (waiting ∷ shared_waiting ∷ []) 1 ≡ some shared_waiting
writer_priority_example =
    writer_priority 0 1 (omega arith) both_wait refl refl
      (pick 1 refl (read_busy (inl (omega arith))))

writer_progress_example :
    ((t : System) × Step (state 1 0 0 waiting shared_waiting) t × (get_elem? t.cpus 0 ≡ some won))
    ⊎ Holder (state 1 0 0 waiting shared_waiting)
writer_progress_example = writer_progress 0 (omega arith) both_wait refl
