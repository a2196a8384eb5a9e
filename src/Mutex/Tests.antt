-- ===== src/Mutex/Tests.antt =====
-- Two threads that use a mutex.
use hall.Prelude.{
  ℕ, ◌≡◌, ◌≢◌, ◌⊎◌, refl, Bool, true, false, Option, none, some, List, [], ◌∷◌, arith,
}
use hall.Mutex.{
  Pc, System, Turn, Call, acquire, release, moves, halts, waits, mutex_init, turn, Reachable, start,
  next, acquire_begin, acquire_locked, acquire_round, thread_block, release_begin, release_locked,
  thread_unblock, acquire_again,
}
use hall.Mutex.Safety.{one_holder}
use hall.Mutex.Asserts.{assertions_pass}
use hall.Mutex.Progress.{no_lost_wakeup, InUse, GetsOn}
use hall.Mutex.Termination.{forced_exit_halts}

-- A schedule: whose turn it is, the call of a thread between its calls, and the pending termination.
abbrev run : System → List (ℕ × Call × Bool) → Turn
run s [] = moves s
run s ((t, call, pending) ∷ rest) = elim (turn s t call pending) [
  | waits ↦ waits
  | halts ↦ halts
  | moves s' ↦ run s' rest
]

abbrev fresh : System
fresh = record { mutex = mutex_init true; pc = λ t. Pc.outside 0 }

place_of : Turn → ℕ → Option Pc
place_of (moves s) t = some (s.pc t)
place_of x t = none

-- Thread 1 takes the mutex, twice; thread 2 waits for it, is handed it and gets it.
abbrev handover : List (ℕ × Call × Bool)
handover =
    (1, acquire, false)
    ∷ (1, acquire, false)
    ∷ (1, acquire, false)
    ∷ (1, acquire, false)
    ∷ (2, acquire, false)
    ∷ (2, acquire, false)
    ∷ (2, acquire, false)
    ∷ (1, release, false)
    ∷ (1, release, false)
    ∷ (1, release, false)
    ∷ (2, acquire, false)
    ∷ (1, release, false)
    ∷ (2, acquire, false)
    ∷ (2, acquire, false)
    ∷ []

handover_places :
    (place_of (run fresh handover) 1 ≡ some (Pc.outside 0))
    × (place_of (run fresh handover) 2 ≡ some (Pc.outside 1))
unfolding place_of mutex_init turn acquire_begin acquire_locked acquire_round thread_block
    release_begin release_locked thread_unblock acquire_again
handover_places = (refl, refl)

abbrev settle : Turn → System
settle (moves s) = s
settle x = fresh

abbrev schedule : List (ℕ × Call × Bool)
schedule =
    (1, acquire, false)
    ∷ (1, acquire, false)
    ∷ (1, acquire, false)
    ∷ (2, acquire, false)
    ∷ (2, acquire, false)
    ∷ (2, acquire, false)
    ∷ []

-- Thread 1 holds the mutex, thread 2 is in the waiting list and about to be switched out.
abbrev queued : System
queued = settle (run fresh schedule)

abbrev blocked_2 : System
blocked_2 = settle (turn queued 2 acquire false)

blocked_2-Reachable : Reachable true blocked_2
unfolding mutex_init turn acquire_begin acquire_locked acquire_round thread_block
blocked_2-Reachable =
    next queued blocked_2 2 acquire
      (next _ _ 2 acquire
        (next _ _ 2 acquire
          (next _ _ 2 acquire
            (next _ _ 1 acquire (next _ _ 1 acquire (next _ _ 1 acquire start tt refl) tt refl) tt
              refl)
            tt refl)
          tt refl)
        tt refl)
      tt refl

one_holder_example : ◌≡◌ {A = ℕ} 1 1
unfolding mutex_init turn acquire_begin acquire_locked acquire_round thread_block
one_holder_example = one_holder true blocked_2 1 1 0 0 blocked_2-Reachable refl refl

assertions_pass_example : turn blocked_2 1 release false ≢ halts
unfolding mutex_init turn acquire_begin acquire_locked acquire_round thread_block
assertions_pass_example = assertions_pass true blocked_2 1 release blocked_2-Reachable tt tt

no_lost_wakeup_example : InUse blocked_2 ⊎ GetsOn blocked_2 acquire
unfolding mutex_init turn acquire_begin acquire_locked acquire_round thread_block
no_lost_wakeup_example = no_lost_wakeup true blocked_2 2 acquire blocked_2-Reachable refl

abbrev released_1 : System
released_1 = settle (turn queued 1 release false)

forced_exit_halts_example :
    (s1 : System) × (s2 : System) × (turn released_1 2 acquire true ≡ moves s1)
    × (turn s1 1 acquire false ≡ moves s2)
    × (turn s2 1 acquire false ≡ halts)
unfolding mutex_init turn acquire_begin acquire_locked acquire_round release_begin
forced_exit_halts_example =
    forced_exit_halts released_1 1 2 [] acquire refl refl (omega arith) refl refl
