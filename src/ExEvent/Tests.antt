-- ===== src/ExEvent/Tests.antt =====
-- Two threads that use a synchronization event.
use hall.Prelude.{ℕ, ◌+◌, ◌≤◌, ◌≡◌, refl, true, false, List, [], ◌∷◌, arith}
use hall.ExEvent.{
  synchronization, notification, Pc, System, Call, signal, wait_for_signal, Turn, moves, waits,
  halts, ex_event_init, signal_locked, signal_round, test_signal, queue_up, wake_up, turn, start,
  next,
}
use hall.ExEvent.Signals.{as_number, returns_at_most}
use hall.ExEvent.Lost.{signal_missed}

abbrev fresh : System
fresh = record {
  event = ex_event_init synchronization false;
  pc = λ t. Pc.outside;
  signals = 0;
  returns = 0;
}

abbrev run : System → List (ℕ × Call) → Turn
run s [] = moves s
run s ((t, call) ∷ rest) = elim (turn s t call) [
  | waits ↦ waits
  | halts ↦ halts
  | moves s' ↦ run s' rest
]

abbrev settle : Turn → System
settle (moves s) = s
settle x = fresh

-- Thread 1 waits, thread 2 signals and wakes it, and thread 1 returns.
abbrev woken_up : List (ℕ × Call)
woken_up =
    (1, wait_for_signal)
    ∷ (1, wait_for_signal)
    ∷ (1, wait_for_signal)
    ∷ (1, wait_for_signal)
    ∷ (2, signal)
    ∷ (2, signal)
    ∷ (2, signal)
    ∷ (1, wait_for_signal)
    ∷ (1, wait_for_signal)
    ∷ []

woken_up_counts :
    ((settle (run fresh woken_up)).returns ≡ 1)
    × ((settle (run fresh woken_up)).signals ≡ 1)
    × ((settle (run fresh woken_up)).event.signaled ≡ false)
unfolding ex_event_init turn test_signal queue_up signal_locked signal_round wake_up
woken_up_counts = (refl, refl, refl)

-- A notification event wakes every thread in its list.
abbrev notified : System
notified = record fresh { event = ex_event_init notification false }

abbrev all_woken : List (ℕ × Call)
all_woken =
    (1, wait_for_signal)
    ∷ (1, wait_for_signal)
    ∷ (1, wait_for_signal)
    ∷ (1, wait_for_signal)
    ∷ (3, wait_for_signal)
    ∷ (3, wait_for_signal)
    ∷ (3, wait_for_signal)
    ∷ (3, wait_for_signal)
    ∷ (2, signal)
    ∷ (2, signal)
    ∷ (2, signal)
    ∷ (2, signal)
    ∷ (1, signal)
    ∷ (3, signal)
    ∷ []

all_woken_counts :
    ((settle (run notified all_woken)).returns ≡ 2)
    × ((settle (run notified all_woken)).event.signaled ≡ true)
unfolding ex_event_init turn test_signal queue_up signal_locked signal_round wake_up
all_woken_counts = (refl, refl)

abbrev signaled_1 : System
signaled_1 = settle (run fresh ((2, signal) ∷ (2, signal) ∷ []))

returns_at_most_example : 0 + 1 ≤ 1 + as_number false
unfolding ex_event_init turn signal_locked
returns_at_most_example =
    returns_at_most false signaled_1
      (next (settle (turn fresh 2 signal)) signaled_1 2 signal (next _ _ 2 signal start refl) refl)

abbrev racing : System
racing = settle (run fresh ((1, wait_for_signal) ∷ (1, wait_for_signal) ∷ (2, signal) ∷ []))

signal_missed_example :
    (s1 : System) × (s2 : System) × (s3 : System) × (turn racing 2 signal ≡ moves s1)
    × (turn s1 1 signal ≡ moves s2)
    × (turn s2 1 signal ≡ moves s3)
    × (s3.event.signaled ≡ true)
    × (s3.event.waiting_list ≡ 1 ∷ [])
    × (s3.pc 2 ≡ Pc.outside)
    × (s3.pc 1 ≡ Pc.blocked)
    × (turn s3 1 signal ≡ waits)
unfolding ex_event_init turn test_signal
signal_missed_example = signal_missed racing 1 2 signal refl refl (omega arith) refl refl
