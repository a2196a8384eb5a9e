-- ===== src/Mutex.antt =====
-- HAL9000/src/mutex.c, with the calls of HAL9000/src/thread.c by which a thread gives up the processor
-- and is woken: threads that interleave at each acquisition of a spinlock. The waiting list is the
-- sequence that its links represent (LinkedList). A woken thread stays on the list of ready threads
-- until it takes its next step; which ready thread runs is left open.
pub mod Invariant
pub mod Frames
pub mod Moves
pub mod Turns
pub mod Handover
pub mod Safety
pub mod Asserts
pub mod Progress
pub mod Termination
mod Tests
use hall.Prelude.{
  assign, ℕ, zero, suc, ◌+◌, ◌-◌, ◌%◌, ◌≡◌, Bool, true, false, Option, none, some, List, [], ◌∷◌,
  ◌++◌, ◌==◌, ltb, max_byte, if◌then◌else◌,
}

-- MUTEX, with the owner of its spinlock
pub record Mutex : Type 0 where
  pub mutex_lock : Option ℕ
  pub current_recursivity_depth : ℕ
  pub max_recursivity_depth : ℕ
  pub waiting_list : List ℕ
  pub holder : Option ℕ

-- Where a thread stands.
pub data Pc : Type 0 where
  outside : (times : ℕ) → Pc  -- in no call; it has acquired the mutex so many times more than released
  entering : Pc  -- in MutexAcquire, before LockAcquire
  checking : Pc  -- in MutexAcquire, at the test of the loop, with the spinlock
  blocking : Pc  -- in the waiting list, with its block lock, on the way to _ThreadSchedule
  blocked : Pc  -- ThreadStateBlocked, switched out: _ThreadCleanupPostSchedule released the block lock
  woken : Pc  -- ThreadStateReady, before it takes the spinlock again
  leaving : Pc  -- in MutexRelease, before LockAcquire
  waking : (thread : ℕ) → Pc  -- in MutexRelease, at ThreadUnblock, with the spinlock
  dead : Pc  -- _ThreadForcedExit: ThreadStateDying

pub record System : Type 0 where
  pub mutex : Mutex
  pub pc : ℕ → Pc

-- What a thread outside of every call does next.
pub data Call : Type 0 where
  acquire : Call
  release : Call

-- A thread's turn: it spins or is not scheduled, it fails an ASSERT, or it moves.
pub data Turn : Type 0 where
  waits : Turn
  halts : Turn
  moves : (s : System) → Turn

abbrev pub is_thread : Option ℕ → ℕ → Bool
is_thread none t = false
is_thread (some u) t = u == t

abbrev pub becomes : System → Mutex → ℕ → Pc → Turn
becomes s m t p = moves (record { mutex = m; pc = assign s.pc t p })

-- MutexInit, without the checks of its argument
unfoldable pub mutex_init : Bool → Mutex
mutex_init recursive = record {
  mutex_lock = none;
  current_recursivity_depth = 0;
  max_recursivity_depth = if recursive then max_byte else 1;
  waiting_list = [];
  holder = none;
}

-- MutexAcquire up to LockAcquire. The holder is read without the spinlock: no thread but this one
-- makes itself the holder or stops being it.
unfoldable pub acquire_begin : System → ℕ → ℕ → Turn
acquire_begin s t times =
    let m = s.mutex in
    let deeper = record m {
      current_recursivity_depth = (m.current_recursivity_depth + 1) % 0x100;
    } in
    let again =
      if ltb m.current_recursivity_depth m.max_recursivity_depth
      then becomes s deeper t (Pc.outside (suc times))
      else halts in
    if is_thread m.holder t then again else becomes s m t Pc.entering

-- LockAcquire in MutexAcquire, and what follows up to the loop
unfoldable pub acquire_locked : System → ℕ → Turn
acquire_locked s t =
    let m = record s.mutex { mutex_lock = some t } in
    let taken = record m { holder = some t; current_recursivity_depth = 1 } in
    elim s.mutex.mutex_lock [
      | some u ↦ waits
      | none ↦ elim s.mutex.holder [
        | none ↦ becomes s taken t Pc.checking
        | some u ↦ becomes s m t Pc.checking
      ]
    ]

-- The test of the loop, and LockRelease behind the loop or in it
unfoldable pub acquire_round : System → ℕ → Turn
acquire_round s t =
    let m = record s.mutex { mutex_lock = none } in
    let queued = record m { waiting_list = m.waiting_list ++ t ∷ [] } in
    if is_thread m.holder t then becomes s m t (Pc.outside 1) else becomes s queued t Pc.blocking

-- ThreadBlock; `pending` is THREAD_FLAG_FORCE_TERMINATE_PENDING. Its ASSERTs hold by the place of the
-- thread; its tick count and the scheduler's own lock are left out.
unfoldable pub thread_block : System → ℕ → Bool → Turn
thread_block s t pending = becomes s s.mutex t (if pending then Pc.dead else Pc.blocked)

-- LockAcquire in the loop
unfoldable pub acquire_again : System → ℕ → Turn
acquire_again s t = elim s.mutex.mutex_lock [
  | some u ↦ waits
  | none ↦ becomes s (record s.mutex { mutex_lock = some t }) t Pc.checking
]

-- MutexRelease up to LockAcquire
unfoldable pub release_begin : System → ℕ → ℕ → Turn
release_begin s t times =
    let m = s.mutex in
    let shallower = record m { current_recursivity_depth = m.current_recursivity_depth - 1 } in
    let held =
      if ltb 1 m.current_recursivity_depth
      then becomes s shallower t (Pc.outside (times - 1))
      else becomes s m t Pc.leaving in
    if is_thread m.holder t then held else halts

-- LockAcquire in MutexRelease, and what follows up to ThreadUnblock, or to the end of an empty list
unfoldable pub release_locked : System → ℕ → Turn
release_locked s t =
    let m = s.mutex in
    elim s.mutex.mutex_lock [
      | some u ↦ waits
      | none ↦ elim m.waiting_list [
        | [] ↦ becomes s (record m { holder = none }) t (Pc.outside 0)
        | u ∷ rest ↦
            becomes s
              (record m {
                mutex_lock = some t;
                waiting_list = rest;
                holder = some u;
                current_recursivity_depth = 1;
              })
              t (Pc.waking u)
      ]
    ]

-- ThreadUnblock, and LockRelease in MutexRelease. The thread that is woken has its block lock until
-- it is switched out; then its state must be blocked.
unfoldable pub thread_unblock : System → ℕ → ℕ → Turn
thread_unblock s t u =
    let m = record s.mutex { mutex_lock = none } in
    elim (s.pc u) [
      | blocking ↦ waits
      | blocked ↦
          moves (record { mutex = m; pc = assign (assign s.pc u Pc.woken) t (Pc.outside 0) })
      | _ ↦ halts
    ]

-- One turn of thread `t`.
unfoldable pub turn : System → ℕ → Call → Bool → Turn
turn s t call pending = elim (s.pc t) [
  | outside times ↦ elim call [
    | acquire ↦ acquire_begin s t times
    | release ↦ release_begin s t times
  ]
  | entering ↦ acquire_locked s t
  | checking ↦ acquire_round s t
  | blocking ↦ thread_block s t pending
  | blocked ↦ waits
  | woken ↦ acquire_again s t
  | leaving ↦ release_locked s t
  | waking u ↦ thread_unblock s t u
  | dead ↦ waits
]

-- A thread releases the mutex when it has acquired it more often than released.
abbrev pub MayCall : Pc → Call → Type 0
MayCall (outside zero) release = ⊥
MayCall p call = Unit

-- The systems that turns lead to while no thread is terminated by force, from a mutex that
-- MutexInit made and threads outside of every call.
pub data Reachable (recursive : Bool) : System → Type 0 where
  start : Reachable recursive (record { mutex = mutex_init recursive; pc = λ t. Pc.outside 0 })
  next :
      (s s' : System) (t : ℕ) (call : Call)
      → Reachable recursive s
      → MayCall (s.pc t) call
      → turn s t call false ≡ moves s'
      → Reachable recursive s'
