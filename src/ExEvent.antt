-- ===== src/ExEvent.antt =====
-- HAL9000/src/ex_event.c: executive events, as the turns of threads that interleave at each access to
-- the signal and at each acquisition of the event's spinlock. The waiting list is the sequence that
-- its links represent (LinkedList), and a thread blocks and is woken as it is for a mutex (Mutex), but that
-- no thread is terminated by force: that branch of ThreadBlock is left out here.
pub mod Signals
pub mod Lost
mod Tests
use hall.Prelude.{
  assign, ℕ, zero, suc, ◌+◌, ◌≡◌, Bool, true, false, Option, none, some, List, [], ◌∷◌, ◌++◌, ◌==◌,
  ltb, if◌then◌else◌,
}

-- EX_EVT_TYPE, without ExEventTypeReserved, which ExEventInit refuses
pub data EventType : Type 0 where
  notification : EventType
  synchronization : EventType

-- EX_EVENT, with the owner of its spinlock
pub record ExEvent : Type 0 where
  pub event_lock : Option ℕ
  pub waiting_list : List ℕ
  pub event_type : EventType
  pub signaled : Bool

-- Where a thread stands.
pub data Pc : Type 0 where
  outside : Pc  -- in no call
  signaling : Pc  -- in ExEventSignal, before LockAcquire
  waking : (thread : ℕ) → Pc  -- in ExEventSignal, at ThreadUnblock, with the spinlock
  testing : Pc  -- in ExEventWaitForSignal, at the compare-exchange
  unsignaled : Pc  -- in its loop, before LockAcquire
  blocking : Pc  -- in the waiting list, with its block lock, on the way to _ThreadSchedule
  blocked : Pc  -- ThreadStateBlocked, switched out: its block lock is released
  woken : Pc  -- ThreadStateReady, behind ThreadBlock

-- The event and its threads, with the numbers of calls of ExEventSignal that set the signal and of
-- returns from ExEventWaitForSignal.
pub record System : Type 0 where
  pub event : ExEvent
  pub pc : ℕ → Pc
  pub signals : ℕ
  pub returns : ℕ

-- What a thread outside of every call does next.
pub data Call : Type 0 where
  signal : Call
  clear_signal : Call
  wait_for_signal : Call

pub data Turn : Type 0 where
  waits : Turn
  halts : Turn
  moves : (s : System) → Turn

abbrev pub becomes : System → ExEvent → ℕ → Pc → Turn
becomes s e t p = moves (record s { event = e; pc = assign s.pc t p })

abbrev pub returned : System → ExEvent → ℕ → Turn
returned s e t =
    moves (record s { event = e; pc = assign s.pc t Pc.outside; returns = s.returns + 1 })

-- ExEventInit
unfoldable pub ex_event_init : EventType → Bool → ExEvent
ex_event_init type on = record {
  event_lock = none;
  waiting_list = [];
  event_type = type;
  signaled = on;
}

-- ExEventClearSignal
unfoldable pub clear : System → ℕ → Turn
clear s t = becomes s (record s.event { signaled = false }) t Pc.outside

-- RemoveHeadList in the loop of ExEventSignal: on to ThreadUnblock, or to LockRelease at the end.
abbrev pub wake_next : System → ExEvent → ℕ → Turn
wake_next s e t = elim e.waiting_list [
  | [] ↦ becomes s (record e { event_lock = none }) t Pc.outside
  | u ∷ rest ↦ becomes s (record e { event_lock = some t; waiting_list = rest }) t (Pc.waking u)
]

-- LockAcquire in ExEventSignal, and what follows up to ThreadUnblock, or to the end of an empty list
unfoldable pub signal_locked : System → ℕ → Turn
signal_locked s t =
    let e = record s.event { signaled = true } in
    elim s.event.event_lock [
      | some u ↦ waits
      | none ↦ wake_next (record s { signals = s.signals + 1 }) e t
    ]

-- ThreadUnblock, and the rest of the round: a synchronization event wakes one thread only.
unfoldable pub signal_round : System → ℕ → ℕ → Turn
signal_round s t u =
    let s' = record s { pc = assign s.pc u Pc.woken } in
    elim (s.pc u) [
      | blocking ↦ waits
      | blocked ↦ elim s.event.event_type [
        | synchronization ↦ becomes s' (record s.event { event_lock = none }) t Pc.outside
        | notification ↦ wake_next s' s.event t
      ]
      | _ ↦ halts
    ]

-- `_InterlockedCompareExchange8(&Event->Signaled, newState, TRUE)`: the signal of a synchronization
-- event is taken, that of a notification event stays.
unfoldable pub test_signal : System → ℕ → Turn
test_signal s t =
    let new_state : Bool = elim s.event.event_type [
      | notification ↦ true
      | synchronization ↦ false
    ] in
    if s.event.signaled
    then returned s (record s.event { signaled = new_state }) t
    else becomes s s.event t Pc.unsignaled

-- The body of the loop up to ThreadBlock
unfoldable pub queue_up : System → ℕ → Turn
queue_up s t = elim s.event.event_lock [
  | some u ↦ waits
  | none ↦
      becomes s (record s.event { waiting_list = s.event.waiting_list ++ t ∷ [] }) t Pc.blocking
]

-- Behind ThreadBlock: a notification event is not tested again.
unfoldable pub wake_up : System → ℕ → Turn
wake_up s t = elim s.event.event_type [
  | notification ↦ returned s s.event t
  | synchronization ↦ becomes s s.event t Pc.testing
]

-- One turn of thread `t`, of threads that are not terminated by force: ThreadBlock ends such a thread
-- in place of blocking it.
unfoldable pub turn : System → ℕ → Call → Turn
turn s t call = elim (s.pc t) [
  | outside ↦ elim call [
    | signal ↦ becomes s s.event t Pc.signaling
    | clear_signal ↦ clear s t
    | wait_for_signal ↦ becomes s s.event t Pc.testing
  ]
  | signaling ↦ signal_locked s t
  | waking u ↦ signal_round s t u
  | testing ↦ test_signal s t
  | unsignaled ↦ queue_up s t
  | blocking ↦ becomes s s.event t Pc.blocked
  | blocked ↦ waits
  | woken ↦ wake_up s t
]

-- The systems that turns lead to, from an event that ExEventInit made and threads outside of every
-- call.
pub data Reachable (type : EventType) (on : Bool) : System → Type 0 where
  start :
      Reachable type on
        (record { event = ex_event_init type on; pc = λ t. Pc.outside; signals = 0; returns = 0 })
  next :
      (s s' : System) (t : ℕ) (call : Call)
      → Reachable type on s
      → turn s t call ≡ moves s'
      → Reachable type on s'
