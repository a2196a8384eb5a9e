-- ===== src/ExEvent/Signals.antt =====
-- A synchronization event lets one waiting thread go for each signal, at most.
use hall.Prelude.{
  assign, ℕ, ◌+◌, ◌≤◌, ◌≡◌, inl, inr, refl, ◌∙◌, subst, Bool, true, false, Option, none, some, List,
  [], ◌∷◌, ◌++◌, arith, if-cases,
}
use hall.ExEvent.{
  ExEvent, EventType, notification, synchronization, Pc, System, Call, signal, clear_signal,
  wait_for_signal, Turn, moves, waits, halts, becomes, returned, ex_event_init, clear, wake_next,
  signal_locked, signal_round, test_signal, queue_up, wake_up, turn, Reachable, start, next,
}

abbrev pub as_number : Bool → ℕ
as_number true = 1
as_number false = 0

-- The returns, and the signal that is still set, are no more than the signals, and the one of the
-- initialisation.
record Bounded (on : Bool) (s : System) : Type 0 where
  is_synchronization : s.event.event_type ≡ synchronization
  at_most : s.returns + as_number s.event.signaled ≤ s.signals + as_number on

moves_inj : {s s' : System} → moves s ≡ moves s' → s ≡ s'
moves_inj h = cc

-- A turn of the thread that takes no part in the count.
becomes-Bounded :
    (on : Bool) (s s' : System) (e : ExEvent) (t : ℕ) (p : Pc)
    → Bounded on s
    → e.event_type ≡ s.event.event_type
    → as_number e.signaled ≤ as_number s.event.signaled
    → becomes s e t p ≡ moves s'
    → Bounded on s'
becomes-Bounded on s s' e t p b same fewer run = subst (Bounded on) (moves_inj run) (record {
  is_synchronization = same ∙ b.is_synchronization;
  at_most = omega (arith, b.at_most, fewer);
})

wake_next-Bounded :
    (on : Bool) (s s' : System) (e : ExEvent) (t : ℕ)
    → Bounded on (record s { event = e })
    → wake_next s e t ≡ moves s'
    → Bounded on s'
wake_next-Bounded on s s' e t b run = by_list e.waiting_list run
  where
    by_list :
        (l : List ℕ)
        → elim l [
          | [] ↦ becomes s (record e { event_lock = none }) t Pc.outside
          | u ∷ rest ↦
              becomes s (record e { event_lock = some t; waiting_list = rest }) t (Pc.waking u)
        ]
          ≡ moves s'
        → Bounded on s'
    by_list [] k =
        subst (Bounded on) (moves_inj k)
          (record { is_synchronization = b.is_synchronization; at_most = b.at_most })
    by_list (u ∷ rest) k =
        subst (Bounded on) (moves_inj k)
          (record { is_synchronization = b.is_synchronization; at_most = b.at_most })

as_number-le : (b : Bool) → as_number b ≤ 1
as_number-le true = omega arith
as_number-le false = omega arith

locked-turn :
    {s' : System} (o : Option ℕ) (x : Turn)
    → elim o [ some u ↦ waits | none ↦ x ] ≡ moves s'
    → x ≡ moves s'
locked-turn none x h = h
locked-turn (some u) x h = cc

signal_locked-Bounded :
    (on : Bool) (s s' : System) (t : ℕ)
    → Bounded on s
    → signal_locked s t ≡ moves s'
    → Bounded on s'
unfolding signal_locked
signal_locked-Bounded on s s' t b run =
    wake_next-Bounded on (record s { signals = s.signals + 1 }) s'
      (record s.event { signaled = true }) t
      (record {
        is_synchronization = b.is_synchronization;
        at_most = omega (arith, b.at_most, as_number-le s.event.signaled);
      })
      (locked-turn s.event.event_lock _ run)

signal_round-Bounded :
    (on : Bool) (s s' : System) (t u : ℕ)
    → Bounded on s
    → signal_round s t u ≡ moves s'
    → Bounded on s'
unfolding signal_round
signal_round-Bounded on s s' t u b run = by_type s.event.event_type (by_pc (s.pc u) _ run)
  where
    by_pc :
        (p : Pc) (x : Turn)
        → elim p [ Pc.blocking ↦ waits | Pc.blocked ↦ x | _ ↦ halts ] ≡ moves s'
        → x ≡ moves s'
    by_pc Pc.blocked x k = k
    by_pc Pc.blocking x k = cc
    by_pc Pc.outside x k = cc
    by_pc Pc.signaling x k = cc
    by_pc (Pc.waking v) x k = cc
    by_pc Pc.testing x k = cc
    by_pc Pc.unsignaled x k = cc
    by_pc Pc.woken x k = cc

    by_type :
        (y : EventType)
        → elim y [
          | synchronization ↦
              becomes
                (record s { pc = assign s.pc u Pc.woken })
                (record s.event { event_lock = none })
                t
                Pc.outside
          | notification ↦ wake_next (record s { pc = assign s.pc u Pc.woken }) s.event t
        ]
          ≡ moves s'
        → Bounded on s'
    by_type synchronization k =
        subst (Bounded on) (moves_inj k)
          (record { is_synchronization = b.is_synchronization; at_most = b.at_most })
    by_type notification k =
        wake_next-Bounded on (record s { pc = assign s.pc u Pc.woken }) s' s.event t
          (record { is_synchronization = b.is_synchronization; at_most = b.at_most }) k

test_signal-Bounded :
    (on : Bool) (s s' : System) (t : ℕ) → Bounded on s → test_signal s t ≡ moves s' → Bounded on s'
unfolding test_signal
test_signal-Bounded on s s' t b run = elim (if-cases s.event.signaled run) [
  | inr (unset, k) ↦ becomes-Bounded on s s' s.event t Pc.unsignaled b refl (omega arith) k
  | inl (set, k) ↦
      let go : returned s (record s.event { event_type = synchronization; signaled = false }) t
          ≡ moves s' =
        (rw b.is_synchronization at k) in
      let taken : s.returns + 1 ≤ s.signals + as_number on =
        subst (λ c. s.returns + as_number c ≤ s.signals + as_number on) set b.at_most in
      subst (Bounded on) (moves_inj go)
        (record { is_synchronization = refl; at_most = omega (arith, taken) })
]

wake_up-Bounded :
    (on : Bool) (s s' : System) (t : ℕ) → Bounded on s → wake_up s t ≡ moves s' → Bounded on s'
unfolding wake_up
wake_up-Bounded on s s' t b run =
    becomes-Bounded on s s' s.event t Pc.testing b refl (omega arith)
      (by_type s.event.event_type _ _ b.is_synchronization run)
  where
    by_type :
        (y : EventType) (x z : Turn)
        → y ≡ synchronization
        → elim y [ notification ↦ x | synchronization ↦ z ] ≡ moves s'
        → z ≡ moves s'
    by_type synchronization x z same k = k
    by_type notification x z same k = cc

call-Bounded :
    (on : Bool) (s s' : System) (t : ℕ) (call : Call)
    → Bounded on s
    → elim call [
      | signal ↦ becomes s s.event t Pc.signaling
      | clear_signal ↦ clear s t
      | wait_for_signal ↦ becomes s s.event t Pc.testing
    ]
      ≡ moves s'
    → Bounded on s'
unfolding clear
call-Bounded on s s' t signal b run =
    becomes-Bounded on s s' s.event t Pc.signaling b refl (omega arith) run
call-Bounded on s s' t clear_signal b run =
    becomes-Bounded on s s' (record s.event { signaled = false }) t Pc.outside b refl (omega arith)
      run
call-Bounded on s s' t wait_for_signal b run =
    becomes-Bounded on s s' s.event t Pc.testing b refl (omega arith) run

turn-Bounded :
    (on : Bool) (s s' : System) (t : ℕ) (call : Call) (p : Pc)
    → s.pc t ≡ p
    → Bounded on s
    → turn s t call ≡ moves s'
    → Bounded on s'
unfolding turn queue_up
turn-Bounded on s s' t call Pc.outside e b run = call-Bounded on s s' t call b (rw (turn, e) at run)
turn-Bounded on s s' t call Pc.signaling e b run =
    signal_locked-Bounded on s s' t b (rw (turn, e) at run)
turn-Bounded on s s' t call (Pc.waking u) e b run =
    signal_round-Bounded on s s' t u b (rw (turn, e) at run)
turn-Bounded on s s' t call Pc.testing e b run =
    test_signal-Bounded on s s' t b (rw (turn, e) at run)
turn-Bounded on s s' t call Pc.unsignaled e b run =
    becomes-Bounded on s s' (record s.event { waiting_list = s.event.waiting_list ++ t ∷ [] }) t
      Pc.blocking b refl (omega arith) (locked-turn s.event.event_lock _ (rw (turn, e) at run))
turn-Bounded on s s' t call Pc.blocking e b run =
    becomes-Bounded on s s' s.event t Pc.blocked b refl (omega arith) (rw (turn, e) at run)
turn-Bounded on s s' t call Pc.blocked e b run =
    let stuck : waits ≡ moves s' = (rw (turn, e) at run) in cc
turn-Bounded on s s' t call Pc.woken e b run = wake_up-Bounded on s s' t b (rw (turn, e) at run)

Reachable-Bounded : (on : Bool) (s : System) → Reachable synchronization on s → Bounded on s
unfolding ex_event_init
Reachable-Bounded on s start = record { is_synchronization = refl; at_most = omega arith }
Reachable-Bounded on s (next before s' t call r run) =
    turn-Bounded on before s' t call (before.pc t) refl (Reachable-Bounded on before r) run

-- However the threads interleave, ExEventWaitForSignal on a synchronization event has returned no
-- more often than ExEventSignal has set the signal, and once more for an event that ExEventInit made
-- signaled; a signal that is still set is one that no return has used.
pub returns_at_most :
    (on : Bool) (s : System)
    → Reachable synchronization on s
    → s.returns + as_number s.event.signaled ≤ s.signals + as_number on
returns_at_most on s r = (Reachable-Bounded on s r).at_most
