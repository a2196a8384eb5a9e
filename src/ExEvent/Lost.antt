-- ===== src/ExEvent/Lost.antt =====
-- A signal that comes between the test of the signal and the entry into the waiting list.
use hall.Prelude.{
  assign, assign-same, assign-other, ℕ, ◌+◌, ◌≡◌, ◌≢◌, refl, sym, ap, ◌∙◌, true, Option, none, some,
  List, [], ◌∷◌, ◌++◌,
}
use hall.ExEvent.{Pc, System, Call, Turn, moves, waits, turn, signal_locked, queue_up}

free_turn : (o : Option ℕ) (x : Turn) → o ≡ none → elim o [ some v ↦ waits | none ↦ x ] ≡ x
free_turn none x h = refl
free_turn (some v) x h = cc

empty_turn :
    (l : List ℕ) (x : Turn) (f : ℕ → List ℕ → Turn)
    → l ≡ []
    → elim l [ [] ↦ x | v ∷ rest ↦ f v rest ] ≡ x
empty_turn [] x f h = refl
empty_turn (v ∷ rest) x f h = cc

signals_nobody :
    (s : System) (u : ℕ) (call : Call)
    → s.pc u ≡ Pc.signaling
    → s.event.event_lock ≡ none
    → s.event.waiting_list ≡ []
    → turn s u call
      ≡ moves (record s {
        event = record s.event { event_lock = none; signaled = true };
        pc = assign s.pc u Pc.outside;
        signals = s.signals + 1;
      })
unfolding turn signal_locked
signals_nobody s u call e free empty =
    rw (turn, e) (free_turn s.event.event_lock _ free ∙ empty_turn s.event.waiting_list _ _ empty)

queues_up :
    (s : System) (t : ℕ) (call : Call)
    → s.pc t ≡ Pc.unsignaled
    → s.event.event_lock ≡ none
    → turn s t call
      ≡ moves (record s {
        event = record s.event { waiting_list = s.event.waiting_list ++ t ∷ [] };
        pc = assign s.pc t Pc.blocking;
      })
unfolding turn queue_up
queues_up s t call e free = rw (turn, e) (free_turn s.event.event_lock _ free)

blocks :
    (s : System) (t : ℕ) (call : Call)
    → s.pc t ≡ Pc.blocking
    → turn s t call ≡ moves (record s { pc = assign s.pc t Pc.blocked })
unfolding turn
blocks s t call e = rw (turn, e) refl

-- If ExEventSignal runs after a thread has found the event not signaled and before it has entered
-- the waiting list, which is empty, the thread blocks although the event is signaled: it waits in
-- the list for another call of ExEventSignal.
pub signal_missed :
    (s : System) (t u : ℕ) (call : Call)
    → s.pc t ≡ Pc.unsignaled
    → s.pc u ≡ Pc.signaling
    → t ≢ u
    → s.event.event_lock ≡ none
    → s.event.waiting_list ≡ []
    → (s1 : System) × (s2 : System) × (s3 : System) × (turn s u call ≡ moves s1)
      × (turn s1 t call ≡ moves s2)
      × (turn s2 t call ≡ moves s3)
      × (s3.event.signaled ≡ true)
      × (s3.event.waiting_list ≡ t ∷ [])
      × (s3.pc u ≡ Pc.outside)
      × (s3.pc t ≡ Pc.blocked)
      × (turn s3 t call ≡ waits)
unfolding turn
signal_missed s t u call e k apart free empty =
    let s1 : System = record s {
      event = record s.event { event_lock = none; signaled = true };
      pc = assign s.pc u Pc.outside;
      signals = s.signals + 1;
    } in
    let s2 : System = record s1 {
      event = record s1.event { waiting_list = s.event.waiting_list ++ t ∷ [] };
      pc = assign s1.pc t Pc.blocking;
    } in
    let s3 : System = record s2 { pc = assign s2.pc t Pc.blocked } in
    let at_end : s3.pc t ≡ Pc.blocked = assign-same s2.pc t Pc.blocked in
    (
      s1,
      s2,
      s3,
      signals_nobody s u call k free empty,
      queues_up s1 t call (assign-other s.pc u Pc.outside t apart ∙ e) refl,
      blocks s2 t call (assign-same s1.pc t Pc.blocking),
      refl,
      ap (λ l. l ++ t ∷ []) empty,
      assign-other s2.pc t Pc.blocked u (λ q. apart (sym q))
          ∙ assign-other s1.pc t Pc.blocking u (λ q. apart (sym q))
          ∙ assign-same s.pc u Pc.outside,
      at_end,
      rw (turn, at_end) refl,
    )
