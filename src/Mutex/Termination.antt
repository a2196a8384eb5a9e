-- ===== src/Mutex/Termination.antt =====
-- A thread that is terminated by force on its way to block: _ThreadForcedExit leaves it in the waiting
-- list of the mutex.
use hall.Prelude.{
  assign, assign-same, assign-other, ℕ, ◌≡◌, ◌≢◌, refl, sym, ◌∙◌, true, false, none, some, List,
  ◌∷◌,
}
use hall.Mutex.{Pc, System, Call, moves, halts, turn, release_locked, thread_block, thread_unblock}

ends :
    (s : System) (u : ℕ) (call : Call)
    → s.pc u ≡ Pc.blocking
    → turn s u call true ≡ moves (record s { pc = assign s.pc u Pc.dead })
unfolding turn thread_block
ends s u call e = rw (turn, e) refl

hands_over :
    (s : System) (t u : ℕ) (rest : List ℕ) (call : Call)
    → s.pc t ≡ Pc.leaving
    → s.mutex.mutex_lock ≡ none
    → s.mutex.waiting_list ≡ u ∷ rest
    → turn s t call false
      ≡ moves (record {
        mutex = record s.mutex {
          mutex_lock = some t;
          waiting_list = rest;
          holder = some u;
          current_recursivity_depth = 1;
        };
        pc = assign s.pc t (Pc.waking u);
      })
unfolding turn release_locked
hands_over s t u rest call e free list = rw (turn, e, release_locked, free, list) refl

fails :
    (s : System) (t u : ℕ) (call : Call)
    → s.pc t ≡ Pc.waking u
    → s.pc u ≡ Pc.dead
    → turn s t call false ≡ halts
unfolding turn thread_unblock
fails s t u call e k = rw (turn, e, thread_unblock, k) refl

-- If the first thread of the waiting list is terminated by force before it has blocked, the next
-- MutexRelease hands the mutex to it, and the ASSERT of ThreadUnblock on its state fails.
pub forced_exit_halts :
    (s : System) (t u : ℕ) (rest : List ℕ) (call : Call)
    → s.pc t ≡ Pc.leaving
    → s.pc u ≡ Pc.blocking
    → t ≢ u
    → s.mutex.mutex_lock ≡ none
    → s.mutex.waiting_list ≡ u ∷ rest
    → (s1 : System) × (s2 : System) × (turn s u call true ≡ moves s1)
      × (turn s1 t call false ≡ moves s2)
      × (turn s2 t call false ≡ halts)
forced_exit_halts s t u rest call e k apart free list =
    let s1 : System = record s { pc = assign s.pc u Pc.dead } in
    let s2 : System = record {
      mutex = record s.mutex {
        mutex_lock = some t;
        waiting_list = rest;
        holder = some u;
        current_recursivity_depth = 1;
      };
      pc = assign s1.pc t (Pc.waking u);
    } in
    (
      s1,
      s2,
      ends s u call k,
      hands_over s1 t u rest call (assign-other s.pc u Pc.dead t apart ∙ e) free list,
      fails s2 t u call (assign-same s1.pc t (Pc.waking u))
          (assign-other s1.pc t (Pc.waking u) u (λ q. apart (sym q)) ∙ assign-same s.pc u Pc.dead),
    )
