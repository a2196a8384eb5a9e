-- ===== src/Mutex/Safety.antt =====
-- What the mutex promises to the threads that use it.
use hall.Prelude.{
  ℕ, suc, ◌<◌, ◌≡◌, refl, sym, ◌∙◌, Bool, true, false, if◌then◌else◌, arith, some_inj, max_byte,
}
use hall.Mutex.{
  Pc, System, Call, acquire, release, moves, waits, mutex_init, turn, Reachable, start, next,
}
use hall.Mutex.Invariant.{Inv}
use hall.Mutex.Turns.{
  Ok-at, acquire_begin-keeps, acquire_locked-keeps, acquire_round-keeps, thread_block-keeps,
  acquire_again-keeps, release_begin-keeps,
}
use hall.Mutex.Handover.{release_locked-keeps, thread_unblock-keeps}

turn-keeps :
    (s s' : System) (t : ℕ) (call : Call) (p : Pc)
    → s.pc t ≡ p
    → Inv s
    → turn s t call false ≡ moves s'
    → Inv s'
unfolding turn
turn-keeps s s' t acquire (Pc.outside times) e inv run =
    acquire_begin-keeps s s' t times inv e (rw (turn, e) at run)
turn-keeps s s' t release (Pc.outside times) e inv run =
    release_begin-keeps s s' t times inv e (rw (turn, e) at run)
turn-keeps s s' t call Pc.entering e inv run =
    acquire_locked-keeps s s' t inv e (rw (turn, e) at run)
turn-keeps s s' t call Pc.checking e inv run =
    acquire_round-keeps s s' t inv e (rw (turn, e) at run)
turn-keeps s s' t call Pc.blocking e inv run = thread_block-keeps s s' t inv e (rw (turn, e) at run)
turn-keeps s s' t call Pc.blocked e inv run =
    let stuck : waits ≡ moves s' = (rw (turn, e) at run) in cc
turn-keeps s s' t call Pc.woken e inv run = acquire_again-keeps s s' t inv e (rw (turn, e) at run)
turn-keeps s s' t call Pc.leaving e inv run =
    release_locked-keeps s s' t inv e (rw (turn, e) at run)
turn-keeps s s' t call (Pc.waking u) e inv run =
    thread_unblock-keeps s s' t u inv e (rw (turn, e) at run)
turn-keeps s s' t call Pc.dead e inv run =
    let stuck : waits ≡ moves s' = (rw (turn, e) at run) in cc

pub Reachable-Inv : (recursive : Bool) (s : System) → Reachable recursive s → Inv s
unfolding mutex_init
Reachable-Inv recursive s start = record {
  ok = λ t. ((λ k. cc), (λ k. cc), refl);
  owner = λ t k. absurd cc;
  target = λ t u k. absurd cc;
  waker = λ u k h. absurd h;
  served = λ k. refl;
  no_twice = tt;
  bound = depth_bound recursive;
}
  where
    depth_bound : (r : Bool) → (if r then max_byte else 1) < 0x100
    depth_bound true = omega arith
    depth_bound false = omega arith
Reachable-Inv recursive s (next before s' t call r may run) =
    turn-keeps before s' t call (before.pc t) refl (Reachable-Inv recursive before r) run

-- However the threads interleave, no two threads hold the mutex at a time: what holds it has
-- returned from MutexAcquire more often than it has called MutexRelease. No thread is terminated by
-- force while it waits.
pub one_holder :
    (recursive : Bool) (s : System) (t u a b : ℕ)
    → Reachable recursive s
    → s.pc t ≡ Pc.outside (suc a)
    → s.pc u ≡ Pc.outside (suc b)
    → t ≡ u
one_holder recursive s t u a b r e k =
    let inv = Reachable-Inv recursive s r in
    some_inj (sym (Ok-at s t inv e).1 ∙ (Ok-at s u inv k).1)
