-- ===== src/Mutex/Asserts.antt =====
-- No ASSERT of mutex.c and of ThreadUnblock fails.
use hall.Prelude.{
  ℕ, zero, suc, ◌<◌, ◌≡◌, ◌≢◌, inl, inr, refl, Bool, true, false, Option, none, some, List, [], ◌∷◌,
  ==_iff, if◌then◌else◌, ltb, lt→ltb, arith, some_inj, Bool-cases,
}
use hall.Mutex.{
  Pc, System, Turn, Call, acquire, release, moves, halts, waits, is_thread, turn, MayCall,
  Reachable, acquire_begin, release_begin, acquire_locked, acquire_round, acquire_again,
  release_locked, thread_block, thread_unblock,
}
use hall.Mutex.Invariant.{IsStill, Inv}
use hall.Mutex.Moves.{is_thread-true}
use hall.Mutex.Turns.{Ok-at}
use hall.Mutex.Safety.{Reachable-Inv}

-- A thread that acquires the mutex again has room for it in the recursion depth.
abbrev pub MayTake : System → Pc → Call → Type 0
MayTake s (Pc.outside (suc times)) acquire = suc times < s.mutex.max_recursivity_depth
MayTake s p call = Unit

is_thread_self : (o : Option ℕ) (t : ℕ) → o ≡ some t → is_thread o t ≡ true
is_thread_self none t h = cc
is_thread_self (some u) t h = (==_iff u t).1 (some_inj h)

acquire_begin-runs :
    (s : System) (t times : ℕ)
    → Inv s
    → s.pc t ≡ Pc.outside times
    → MayTake s (Pc.outside times) acquire
    → acquire_begin s t times ≢ halts
unfolding acquire_begin
acquire_begin-runs s t zero inv e room = elim (Bool-cases (is_thread s.mutex.holder t)) [
  | inl mine ↦ absurd ((Ok-at s t inv e).1 (is_thread-true s.mutex.holder t mine))
  | inr other ↦ rw other (λ k. cc)
]
acquire_begin-runs s t (suc times) inv e room =
    let (lock, holds, depth, absent) = Ok-at s t inv e in
    let below =
      lt→ltb s.mutex.current_recursivity_depth s.mutex.max_recursivity_depth
        (omega (arith, depth, room)) in
    rw (is_thread_self s.mutex.holder t holds, below) (λ k. cc)

lock-ne : (o : Option ℕ) {x : Turn} → x ≢ halts → elim o [ some u ↦ waits | none ↦ x ] ≢ halts
lock-ne none h k = h k
lock-ne (some u) h k = cc

release_locked-runs : (s : System) (t : ℕ) → release_locked s t ≢ halts
unfolding release_locked
release_locked-runs s t = lock-ne s.mutex.mutex_lock (by_list _ _ s.mutex.waiting_list)
  where
    by_list :
        (x : System) (f : ℕ → List ℕ → System) (l : List ℕ)
        → elim l [ [] ↦ moves x | u ∷ rest ↦ moves (f u rest) ] ≢ halts
    by_list x f [] k = cc
    by_list x f (u ∷ rest) k = cc

acquire_locked-runs : (s : System) (t : ℕ) → acquire_locked s t ≢ halts
unfolding acquire_locked
acquire_locked-runs s t = lock-ne s.mutex.mutex_lock (by_holder _ _ s.mutex.holder)
  where
    by_holder : (x y : System) (o : Option ℕ) → elim o [ none ↦ moves x | some u ↦ moves y ] ≢ halts
    by_holder x y none k = cc
    by_holder x y (some u) k = cc

thread_unblock-runs : (s : System) (t u : ℕ) → IsStill (s.pc u) → thread_unblock s t u ≢ halts
unfolding thread_unblock
thread_unblock-runs s t u still = by_pc _ (s.pc u) still
  where
    by_pc :
        (x : System) (p : Pc)
        → IsStill p
        → elim p [ Pc.blocking ↦ waits | Pc.blocked ↦ moves x | _ ↦ halts ] ≢ halts
    by_pc x Pc.blocking h k = cc
    by_pc x Pc.blocked h k = cc
    by_pc x (Pc.outside n) h k = h
    by_pc x Pc.entering h k = h
    by_pc x Pc.checking h k = h
    by_pc x Pc.woken h k = h
    by_pc x Pc.leaving h k = h
    by_pc x (Pc.waking v) h k = h
    by_pc x Pc.dead h k = h

release_begin-runs :
    (s : System) (t times : ℕ)
    → Inv s
    → s.pc t ≡ Pc.outside (suc times)
    → release_begin s t (suc times) ≢ halts
unfolding release_begin
release_begin-runs s t times inv e =
    let (lock, holds, depth, absent) = Ok-at s t inv e in
    rw (is_thread_self s.mutex.holder t holds)
      (either (ltb 1 s.mutex.current_recursivity_depth) _ _)
  where
    either : (b : Bool) (x y : System) → (if b then moves x else moves y) ≢ halts
    either true x y k = cc
    either false x y k = cc

acquire_round-runs : (s : System) (t : ℕ) → acquire_round s t ≢ halts
unfolding acquire_round
acquire_round-runs s t = either (is_thread s.mutex.holder t) _ _
  where
    either : (b : Bool) (x y : System) → (if b then moves x else moves y) ≢ halts
    either true x y k = cc
    either false x y k = cc

turn-runs :
    (s : System) (t : ℕ) (call : Call) (p : Pc)
    → s.pc t ≡ p
    → Inv s
    → MayCall p call
    → MayTake s p call
    → turn s t call false ≢ halts
unfolding turn thread_block acquire_again
turn-runs s t acquire (Pc.outside times) e inv may room =
    rw (turn, e) (acquire_begin-runs s t times inv e room)
turn-runs s t release (Pc.outside (suc times)) e inv may room =
    rw (turn, e) (release_begin-runs s t times inv e)
turn-runs s t release (Pc.outside zero) e inv may room = absurd may
turn-runs s t call Pc.entering e inv may room = rw (turn, e) (acquire_locked-runs s t)
turn-runs s t call Pc.checking e inv may room = rw (turn, e) (acquire_round-runs s t)
turn-runs s t call Pc.blocking e inv may room = rw (turn, e) (λ k. cc)
turn-runs s t call Pc.blocked e inv may room = rw (turn, e) (λ k. cc)
turn-runs s t call Pc.woken e inv may room = rw (turn, e) (lock-ne s.mutex.mutex_lock (λ k. cc))
turn-runs s t call Pc.leaving e inv may room = rw (turn, e) (release_locked-runs s t)
turn-runs s t call (Pc.waking u) e inv may room =
    rw (turn, e) (thread_unblock-runs s t u (inv.target t u e))
turn-runs s t call Pc.dead e inv may room = rw (turn, e) (λ k. cc)

-- However the threads interleave, no ASSERT fails: MutexRelease is called by the holder, and
-- ThreadUnblock finds the thread blocked. The threads release the mutex only when they hold it and
-- acquire it again only while the recursion depth has room, and none is terminated by force.
pub assertions_pass :
    (recursive : Bool) (s : System) (t : ℕ) (call : Call)
    → Reachable recursive s
    → MayCall (s.pc t) call
    → MayTake s (s.pc t) call
    → turn s t call false ≢ halts
assertions_pass recursive s t call r may room =
    turn-runs s t call (s.pc t) refl (Reachable-Inv recursive s r) may room
