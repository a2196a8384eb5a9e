-- ===== src/Mutex/Progress.antt =====
-- No wake-up is lost, and no thread overtakes the waiting ones.
use hall.Prelude.{
  ℕ, zero, suc, ◌≡◌, ◌⊎◌, inl, inr, refl, sym, ap, subst, Bool, true, false, Option, none, some,
  List, [], ◌∷◌, is_in, if◌then◌else◌, Option-cases, not_both,
}
use hall.Mutex.{
  Pc, System, Turn, Call, moves, waits, is_thread, turn, Reachable, acquire_round, acquire_again,
  release_locked, thread_block, thread_unblock,
}
use hall.Mutex.Invariant.{HasLock, IsStill, Ok, Inv}
use hall.Mutex.Turns.{Ok-at}
use hall.Mutex.Safety.{Reachable-Inv}

-- A thread is in its critical section.
abbrev pub InUse : System → Type 0
InUse s = (u : ℕ) × (times : ℕ) × (s.pc u ≡ Pc.outside (suc times))

-- A thread in a call gets on.
abbrev pub GetsOn : System → Call → Type 0
GetsOn s call = (u : ℕ) × (s' : System) × (turn s u call false ≡ moves s')

abbrev Moves : Turn → Type 0
Moves x = (s' : System) × (x ≡ moves s')

module _ (s : System) (call : Call) (inv : Inv s) where
  gets_on : (u : ℕ) → Moves (turn s u call false) → GetsOn s call
  gets_on u (s', run) = (u, s', run)

  round_moves : (w : ℕ) → s.pc w ≡ Pc.checking → GetsOn s call
  unfolding turn acquire_round
  round_moves w e = gets_on w (rw (turn, e) (either (is_thread s.mutex.holder w) _ _))
    where
      either :
          (b : Bool) (x y : System) → (s' : System) × ((if b then moves x else moves y) ≡ moves s')
      either true x y = (x, refl)
      either false x y = (y, refl)

  block_moves : (u : ℕ) → s.pc u ≡ Pc.blocking → GetsOn s call
  unfolding turn thread_block
  block_moves u e = gets_on u (rw (turn, e) (_, refl))

  unblock_moves : (w u : ℕ) → s.pc w ≡ Pc.waking u → s.pc u ≡ Pc.blocked → GetsOn s call
  unfolding turn thread_unblock
  unblock_moves w u e k = gets_on w (rw (turn, e, thread_unblock, k) (_, refl))

  again_moves : (u : ℕ) → s.pc u ≡ Pc.woken → s.mutex.mutex_lock ≡ none → GetsOn s call
  unfolding turn acquire_again
  again_moves u e free = gets_on u (rw (turn, e, free) (_, refl))

  release_moves : (u : ℕ) → s.pc u ≡ Pc.leaving → s.mutex.mutex_lock ≡ none → GetsOn s call
  unfolding turn release_locked
  release_moves u e free =
      gets_on u (rw (turn, e) (unlocked s.mutex.mutex_lock free s.mutex.waiting_list _ _))
    where
      unlocked :
          (o : Option ℕ)
          → o ≡ none
          → (l : List ℕ) (x : System) (f : ℕ → List ℕ → System)
          → (s' : System) × (elim o [
            | some v ↦ waits
            | none ↦ elim l [ [] ↦ moves x | v ∷ rest ↦ moves (f v rest) ]
          ]
              ≡ moves s')
      unlocked (some v) h l x f = cc
      unlocked none h [] x f = (x, refl)
      unlocked none h (v ∷ rest) x f = (f v rest, refl)

  -- While the spinlock is taken, its owner gets on, or the thread that it waits for does.
  owner_moves : (w : ℕ) (p : Pc) → s.pc w ≡ p → HasLock p → GetsOn s call
  owner_moves w Pc.checking e h = round_moves w e
  owner_moves w (Pc.waking u) e h = target_moves (s.pc u) refl (inv.target w u e)
    where
      target_moves : (q : Pc) → s.pc u ≡ q → IsStill q → GetsOn s call
      target_moves Pc.blocking k still = block_moves u k
      target_moves Pc.blocked k still = unblock_moves w u e k
      target_moves (Pc.outside n) k still = absurd still
      target_moves Pc.entering k still = absurd still
      target_moves Pc.checking k still = absurd still
      target_moves Pc.woken k still = absurd still
      target_moves Pc.leaving k still = absurd still
      target_moves (Pc.waking v) k still = absurd still
      target_moves Pc.dead k still = absurd still
  owner_moves w (Pc.outside n) e h = absurd h
  owner_moves w Pc.entering e h = absurd h
  owner_moves w Pc.blocking e h = absurd h
  owner_moves w Pc.blocked e h = absurd h
  owner_moves w Pc.woken e h = absurd h
  owner_moves w Pc.leaving e h = absurd h
  owner_moves w Pc.dead e h = absurd h

  no_waker : (u : ℕ) → s.mutex.mutex_lock ≡ none → s.mutex.holder ≡ some u → IsStill (s.pc u) → ⊥
  no_waker u free holds still =
      let (v, waking) = inv.waker u holds still in taken free (Ok-at s v inv waking).0
    where
      taken : {o : Option ℕ} {v : ℕ} → o ≡ none → o ≡ some v → ⊥
      taken h k = cc

  -- While the spinlock is free, the holder gets on or is in its critical section.
  holder_moves :
      (u : ℕ) (p : Pc)
      → s.pc u ≡ p
      → s.mutex.mutex_lock ≡ none
      → s.mutex.holder ≡ some u
      → InUse s ⊎ GetsOn s call
  holder_moves u (Pc.outside zero) e free holds = absurd ((Ok-at s u inv e).1 holds)
  holder_moves u (Pc.outside (suc n)) e free holds = inl (u, n, e)
  holder_moves u Pc.entering e free holds = absurd ((Ok-at s u inv e).1 holds)
  holder_moves u Pc.checking e free holds = let owned = (Ok-at s u inv e).0 in cc
  holder_moves u Pc.blocking e free holds =
      absurd (no_waker u free holds (subst IsStill (sym e) tt))
  holder_moves u Pc.blocked e free holds = absurd (no_waker u free holds (subst IsStill (sym e) tt))
  holder_moves u Pc.woken e free holds = inr (again_moves u e free)
  holder_moves u Pc.leaving e free holds = inr (release_moves u e free)
  holder_moves u (Pc.waking v) e free holds = let owned = (Ok-at s u inv e).0 in cc
  holder_moves u Pc.dead e free holds = absurd (Ok-at s u inv e)

  waited_for : (t : ℕ) → s.pc t ≡ Pc.blocked → (h : ℕ) × (s.mutex.holder ≡ some h)
  waited_for t e = elim (Option-cases s.mutex.holder) [
    | inr found ↦ found
    | inl nobody ↦ from_place (Ok-at s t inv e) (inv.served nobody) nobody
  ]
    where
      from_place :
          Ok s.mutex t Pc.blocked
          → s.mutex.waiting_list ≡ []
          → s.mutex.holder ≡ none
          → (h : ℕ) × (s.mutex.holder ≡ some h)
      from_place (lock, inl (away, present)) empty nobody =
          absurd (not_both present (ap (is_in t) empty))
      from_place (lock, inr (holds, depth, absent)) empty nobody = (t, holds)

-- No wake-up is lost: while a thread is blocked in MutexAcquire, some thread is in its critical
-- section, or a turn of some thread moves it on. So with every thread between its calls, and none
-- holding the mutex, none is blocked. No thread is terminated by force while it waits.
pub no_lost_wakeup :
    (recursive : Bool) (s : System) (t : ℕ) (call : Call)
    → Reachable recursive s
    → s.pc t ≡ Pc.blocked
    → InUse s ⊎ GetsOn s call
no_lost_wakeup recursive s t call r e =
    let inv = Reachable-Inv recursive s r in
    elim (Option-cases s.mutex.mutex_lock) [
      | inr (w, owned) ↦ inr (owner_moves s call inv w (s.pc w) refl (inv.owner w owned))
      | inl free ↦
          let (h, holds) = waited_for s call inv t e in
          holder_moves s call inv h (s.pc h) refl free holds
    ]
