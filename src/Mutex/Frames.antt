-- ===== src/Mutex/Frames.antt =====
-- A step of one thread that wakes no other keeps what holds of the mutex.
use hall.Prelude.{
  assign, assign-other, assign-all, ℕ, ◌<◌, ◌≡◌, ◌≢◌, sym, ◌∙◌, subst, none, some, [], NoTwice,
  ℕ_discrete,
}
use hall.Mutex.{Mutex, Pc, System}
use hall.Mutex.Invariant.{HasLock, IsStill, Ok, Inv, Frame, Ok-frame}

-- Thread `t` goes on to `p` and leaves the mutex as `m`.
pub record Alone (s : System) (t : ℕ) (p : Pc) (m : Mutex) : Type 0 where
  pub frame : (u : ℕ) → u ≢ t → Frame s.mutex m u
  pub own : Ok m t p
  pub lock_owner : m.mutex_lock ≡ some t → HasLock p
  pub lock_kept : (u : ℕ) → u ≢ t → m.mutex_lock ≡ some u → s.mutex.mutex_lock ≡ some u
  pub was_not_waking : (u : ℕ) → s.pc t ≢ Pc.waking u
  pub not_waking : (u : ℕ) → p ≢ Pc.waking u
  pub stays_still : IsStill (s.pc t) → IsStill p
  pub was_still : IsStill p → m.holder ≡ some t → IsStill (s.pc t) × (s.mutex.holder ≡ some t)
  pub holder_kept : (u : ℕ) → u ≢ t → m.holder ≡ some u → s.mutex.holder ≡ some u
  pub served : m.holder ≡ none → m.waiting_list ≡ []
  pub no_twice : NoTwice m.waiting_list
  pub bound : m.max_recursivity_depth ≡ s.mutex.max_recursivity_depth

module _ (s : System) (t : ℕ) (p : Pc) (m : Mutex) (inv : Inv s) (a : Alone s t p m) where
  target_kept : (v u : ℕ) → assign s.pc t p v ≡ Pc.waking u → IsStill (assign s.pc t p u)
  target_kept v u =
      assign-all (λ w q. q ≡ Pc.waking u → IsStill (assign s.pc t p u)) s.pc t p
        (λ e. absurd (a.not_waking u e))
        (λ w n e.
          assign-all (λ x q. IsStill (s.pc x) → IsStill q) s.pc t p a.stays_still (λ x k h. h) u
            (inv.target w u e))
        v

  still_waker :
      (u : ℕ) → (v : ℕ) × (s.pc v ≡ Pc.waking u) → (v : ℕ) × (assign s.pc t p v ≡ Pc.waking u)
  still_waker u (v, e) = elim (ℕ_discrete v t) [
    | yes here ↦ absurd (a.was_not_waking u (subst (λ w. s.pc w ≡ Pc.waking u) here e))
    | no there ↦ (v, assign-other s.pc t p v there ∙ e)
  ]

  waker_kept :
      (u : ℕ)
      → m.holder ≡ some u
      → IsStill (assign s.pc t p u)
      → (v : ℕ) × (assign s.pc t p v ≡ Pc.waking u)
  waker_kept u holds still = still_waker u (
      assign-all (λ w q. m.holder ≡ some w → IsStill q → (v : ℕ) × (s.pc v ≡ Pc.waking w)) s.pc t p
        (λ h k. let (before, held) = a.was_still k h in inv.waker t held before)
        (λ w n h k. inv.waker w (a.holder_kept w n h) k) u holds still)

  pub Inv-alone : Inv (record { mutex = m; pc = assign s.pc t p })
  Inv-alone = record {
    ok = assign-all (Ok m) s.pc t p a.own (λ u n. Ok-frame (a.frame u n) (s.pc u) (inv.ok u));
    owner =
        assign-all (λ u q. m.mutex_lock ≡ some u → HasLock q) s.pc t p a.lock_owner
          (λ u n e. inv.owner u (a.lock_kept u n e));
    target = target_kept;
    waker = waker_kept;
    served = a.served;
    no_twice = a.no_twice;
    bound = subst (λ n. n < 0x100) (sym a.bound) inv.bound;
  }
