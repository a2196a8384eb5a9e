-- ===== src/Mutex/Moves.antt =====
-- The turns that wake no thread keep what holds of the mutex.
use hall.Prelude.{
  assign, ℕ, ◌≡◌, ◌≢◌, refl, sym, ap, ◌∙◌, true, false, Option, none, some, [], ◌∷◌, ◌++◌, is_in,
  NoTwice, ==_iff, some_inj, not_both, is_in-append_other,
}
use hall.Mutex.{Mutex, Pc, System, moves, is_thread}
use hall.Mutex.Invariant.{HasLock, IsStill, Ok, Inv, Frame}
use hall.Mutex.Frames.{Inv-alone}

pub moves_inj : {s s' : System} → moves s ≡ moves s' → s ≡ s'
moves_inj h = cc

pub is_thread-true : (o : Option ℕ) (t : ℕ) → is_thread o t ≡ true → o ≡ some t
is_thread-true none t h = cc
is_thread-true (some u) t h = ap some ((==_iff u t).0 h)

pub is_thread-false : (o : Option ℕ) (t : ℕ) → is_thread o t ≡ false → o ≢ some t
is_thread-false none t h e = cc
is_thread-false (some u) t h e = not_both ((==_iff u t).1 (some_inj e)) h

-- Neither waking another thread nor waiting to be woken.
abbrev pub IsQuiet : Pc → Type 0
IsQuiet (Pc.outside times) = Unit
IsQuiet Pc.entering = Unit
IsQuiet Pc.checking = Unit
IsQuiet Pc.woken = Unit
IsQuiet Pc.leaving = Unit
IsQuiet p = ⊥

quiet-not_waking : (p : Pc) → IsQuiet p → (u : ℕ) → p ≢ Pc.waking u
quiet-not_waking (Pc.waking v) q u e = q
quiet-not_waking (Pc.outside n) q u e = cc
quiet-not_waking Pc.entering q u e = cc
quiet-not_waking Pc.checking q u e = cc
quiet-not_waking Pc.woken q u e = cc
quiet-not_waking Pc.leaving q u e = cc
quiet-not_waking Pc.blocking q u e = q
quiet-not_waking Pc.blocked q u e = q
quiet-not_waking Pc.dead q u e = q

quiet-not_still : (p : Pc) → IsQuiet p → IsStill p → ⊥
quiet-not_still Pc.blocking q h = q
quiet-not_still Pc.blocked q h = q
quiet-not_still (Pc.outside n) q h = h
quiet-not_still Pc.entering q h = h
quiet-not_still Pc.checking q h = h
quiet-not_still Pc.woken q h = h
quiet-not_still Pc.leaving q h = h
quiet-not_still (Pc.waking v) q h = h
quiet-not_still Pc.dead q h = h

-- What the other threads see of the mutex.
pub record Others (m m' : Mutex) (t : ℕ) : Type 0 where
  pub lock_kept : (u : ℕ) → u ≢ t → m'.mutex_lock ≡ some u → m.mutex_lock ≡ some u
  pub lock_on :
      (u : ℕ) → u ≢ t → m.mutex_lock ≡ some u → (m'.mutex_lock ≡ some u) × (m'.holder ≡ m.holder)
  pub holder_kept : (u : ℕ) → u ≢ t → m'.holder ≡ some u → m.holder ≡ some u
  pub holder_on :
      (u : ℕ)
      → u ≢ t
      → m.holder ≡ some u
      → (m'.holder ≡ some u) × (m'.current_recursivity_depth ≡ m.current_recursivity_depth)
  pub queue : (u : ℕ) → u ≢ t → is_in u m'.waiting_list ≡ is_in u m.waiting_list

pub Others-Frame : (m m' : Mutex) (t : ℕ) → Others m m' t → (u : ℕ) → u ≢ t → Frame m m' u
Others-Frame m m' t o u n = record {
  not_holder = λ h e. h (o.holder_kept u n e);
  is_holder = o.holder_on u n;
  not_owner = λ h e. h (o.lock_kept u n e);
  is_owner = o.lock_on u n;
  queue = o.queue u n;
}

-- A quiet thread goes on to be quiet.
pub quiet_turn :
    (s : System) (t : ℕ) (p : Pc) (m : Mutex)
    → Inv s
    → IsQuiet (s.pc t)
    → IsQuiet p
    → Others s.mutex m t
    → Ok m t p
    → (m.mutex_lock ≡ some t → HasLock p)
    → (m.holder ≡ none → m.waiting_list ≡ [])
    → NoTwice m.waiting_list
    → m.max_recursivity_depth ≡ s.mutex.max_recursivity_depth
    → Inv (record { mutex = m; pc = assign s.pc t p })
quiet_turn s t p m inv before after others own lock served no_twice bound =
    Inv-alone s t p m inv (record {
      frame = Others-Frame s.mutex m t others;
      own = own;
      lock_owner = lock;
      lock_kept = others.lock_kept;
      was_not_waking = quiet-not_waking (s.pc t) before;
      not_waking = quiet-not_waking p after;
      stays_still = λ h. absurd (quiet-not_still (s.pc t) before h);
      was_still = λ h k. absurd (quiet-not_still p after h);
      holder_kept = others.holder_kept;
      served = served;
      no_twice = no_twice;
      bound = bound;
    })

pub Others-same : (m : Mutex) (t : ℕ) → Others m m t
Others-same m t = record {
  lock_kept = λ u n e. e;
  lock_on = λ u n e. (e, refl);
  holder_kept = λ u n e. e;
  holder_on = λ u n e. (e, refl);
  queue = λ u n. refl;
}

pub Others-lock :
    (m : Mutex) (t : ℕ) → m.mutex_lock ≡ none → Others m (record m { mutex_lock = some t }) t
Others-lock m t free = record {
  lock_kept = λ u n e. absurd (n (sym (some_inj e)));
  lock_on = λ u n e. absurd cc;
  holder_kept = λ u n e. e;
  holder_on = λ u n e. (e, refl);
  queue = λ u n. refl;
}

pub Others-unlock :
    (m : Mutex) (t : ℕ) → m.mutex_lock ≡ some t → Others m (record m { mutex_lock = none }) t
Others-unlock m t owned = record {
  lock_kept = λ u n e. absurd cc;
  lock_on = λ u n e. absurd (n (some_inj (sym e ∙ owned)));
  holder_kept = λ u n e. e;
  holder_on = λ u n e. (e, refl);
  queue = λ u n. refl;
}

pub Others-depth :
    (m : Mutex) (t d : ℕ)
    → m.holder ≡ some t
    → Others m (record m { current_recursivity_depth = d }) t
Others-depth m t d holds = record {
  lock_kept = λ u n e. e;
  lock_on = λ u n e. (e, refl);
  holder_kept = λ u n e. e;
  holder_on = λ u n e. absurd (n (some_inj (sym e ∙ holds)));
  queue = λ u n. refl;
}

pub Others-taken :
    (m : Mutex) (t : ℕ)
    → m.mutex_lock ≡ none
    → m.holder ≡ none
    → Others m (record m { mutex_lock = some t; holder = some t; current_recursivity_depth = 1 }) t
Others-taken m t free nobody = record {
  lock_kept = λ u n e. absurd (n (sym (some_inj e)));
  lock_on = λ u n e. absurd cc;
  holder_kept = λ u n e. absurd (n (sym (some_inj e)));
  holder_on = λ u n e. absurd cc;
  queue = λ u n. refl;
}

pub Others-queued :
    (m : Mutex) (t : ℕ)
    → m.mutex_lock ≡ some t
    → Others m (record m { mutex_lock = none; waiting_list = m.waiting_list ++ t ∷ [] }) t
Others-queued m t owned = record {
  lock_kept = λ u n e. absurd cc;
  lock_on = λ u n e. absurd (n (some_inj (sym e ∙ owned)));
  holder_kept = λ u n e. e;
  holder_on = λ u n e. (e, refl);
  queue = λ u n. is_in-append_other u t m.waiting_list n;
}
