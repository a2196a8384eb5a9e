-- ===== src/Mutex/Invariant.antt =====
-- What holds of the mutex and of the threads that use it.
use hall.Prelude.{
  ℕ, zero, suc, ◌<◌, ◌≡◌, ◌≢◌, ◌⊎◌, inl, inr, sym, ◌∙◌, true, false, none, some, [], is_in, NoTwice,
}
use hall.Mutex.{Mutex, Pc, System}

abbrev pub HasLock : Pc → Type 0
HasLock Pc.checking = Unit
HasLock (Pc.waking u) = Unit
HasLock p = ⊥

-- On the way to being switched out, or switched out.
abbrev pub IsStill : Pc → Type 0
IsStill Pc.blocking = Unit
IsStill Pc.blocked = Unit
IsStill p = ⊥

-- A thread in the waiting list is not the holder; it leaves the list when it is made the holder.
abbrev pub Asleep : Mutex → ℕ → Type 0
Asleep m t =
    (m.mutex_lock ≢ some t)
    × (((m.holder ≢ some t) × (is_in t m.waiting_list ≡ true))
        ⊎ ((m.holder ≡ some t)
            × (m.current_recursivity_depth ≡ 1)
            × (is_in t m.waiting_list ≡ false)))

abbrev pub HoldsOnce : Mutex → ℕ → Type 0
HoldsOnce m t =
    (m.mutex_lock ≢ some t)
    × (m.holder ≡ some t)
    × (m.current_recursivity_depth ≡ 1)
    × (is_in t m.waiting_list ≡ false)

abbrev pub HoldsNot : Mutex → ℕ → Type 0
HoldsNot m t = (m.mutex_lock ≢ some t) × (m.holder ≢ some t) × (is_in t m.waiting_list ≡ false)

-- What the mutex is for a thread, by where the thread stands.
abbrev pub Ok : Mutex → ℕ → Pc → Type 0
Ok m t (Pc.outside zero) = HoldsNot m t
Ok m t (Pc.outside (suc times)) =
    (m.mutex_lock ≢ some t)
    × (m.holder ≡ some t)
    × (m.current_recursivity_depth ≡ suc times)
    × (is_in t m.waiting_list ≡ false)
Ok m t Pc.entering = HoldsNot m t
Ok m t Pc.checking =
    (m.mutex_lock ≡ some t)
    × (m.holder ≢ none)
    × (m.holder ≡ some t → m.current_recursivity_depth ≡ 1)
    × (is_in t m.waiting_list ≡ false)
Ok m t Pc.blocking = Asleep m t
Ok m t Pc.blocked = Asleep m t
Ok m t Pc.woken = HoldsOnce m t
Ok m t Pc.leaving = HoldsOnce m t
Ok m t (Pc.waking u) =
    (m.mutex_lock ≡ some t) × (m.holder ≡ some u) × (u ≢ t) × (is_in t m.waiting_list ≡ false)
Ok m t Pc.dead = ⊥

pub record Inv (s : System) : Type 0 where
  pub ok : (t : ℕ) → Ok s.mutex t (s.pc t)
  pub owner : (t : ℕ) → s.mutex.mutex_lock ≡ some t → HasLock (s.pc t)
  pub target : (t u : ℕ) → s.pc t ≡ Pc.waking u → IsStill (s.pc u)
  pub waker :
      (u : ℕ) → s.mutex.holder ≡ some u → IsStill (s.pc u) → (t : ℕ) × (s.pc t ≡ Pc.waking u)
  pub served : s.mutex.holder ≡ none → s.mutex.waiting_list ≡ []
  pub no_twice : NoTwice s.mutex.waiting_list
  pub bound : s.mutex.max_recursivity_depth < 0x100

-- A step of other threads that a thread in its place does not see.
pub record Frame (m m' : Mutex) (t : ℕ) : Type 0 where
  pub not_holder : m.holder ≢ some t → m'.holder ≢ some t
  pub is_holder :
      m.holder ≡ some t
      → (m'.holder ≡ some t) × (m'.current_recursivity_depth ≡ m.current_recursivity_depth)
  pub not_owner : m.mutex_lock ≢ some t → m'.mutex_lock ≢ some t
  pub is_owner : m.mutex_lock ≡ some t → (m'.mutex_lock ≡ some t) × (m'.holder ≡ m.holder)
  pub queue : is_in t m'.waiting_list ≡ is_in t m.waiting_list

module _ {m m' : Mutex} {t : ℕ} (f : Frame m m' t) where
  HoldsNot-frame : HoldsNot m t → HoldsNot m' t
  HoldsNot-frame (lock, holder, absent) = (f.not_owner lock, f.not_holder holder, f.queue ∙ absent)

  HoldsOnce-frame : HoldsOnce m t → HoldsOnce m' t
  HoldsOnce-frame (lock, holder, depth, absent) =
      let (kept, same) = f.is_holder holder in
      (f.not_owner lock, kept, same ∙ depth, f.queue ∙ absent)

  Asleep-frame : Asleep m t → Asleep m' t
  Asleep-frame (lock, inl (holder, present)) =
      (f.not_owner lock, inl (f.not_holder holder, f.queue ∙ present))
  Asleep-frame (lock, inr (holder, depth, absent)) =
      let (kept, same) = f.is_holder holder in
      (f.not_owner lock, inr (kept, same ∙ depth, f.queue ∙ absent))

  pub Ok-frame : (p : Pc) → Ok m t p → Ok m' t p
  Ok-frame (Pc.outside zero) h = HoldsNot-frame h
  Ok-frame (Pc.outside (suc times)) (lock, holder, depth, absent) =
      let (kept, same) = f.is_holder holder in
      (f.not_owner lock, kept, same ∙ depth, f.queue ∙ absent)
  Ok-frame Pc.entering h = HoldsNot-frame h
  Ok-frame Pc.checking (lock, holder, depth, absent) =
      let (kept, same) = f.is_owner lock in
      (
        kept,
        (λ e. holder (sym same ∙ e)),
        (λ e. let back = sym same ∙ e in (f.is_holder back).1 ∙ depth back),
        f.queue ∙ absent,
      )
  Ok-frame Pc.blocking h = Asleep-frame h
  Ok-frame Pc.blocked h = Asleep-frame h
  Ok-frame Pc.woken h = HoldsOnce-frame h
  Ok-frame Pc.leaving h = HoldsOnce-frame h
  Ok-frame (Pc.waking u) (lock, holder, apart, absent) =
      let (kept, same) = f.is_owner lock in (kept, same ∙ holder, apart, f.queue ∙ absent)
  Ok-frame Pc.dead h = h
