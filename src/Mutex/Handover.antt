-- ===== src/Mutex/Handover.antt =====
-- The turns of MutexRelease that give the mutex away keep what holds of it.
use hall.Prelude.{
  assign, assign-same, assign-other, assign-all, ℕ, zero, suc, ◌≡◌, ◌≢◌, ◌⊎◌, inl, inr, refl, sym,
  ap, ◌∙◌, subst, true, false, Option, none, some, List, [], ◌∷◌, is_in, NoTwice, some_inj,
  not_both, not_in-parts, is_in-tail_other, is_in-head, ℕ_discrete,
}
use hall.Mutex.{Mutex, Pc, System, Turn, moves, halts, waits, release_locked, thread_unblock}
use hall.Mutex.Invariant.{HasLock, IsStill, Ok, Inv, Frame, Ok-frame, Asleep}
use hall.Mutex.Moves.{moves_inj, quiet_turn, Others, Others-Frame, Others-unlock}
use hall.Mutex.Turns.{Ok-at, IsQuiet-at}

List-cases : (xs : List ℕ) → (xs ≡ []) ⊎ ((x : ℕ) × (rest : List ℕ) × (xs ≡ x ∷ rest))
List-cases [] = inl refl
List-cases (x ∷ rest) = inr (x, rest, refl)

Others-given_up :
    (m : Mutex) (t : ℕ)
    → m.mutex_lock ≡ none
    → m.holder ≡ some t
    → Others m (record m { holder = none }) t
Others-given_up m t free holds = record {
  lock_kept = λ u n e. e;
  lock_on = λ u n e. absurd cc;
  holder_kept = λ u n e. absurd cc;
  holder_on = λ u n e. absurd (n (some_inj (sym e ∙ holds)));
  queue = λ u n. refl;
}

-- The waiting threads are those that are switched out or on the way there.
listed-IsStill : (m : Mutex) (u : ℕ) (p : Pc) → Ok m u p → is_in u m.waiting_list ≡ true → IsStill p
listed-IsStill m u (Pc.outside zero) (lock, away, absent) h = not_both h absent
listed-IsStill m u (Pc.outside (suc n)) (lock, holds, depth, absent) h = not_both h absent
listed-IsStill m u Pc.entering (lock, away, absent) h = not_both h absent
listed-IsStill m u Pc.checking (lock, somebody, once, absent) h = not_both h absent
listed-IsStill m u Pc.blocking k h = tt
listed-IsStill m u Pc.blocked k h = tt
listed-IsStill m u Pc.woken (lock, holds, depth, absent) h = not_both h absent
listed-IsStill m u Pc.leaving (lock, holds, depth, absent) h = not_both h absent
listed-IsStill m u (Pc.waking v) (lock, holds, apart, absent) h = not_both h absent
listed-IsStill m u Pc.dead k h = k

IsStill-Ok : (m : Mutex) (u : ℕ) (p : Pc) → IsStill p → Asleep m u → Ok m u p
IsStill-Ok m u Pc.blocking still h = h
IsStill-Ok m u Pc.blocked still h = h
IsStill-Ok m u (Pc.outside n) still h = absurd still
IsStill-Ok m u Pc.entering still h = absurd still
IsStill-Ok m u Pc.checking still h = absurd still
IsStill-Ok m u Pc.woken still h = absurd still
IsStill-Ok m u Pc.leaving still h = absurd still
IsStill-Ok m u (Pc.waking v) still h = absurd still
IsStill-Ok m u Pc.dead still h = absurd still

-- The mutex handed to the first thread of the waiting list.
abbrev pub handed : Mutex → ℕ → ℕ → List ℕ → Mutex
handed m t u rest = record m {
  mutex_lock = some t;
  waiting_list = rest;
  holder = some u;
  current_recursivity_depth = 1;
}

module _ (s : System) (t u : ℕ) (rest : List ℕ) (inv : Inv s) (e : s.pc t ≡ Pc.leaving)
    (free : s.mutex.mutex_lock ≡ none) (list : s.mutex.waiting_list ≡ u ∷ rest) where
  abbrev m' : Mutex
  m' = handed s.mutex t u rest

  t_absent : (t ≢ u) × (is_in t rest ≡ false)
  t_absent =
      let (lock, holds, once, absent) = Ok-at s t inv e in
      not_in-parts t u rest (subst (λ l. is_in t l ≡ false) list absent)

  u-IsStill : IsStill (s.pc u)
  u-IsStill =
      listed-IsStill s.mutex u (s.pc u) (inv.ok u)
        (subst (λ l. is_in u l ≡ true) (sym list) (is_in-head u rest))

  rest-NoTwice : NoTwice (u ∷ rest)
  rest-NoTwice = subst NoTwice list inv.no_twice

  other-Frame : (v : ℕ) → v ≢ t → v ≢ u → Frame s.mutex m' v
  other-Frame v n k =
      let (lock, holds, once, absent) = Ok-at s t inv e in
      record {
        not_holder = λ h q. k (sym (some_inj q));
        is_holder = λ h. absurd (n (some_inj (sym h ∙ holds)));
        not_owner = λ h q. n (sym (some_inj q));
        is_owner = λ h. absurd cc;
        queue = sym (is_in-tail_other v u rest k) ∙ ap (is_in v) (sym list);
      }

  other-Ok : (v : ℕ) → v ≢ t → Ok m' v (s.pc v)
  other-Ok v n = elim (ℕ_discrete v u) [
    | no k ↦ Ok-frame (other-Frame v n k) (s.pc v) (inv.ok v)
    | yes same ↦
        subst (λ w. Ok m' w (s.pc w)) (sym same)
          (IsStill-Ok m' u (s.pc u) u-IsStill
            ((λ q. t_absent.0 (some_inj q)), inr (refl, refl, rest-NoTwice.0)))
  ]

  handover-Inv : Inv (record { mutex = m'; pc = assign s.pc t (Pc.waking u) })
  handover-Inv = record {
    ok =
        assign-all (Ok m') s.pc t (Pc.waking u) (refl, refl, (λ q. t_absent.0 (sym q)), t_absent.1)
          other-Ok;
    owner =
        assign-all (λ v q. some t ≡ some v → HasLock q) s.pc t (Pc.waking u) (λ k. tt)
          (λ v n k. absurd (n (sym (some_inj k))));
    target = λ v w.
        assign-all (λ x q. q ≡ Pc.waking w → IsStill (assign s.pc t (Pc.waking u) w)) s.pc t
          (Pc.waking u)
          (λ k.
            let same : u ≡ w = cc in
            subst (λ x. IsStill (assign s.pc t (Pc.waking u) x)) same
              (subst IsStill (sym (assign-other s.pc t (Pc.waking u) u (λ q. t_absent.0 (sym q))))
                u-IsStill))
          (λ x n k. let (owned, held, apart, absent) = Ok-at s x inv k in absurd cc) v;
    waker = λ w holds still. (t, assign-same s.pc t (Pc.waking u) ∙ ap Pc.waking (some_inj holds));
    served = λ k. absurd cc;
    no_twice = rest-NoTwice.1;
    bound = inv.bound;
  }

-- LockAcquire spins while the lock is taken.
locked-turn :
    {s' : System} (o : Option ℕ) (x : Turn)
    → elim o [ some u ↦ waits | none ↦ x ] ≡ moves s'
    → (o ≡ none) × (x ≡ moves s')
locked-turn none x h = (refl, h)
locked-turn (some u) x h = cc

listed-turn :
    {s' : System} (l : List ℕ) (x : Turn) (f : ℕ → List ℕ → Turn)
    → elim l [ [] ↦ x | u ∷ rest ↦ f u rest ] ≡ moves s'
    → ((l ≡ []) × (x ≡ moves s'))
      ⊎ ((u : ℕ) × (rest : List ℕ) × (l ≡ u ∷ rest) × (f u rest ≡ moves s'))
listed-turn [] x f h = inl (refl, h)
listed-turn (u ∷ rest) x f h = inr (u, rest, refl, h)

pub release_locked-keeps :
    (s s' : System) (t : ℕ) → Inv s → s.pc t ≡ Pc.leaving → release_locked s t ≡ moves s' → Inv s'
unfolding release_locked
release_locked-keeps s s' t inv e run =
    let (free, run') = locked-turn s.mutex.mutex_lock _ run in
    elim (listed-turn s.mutex.waiting_list _ _ run') [
      | inl (empty, go) ↦
          let (lock, holds, once, absent) = Ok-at s t inv e in
          subst Inv (moves_inj go) (
            quiet_turn s t (Pc.outside 0) (record s.mutex { holder = none }) inv
              (IsQuiet-at s t e tt) tt (Others-given_up s.mutex t free holds)
              (lock, (λ k. cc), absent) (λ k. absurd (lock k)) (λ k. empty) inv.no_twice refl)
      | inr (u, rest, list, go) ↦ subst Inv (moves_inj go) (handover-Inv s t u rest inv e free list)
    ]

module _ (s : System) (t u : ℕ) (inv : Inv s) (e : s.pc t ≡ Pc.waking u)
    (asleep : s.pc u ≡ Pc.blocked) where
  abbrev unlocked : Mutex
  unlocked = record s.mutex { mutex_lock = none }

  abbrev woken_u : ℕ → Pc
  woken_u = assign s.pc u Pc.woken

  abbrev Waker : ℕ → Type 0
  Waker w = (v : ℕ) × (assign woken_u t (Pc.outside 0) v ≡ Pc.waking w)

  woken-Ok : Ok unlocked u Pc.woken
  woken-Ok = one_of (Ok-at s u inv asleep) (Ok-at s t inv e)
    where
      one_of : Ok s.mutex u Pc.blocked → Ok s.mutex t (Pc.waking u) → Ok unlocked u Pc.woken
      one_of (lock, inl (away, present)) (owned, holds, apart, absent) = absurd (away holds)
      one_of (lock, inr (held, depth, left)) k = ((λ q. cc), held, depth, left)

  owner_is_t : (v w : ℕ) → s.pc v ≡ Pc.waking w → v ≡ t
  owner_is_t v w k = some_inj (sym (Ok-at s v inv k).0 ∙ (Ok-at s t inv e).0)

  wakeup-Inv : Inv (record { mutex = unlocked; pc = assign woken_u t (Pc.outside 0) })
  wakeup-Inv =
      let (owned, holds, apart, absent) = Ok-at s t inv e in
      record {
        ok =
            assign-all (Ok unlocked) woken_u t (Pc.outside 0)
              ((λ q. cc), (λ q. apart (some_inj (sym holds ∙ q))), absent)
              (λ v n.
                assign-all (λ x q. x ≢ t → Ok unlocked x q) s.pc u Pc.woken (λ k. woken-Ok)
                  (λ x k l.
                    Ok-frame (Others-Frame s.mutex unlocked t (Others-unlock s.mutex t owned) x l)
                      (s.pc x) (inv.ok x))
                  v n);
        owner = λ v k. absurd cc;
        target = λ v w.
            assign-all (λ x q. q ≡ Pc.waking w → IsStill (assign woken_u t (Pc.outside 0) w))
              woken_u t (Pc.outside 0) (λ k. absurd cc)
              (λ x n.
                assign-all
                  (λ y q. y ≢ t → q ≡ Pc.waking w → IsStill (assign woken_u t (Pc.outside 0) w))
                  s.pc u Pc.woken (λ l k. absurd cc) (λ y m l k. absurd (l (owner_is_t y w k))) x n)
              v;
        waker = λ w held.
            assign-all (λ x q. s.mutex.holder ≡ some x → IsStill q → Waker w) woken_u t
              (Pc.outside 0) (λ h k. absurd k)
              (λ x n.
                assign-all (λ y q. s.mutex.holder ≡ some y → IsStill q → Waker w) s.pc u Pc.woken
                  (λ h k. absurd k) (λ y m h k. absurd (m (some_inj (sym h ∙ holds)))) x)
              w held;
        served = inv.served;
        no_twice = inv.no_twice;
        bound = inv.bound;
      }

unblock-turn :
    {s' : System} (p : Pc) (x : System)
    → elim p [ Pc.blocking ↦ waits | Pc.blocked ↦ moves x | _ ↦ halts ] ≡ moves s'
    → (p ≡ Pc.blocked) × (x ≡ s')
unblock-turn Pc.blocked x h = (refl, moves_inj h)
unblock-turn Pc.blocking x h = cc
unblock-turn (Pc.outside n) x h = cc
unblock-turn Pc.entering x h = cc
unblock-turn Pc.checking x h = cc
unblock-turn Pc.woken x h = cc
unblock-turn Pc.leaving x h = cc
unblock-turn (Pc.waking v) x h = cc
unblock-turn Pc.dead x h = cc

pub thread_unblock-keeps :
    (s s' : System) (t u : ℕ)
    → Inv s
    → s.pc t ≡ Pc.waking u
    → thread_unblock s t u ≡ moves s'
    → Inv s'
unfolding thread_unblock
thread_unblock-keeps s s' t u inv e run =
    let (asleep, go) = unblock-turn (s.pc u) _ run in subst Inv go (wakeup-Inv s t u inv e asleep)
