-- ===== src/Mutex/Turns.antt =====
-- Each function's turn keeps what holds of the mutex, when it wakes no thread.
use hall.Prelude.{
  ℕ, zero, suc, ◌+◌, ◌-◌, ◌%◌, ◌<◌, ◌≡◌, ◌≢◌, inl, inr, refl, sym, ap, subst, false, none, some, [],
  ◌∷◌, ◌++◌, is_in, if-cases, ltb, ltb→lt, ltb-false, arith, Option-cases, is_in-append_self,
  NoTwice-append,
}
use hall.Mutex.{
  Mutex, Pc, System, moves, waits, becomes, is_thread, acquire_begin, acquire_locked, acquire_round,
  thread_block, acquire_again, release_begin,
}
use hall.Mutex.Invariant.{IsStill, Ok, Inv, HoldsNot}
use hall.Mutex.Frames.{Inv-alone}
use hall.Mutex.Moves.{
  moves_inj, is_thread-true, is_thread-false, IsQuiet, quiet_turn, Others-Frame, Others-same,
  Others-lock, Others-unlock, Others-depth, Others-taken, Others-queued,
}

-- In place: what holds of a thread that stands there.
pub Ok-at : (s : System) (t : ℕ) {p : Pc} → Inv s → s.pc t ≡ p → Ok s.mutex t p
Ok-at s t inv e = subst (Ok s.mutex t) e (inv.ok t)

pub IsQuiet-at : (s : System) (t : ℕ) {p : Pc} → s.pc t ≡ p → IsQuiet p → IsQuiet (s.pc t)
IsQuiet-at s t e q = subst IsQuiet (sym e) q

outside_holder :
    (m : Mutex) (t times : ℕ)
    → Ok m t (Pc.outside times)
    → m.holder ≡ some t
    → (m.mutex_lock ≢ some t)
      × (m.current_recursivity_depth ≡ times)
      × (is_in t m.waiting_list ≡ false)
      × (0 < times)
outside_holder m t zero (lock, away, absent) holds = absurd (away holds)
outside_holder m t (suc times) (lock, held, depth, absent) holds =
    (lock, depth, absent, omega arith)

holding :
    (m : Mutex) (t times : ℕ)
    → 0 < times
    → m.mutex_lock ≢ some t
    → m.holder ≡ some t
    → m.current_recursivity_depth ≡ times
    → is_in t m.waiting_list ≡ false
    → Ok m t (Pc.outside times)
holding m t zero some_times lock holds depth absent = absurd (omega arith)
holding m t (suc times) some_times lock holds depth absent = (lock, holds, depth, absent)

outside_other :
    (m : Mutex) (t times : ℕ) → Ok m t (Pc.outside times) → m.holder ≢ some t → HoldsNot m t
outside_other m t zero h away = h
outside_other m t (suc times) (lock, held, depth, absent) away = absurd (away held)

pub acquire_begin-keeps :
    (s s' : System) (t times : ℕ)
    → Inv s
    → s.pc t ≡ Pc.outside times
    → acquire_begin s t times ≡ moves s'
    → Inv s'
unfolding acquire_begin
acquire_begin-keeps s s' t times inv e run = elim (if-cases (is_thread s.mutex.holder t) run) [
  | inl (mine, k) ↦
      let holds = is_thread-true s.mutex.holder t mine in
      let (lock, depth, absent, some_times) =
        outside_holder s.mutex t times (Ok-at s t inv e) holds in
      elim (if-cases (ltb s.mutex.current_recursivity_depth s.mutex.max_recursivity_depth) k) [
        | inr (full, stop) ↦ cc
        | inl (room, go) ↦
            let below =
              ltb→lt s.mutex.current_recursivity_depth s.mutex.max_recursivity_depth room in
            let next : (s.mutex.current_recursivity_depth + 1) % 0x100 ≡ suc times =
              omega (arith, below, inv.bound, depth) in
            subst Inv (moves_inj go) (
              quiet_turn s t (Pc.outside (suc times))
                (record s.mutex {
                  current_recursivity_depth = (s.mutex.current_recursivity_depth + 1) % 0x100;
                })
                inv (IsQuiet-at s t e tt) tt
                (Others-depth s.mutex t ((s.mutex.current_recursivity_depth + 1) % 0x100) holds)
                (lock, holds, next, absent) (λ k. absurd (lock k)) inv.served inv.no_twice refl)
      ]
  | inr (other, k) ↦
      let away = is_thread-false s.mutex.holder t other in
      let own = outside_other s.mutex t times (Ok-at s t inv e) away in
      subst Inv (moves_inj k) (
        quiet_turn s t Pc.entering s.mutex inv (IsQuiet-at s t e tt) tt (Others-same s.mutex t) own
          (λ k. absurd (own.0 k)) inv.served inv.no_twice refl)
]

pub acquire_locked-keeps :
    (s s' : System) (t : ℕ) → Inv s → s.pc t ≡ Pc.entering → acquire_locked s t ≡ moves s' → Inv s'
unfolding acquire_locked
acquire_locked-keeps s s' t inv e run = elim (Option-cases s.mutex.mutex_lock) [
  | inr (u, taken) ↦ let stuck : waits ≡ moves s' = (rw taken at run) in cc
  | inl free ↦ elim (Option-cases s.mutex.holder) [
    | inl nobody ↦
        let (lock, away, absent) = Ok-at s t inv e in
        let m = record s.mutex {
          mutex_lock = some t;
          holder = some t;
          current_recursivity_depth = 1;
        } in
        let go : becomes s m t Pc.checking ≡ moves s' = (rw (free, nobody) at run) in
        subst Inv (moves_inj go) (
          quiet_turn s t Pc.checking m inv (IsQuiet-at s t e tt) tt
            (Others-taken s.mutex t free nobody) (refl, (λ k. cc), (λ k. refl), absent) (λ k. tt)
            (λ k. absurd cc) inv.no_twice refl)
    | inr (u, somebody) ↦
        let (lock, away, absent) = Ok-at s t inv e in
        let m = record s.mutex { mutex_lock = some t } in
        let go : becomes s m t Pc.checking ≡ moves s' = (rw (free, somebody) at run) in
        subst Inv (moves_inj go) (
          quiet_turn s t Pc.checking m inv (IsQuiet-at s t e tt) tt (Others-lock s.mutex t free)
            (refl, (λ k. cc), (λ k. absurd (away k)), absent) (λ k. tt) inv.served inv.no_twice
            refl)
  ]
]

pub acquire_round-keeps :
    (s s' : System) (t : ℕ) → Inv s → s.pc t ≡ Pc.checking → acquire_round s t ≡ moves s' → Inv s'
unfolding acquire_round
acquire_round-keeps s s' t inv e run =
    let (lock, somebody, once, absent) = Ok-at s t inv e in
    elim (if-cases (is_thread s.mutex.holder t) run) [
      | inl (mine, k) ↦
          let holds = is_thread-true s.mutex.holder t mine in
          subst Inv (moves_inj k) (
            quiet_turn s t (Pc.outside 1) (record s.mutex { mutex_lock = none }) inv
              (IsQuiet-at s t e tt) tt (Others-unlock s.mutex t lock)
              ((λ k. cc), holds, once holds, absent) (λ k. absurd cc) inv.served inv.no_twice refl)
      | inr (other, k) ↦
          let away = is_thread-false s.mutex.holder t other in
          let m = record s.mutex {
            mutex_lock = none;
            waiting_list = s.mutex.waiting_list ++ t ∷ [];
          } in
          let others = Others-queued s.mutex t lock in
          let not_still : IsStill (s.pc t) → ⊥ = λ h. subst IsStill e h in
          subst Inv (moves_inj k) (
            Inv-alone s t Pc.blocking m inv (record {
              frame = Others-Frame s.mutex m t others;
              own = ((λ k. cc), inl (away, is_in-append_self t s.mutex.waiting_list));
              lock_owner = λ k. absurd cc;
              lock_kept = others.lock_kept;
              was_not_waking = λ u k. cc;
              not_waking = λ u k. cc;
              stays_still = λ h. tt;
              was_still = λ h k. absurd (away k);
              holder_kept = others.holder_kept;
              served = λ k. absurd (somebody k);
              no_twice = NoTwice-append t s.mutex.waiting_list absent inv.no_twice;
              bound = refl;
            }))
    ]

pub thread_block-keeps :
    (s s' : System) (t : ℕ)
    → Inv s
    → s.pc t ≡ Pc.blocking
    → thread_block s t false ≡ moves s'
    → Inv s'
unfolding thread_block
thread_block-keeps s s' t inv e run =
    let own = Ok-at s t inv e in
    let others = Others-same s.mutex t in
    subst Inv (moves_inj run) (
      Inv-alone s t Pc.blocked s.mutex inv (record {
        frame = Others-Frame s.mutex s.mutex t others;
        own = own;
        lock_owner = λ k. absurd (own.0 k);
        lock_kept = others.lock_kept;
        was_not_waking = λ u k. cc;
        not_waking = λ u k. cc;
        stays_still = λ h. tt;
        was_still = λ h k. (subst IsStill (sym e) tt, k);
        holder_kept = others.holder_kept;
        served = inv.served;
        no_twice = inv.no_twice;
        bound = refl;
      }))

pub acquire_again-keeps :
    (s s' : System) (t : ℕ) → Inv s → s.pc t ≡ Pc.woken → acquire_again s t ≡ moves s' → Inv s'
unfolding acquire_again
acquire_again-keeps s s' t inv e run = elim (Option-cases s.mutex.mutex_lock) [
  | inr (u, taken) ↦ let stuck : waits ≡ moves s' = (rw taken at run) in cc
  | inl free ↦
      let (lock, holds, once, absent) = Ok-at s t inv e in
      let m = record s.mutex { mutex_lock = some t } in
      let go : becomes s m t Pc.checking ≡ moves s' = (rw free at run) in
      subst Inv (moves_inj go) (
        quiet_turn s t Pc.checking m inv (IsQuiet-at s t e tt) tt (Others-lock s.mutex t free)
          (refl, (λ k. cc), (λ k. once), absent) (λ k. tt) inv.served inv.no_twice refl)
]

pub release_begin-keeps :
    (s s' : System) (t times : ℕ)
    → Inv s
    → s.pc t ≡ Pc.outside times
    → release_begin s t times ≡ moves s'
    → Inv s'
unfolding release_begin
release_begin-keeps s s' t times inv e run = elim (if-cases (is_thread s.mutex.holder t) run) [
  | inr (other, k) ↦ cc
  | inl (mine, k) ↦
      let holds = is_thread-true s.mutex.holder t mine in
      let (lock, depth, absent, some_times) =
        outside_holder s.mutex t times (Ok-at s t inv e) holds in
      elim (if-cases (ltb 1 s.mutex.current_recursivity_depth) k) [
        | inl (deep, go) ↦
            let above = ltb→lt 1 s.mutex.current_recursivity_depth deep in
            subst Inv (moves_inj go) (
              quiet_turn s t (Pc.outside (times - 1))
                (record s.mutex {
                  current_recursivity_depth = s.mutex.current_recursivity_depth - 1;
                })
                inv (IsQuiet-at s t e tt) tt
                (Others-depth s.mutex t (s.mutex.current_recursivity_depth - 1) holds)
                (holding
                  (record s.mutex {
                    current_recursivity_depth = s.mutex.current_recursivity_depth - 1;
                  })
                  t (times - 1) (omega (arith, above, depth)) lock holds (ap (λ n. n - 1) depth)
                  absent)
                (λ k. absurd (lock k)) inv.served inv.no_twice refl)
        | inr (shallow, go) ↦
            let small : s.mutex.current_recursivity_depth ≡ 1 =
              omega
                (arith, ltb-false 1 s.mutex.current_recursivity_depth shallow, depth, some_times) in
            subst Inv (moves_inj go) (
              quiet_turn s t Pc.leaving s.mutex inv (IsQuiet-at s t e tt) tt (Others-same s.mutex t)
                (lock, holds, small, absent) (λ k. absurd (lock k)) inv.served inv.no_twice refl)
      ]
]
