-- ===== src/Vm/Slot.antt =====
-- The slot that _VmFindFirstFreeReservation gives a new reservation.
use hall.Prelude.{
  ℕ, zero, suc, ◌+◌, ◌≡◌, ◌≢◌, refl, sym, ap, ◌∙◌, subst, none, some, List, [], ◌∷◌, arith, ◌⊎◌,
  inl, inr, some_inj, set,
}
use hall.Vm.{free, used, last, Reservation, mark_last, first_free_loop}
use hall.Vm.Live.{live_at, live_at-next, live_at-last, live_at-used}
use hall.Vm.Invariant.{first_free_loop-round}

-- Entry `k` of `after` is free for a new reservation: nothing was live there, and filling it makes the
-- new reservation live and changes no other.
pub record Slot (entries after : List Reservation) (k : ℕ) : Type 0 where
  pub empty : live_at entries k ≡ none
  pub filled : (e : Reservation) → e.state ≡ used → live_at (set after k e) k ≡ some e
  pub others :
      (e : Reservation)
      → e.state ≡ used
      → (m : ℕ) → m ≢ k
      → live_at (set after k e) m ≡ live_at entries m

live_at-marked :
    (entries : List Reservation) {marked : List Reservation}
    → mark_last entries ≡ some marked
    → (m : ℕ) → live_at marked m ≡ none
unfolding live_at
live_at-marked [] h m = cc
live_at-marked (r ∷ entries) h zero = subst (λ xs. live_at xs 0 ≡ none) (some_inj h) refl
live_at-marked (r ∷ entries) h (suc m) = subst (λ xs. live_at xs (suc m) ≡ none) (some_inj h) refl

live_at-unused :
    (r : Reservation) (entries : List Reservation)
    → (r.state ≡ free) ⊎ (r.state ≡ last)
    → live_at (r ∷ entries) 0 ≡ none
unfolding live_at
live_at-unused r entries (inl h) = rw h refl
live_at-unused r entries (inr h) = rw h refl

Slot-free :
    (r : Reservation) (entries : List Reservation)
    → r.state ≡ free
    → Slot (r ∷ entries) (r ∷ entries) 0
Slot-free r entries h = record {
  empty = live_at-unused r entries (inl h);
  filled = λ e u. live_at-used e entries u;
  others = λ e u m.
      elim m as (λ x. x ≢ 0 → live_at (set (r ∷ entries) 0 e) x ≡ live_at (r ∷ entries) x) [
        | zero ↦ λ n. absurd (n refl)
        | suc m' ↦ λ n. live_at-next e entries m' (inr u) ∙ sym (live_at-next r entries m' (inl h))
      ];
}

Slot-last :
    (r r' : Reservation) (entries marked : List Reservation)
    → r.state ≡ last
    → mark_last entries ≡ some marked
    → Slot (r ∷ entries) (r' ∷ marked) 0
Slot-last r r' entries marked h run = record {
  empty = live_at-unused r entries (inr h);
  filled = λ e u. live_at-used e marked u;
  others = λ e u m.
      elim m as (λ x. x ≢ 0 → live_at (set (r' ∷ marked) 0 e) x ≡ live_at (r ∷ entries) x) [
        | zero ↦ λ n. absurd (n refl)
        | suc m' ↦ λ n.
            live_at-next e marked m' (inr u)
            ∙ live_at-marked entries run m'
            ∙ sym (live_at-last r entries m' h)
      ];
}

Slot-used :
    (r : Reservation) (entries rest : List Reservation) (k : ℕ)
    → r.state ≡ used
    → Slot entries rest k
    → Slot (r ∷ entries) (r ∷ rest) (suc k)
Slot-used r entries rest k h s = record {
  empty = live_at-next r entries k (inr h) ∙ s.empty;
  filled = λ e u. live_at-next r (set rest k e) k (inr h) ∙ s.filled e u;
  others = λ e u m.
      elim m as (λ x. x ≢ suc k → live_at (set (r ∷ rest) (suc k) e) x ≡ live_at (r ∷ entries) x) [
        | zero ↦ λ n. live_at-used r (set rest k e) h ∙ sym (live_at-used r entries h)
        | suc m' ↦ λ n.
            live_at-next r (set rest k e) m' (inr h)
            ∙ s.others e u m' (λ x. n (ap suc x))
            ∙ sym (live_at-next r entries m' (inr h))
      ];
}

pub first_free_loop-Slot :
    (entries after : List Reservation) (i n : ℕ)
    → first_free_loop entries i ≡ some (some (n, after))
    → (k : ℕ) × (n ≡ i + k) × Slot entries after k
unfolding first_free_loop
first_free_loop-Slot [] after i n h = cc
first_free_loop-Slot (r ∷ entries) after i n h =
    elim (first_free_loop-round r.state r entries after i n (first_free_loop entries (i + 1)) h) [
      | inl (state, e, place) ↦ (
        0,
        omega (arith, place),
        subst (λ xs. Slot (r ∷ entries) xs 0) (sym e) (Slot-free r entries state),
      )
      | inr (inl (state, marked, run, e, place)) ↦ (
        0,
        omega (arith, place),
        subst (λ xs. Slot (r ∷ entries) xs 0) (sym e)
            (Slot-last r (record r { state = free }) entries marked state run),
      )
      | inr (inr (state, rest, run, e)) ↦
          let (k, place, slot) = first_free_loop-Slot entries rest (i + 1) n run in
          (
            suc k,
            omega (arith, place),
            subst (λ xs. Slot (r ∷ entries) xs (suc k)) (sym e)
                (Slot-used r entries rest k state slot),
          )
    ]
