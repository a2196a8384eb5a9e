-- ===== src/Vm/Live.antt =====
-- The entries of a reservation list that are in use and stand before the last one.
use hall.Prelude.{
  ℕ, zero, suc, ◌≡◌, refl, sym, ap, get_elem?, ◌∙◌, Option, none, some, List, [], ◌∷◌, some_inj,
  subst, ◌⊎◌, inl, inr,
}
use hall.Vm.{ReservationState, free, used, last, Reservation}

-- The entry at an index, where it is in use and no entry before it is the last.
unfoldable pub live_at : List Reservation → ℕ → Option Reservation
live_at [] j = none
live_at (r ∷ entries) zero = elim r.state [ used ↦ some r | _ ↦ none ]
live_at (r ∷ entries) (suc j) = elim r.state [ last ↦ none | _ ↦ live_at entries j ]

pub nothing : {r : Reservation} → none ≡ some r → ⊥
nothing h = cc

pub two_states : free ≡ used → ⊥
two_states h = cc

pub State-cases : (s : ReservationState) → (s ≡ free) ⊎ ((s ≡ used) ⊎ (s ≡ last))
State-cases free = inl refl
State-cases used = inr (inl refl)
State-cases last = inr (inr refl)

-- The two ways to read an entry that is not the last.
pub live_at-next :
    (r : Reservation) (entries : List Reservation) (j : ℕ)
    → (r.state ≡ free) ⊎ (r.state ≡ used)
    → live_at (r ∷ entries) (suc j) ≡ live_at entries j
unfolding live_at
live_at-next r entries j (inl h) = rw h refl
live_at-next r entries j (inr h) = rw h refl

pub live_at-used :
    (r : Reservation) (entries : List Reservation)
    → r.state ≡ used
    → live_at (r ∷ entries) 0 ≡ some r
unfolding live_at
live_at-used r entries h = simp h refl

pub live_at-first :
    (r e : Reservation) (entries : List Reservation)
    → live_at (e ∷ entries) 0 ≡ some r
    → (e.state ≡ used) × (e ≡ r)
unfolding live_at
live_at-first r e entries l = elim (State-cases e.state) [
  | inl h ↦ absurd (nothing (sym (rw h refl) ∙ l))
  | inr (inl h) ↦ (h, some_inj (sym (live_at-used e entries h) ∙ l))
  | inr (inr h) ↦ absurd (nothing (sym (rw h refl) ∙ l))
]

pub live_at-last :
    (r : Reservation) (entries : List Reservation) (j : ℕ)
    → r.state ≡ last
    → live_at (r ∷ entries) (suc j) ≡ none
unfolding live_at
live_at-last r entries j h = rw h refl

pub live_at-later :
    (r e : Reservation) (entries : List Reservation) (j : ℕ)
    → live_at (e ∷ entries) (suc j) ≡ some r
    → ((e.state ≡ free) ⊎ (e.state ≡ used)) × (live_at entries j ≡ some r)
live_at-later r e entries j l = elim (State-cases e.state) [
  | inl h ↦ (inl h, sym (live_at-next e entries j (inl h)) ∙ l)
  | inr (inl h) ↦ (inr h, sym (live_at-next e entries j (inr h)) ∙ l)
  | inr (inr h) ↦ absurd (nothing (sym (live_at-last e entries j h) ∙ l))
]

pub live_at-state :
    (entries : List Reservation) (j : ℕ) (r : Reservation)
    → live_at entries j ≡ some r
    → r.state ≡ used
unfolding live_at
live_at-state [] j r h = absurd (nothing h)
live_at-state (e ∷ entries) zero r h =
    let here = live_at-first r e entries h in subst (λ x. x.state ≡ used) here.1 here.0
live_at-state (e ∷ entries) (suc j) r h =
    live_at-state entries j r (live_at-later r e entries j h).1

pub live_at-place :
    (entries : List Reservation) (j : ℕ) (r : Reservation)
    → live_at entries j ≡ some r
    → get_elem? entries j ≡ some r
unfolding live_at
live_at-place [] j r h = absurd (nothing h)
live_at-place (e ∷ entries) zero r h = ap some (live_at-first r e entries h).1
live_at-place (e ∷ entries) (suc j) r h =
    live_at-place entries j r (live_at-later r e entries j h).1
