-- ===== src/Vm/Find.antt =====
-- Which entry _VmFindReservation finds.
use hall.Prelude.{
  ℕ, zero, suc, ◌+◌, ◌<◌, ◌≡◌, refl, sym, ap, ◌∙◌, Bool, true, false, none, some, List, [], ◌∷◌,
  arith, get_elem?, subst, ◌⊎◌, inl, inr,
}
use hall.Vm.{ReservationState, free, used, Reservation, check_bounds, find_loop}
use hall.Vm.Live.{
  live_at, nothing, two_states, live_at-next, live_at-used, live_at-first, live_at-later,
}

abbrev pub contains : ℕ → ℕ → Reservation → Bool
contains address size r = check_bounds address size r.start_va r.size

-- Entry `j` is the first live one that contains the range.
pub record First (entries : List Reservation) (address size j : ℕ) : Type 0 where
  pub entry : Reservation
  pub live : live_at entries j ≡ some entry
  pub place : get_elem? entries j ≡ some entry
  pub inside : contains address size entry ≡ true
  pub earliest :
      (m : ℕ) (r : Reservation)
      → m < j
      → live_at entries m ≡ some r
      → contains address size r ≡ false

find_loop-miss :
    (r : Reservation) (entries : List Reservation) (i address size : ℕ)
    → find_loop (r ∷ entries) i address size ≡ none
    → ((r.state ≡ used) → contains address size r ≡ false)
      × (((r.state ≡ free) ⊎ (r.state ≡ used)) → find_loop entries (i + 1) address size ≡ none)
unfolding find_loop
find_loop-miss r entries i address size h = (λ u. ground arith, λ u. ground arith)

find_loop-skip :
    (r : Reservation) (entries : List Reservation) (i address size k : ℕ)
    → find_loop (r ∷ entries) i address size ≡ some k
    → ((k ≡ i) × (r.state ≡ used) × (contains address size r ≡ true))
      ⊎ ((find_loop entries (i + 1) address size ≡ some k)
          × ((r.state ≡ free) ⊎ ((r.state ≡ used) × (contains address size r ≡ false))))
unfolding find_loop
find_loop-skip r entries i address size k h = ground arith

First-here :
    (r : Reservation) (entries : List Reservation) (address size : ℕ)
    → r.state ≡ used
    → contains address size r ≡ true
    → First (r ∷ entries) address size 0
unfolding live_at
First-here r entries address size u c = record {
  entry = r;
  live = live_at-used r entries u;
  place = refl;
  inside = c;
  earliest = λ m r' h. absurd (omega (arith, h));
}

not_last :
    (s : ReservationState) (b : Bool)
    → (s ≡ free) ⊎ ((s ≡ used) × (b ≡ false))
    → (s ≡ free) ⊎ (s ≡ used)
not_last s b (inl h) = inl h
not_last s b (inr h) = inr h.0

-- Behind an entry that does not contain the range, none before entry `j` contains it.
earliest-later :
    (r : Reservation) (entries : List Reservation) (address size j : ℕ)
    → (r.state ≡ free) ⊎ ((r.state ≡ used) × (contains address size r ≡ false))
    → First entries address size j
    → (m : ℕ) (r' : Reservation) → m < suc j
    → live_at (r ∷ entries) m ≡ some r'
    → contains address size r' ≡ false
earliest-later r entries address size j h f zero r' k l =
    let here = live_at-first r' r entries l in
    subst (λ x. contains address size x ≡ false) here.1
      (elim h [ inl e ↦ absurd (two_states (sym e ∙ here.0)) | inr e ↦ e.1 ])
earliest-later r entries address size j h f (suc m) r' k l =
    f.earliest m r' (omega (arith, k)) (live_at-later r' r entries m l).1

First-later :
    (r : Reservation) (entries : List Reservation) (address size j : ℕ)
    → (r.state ≡ free) ⊎ ((r.state ≡ used) × (contains address size r ≡ false))
    → First entries address size j
    → First (r ∷ entries) address size (suc j)
unfolding live_at
First-later r entries address size j h f = record {
  entry = f.entry;
  live = live_at-next r entries j (not_last r.state (contains address size r) h) ∙ f.live;
  place = f.place;
  inside = f.inside;
  earliest = earliest-later r entries address size j h f;
}

-- The loop finds the first live entry that contains the range.
pub find_loop-First :
    (entries : List Reservation) (i address size k : ℕ)
    → find_loop entries i address size ≡ some k
    → (j : ℕ) × (k ≡ i + j) × First entries address size j
unfolding find_loop
find_loop-First [] i address size k h = cc
find_loop-First (r ∷ entries) i address size k h =
    elim (find_loop-skip r entries i address size k h) [
      | inl here ↦ (0, omega (arith, here.0), First-here r entries address size here.1 here.2)
      | inr later ↦
          let rest = find_loop-First entries (i + 1) address size k later.0 in
          (
            suc rest.0,
            omega (arith, rest.1),
            First-later r entries address size rest.0 later.1 rest.2,
          )
    ]

-- It finds nothing only where no live entry contains the range.
pub find_loop-none :
    (entries : List Reservation) (i address size : ℕ)
    → find_loop entries i address size ≡ none
    → (j : ℕ) (r : Reservation) → live_at entries j ≡ some r
    → contains address size r ≡ false
unfolding find_loop live_at
find_loop-none [] i address size h j r l = cc
find_loop-none (e ∷ entries) i address size h zero r l =
    let here = live_at-first r e entries l in
    subst (λ x. contains address size x ≡ false) here.1
      ((find_loop-miss e entries i address size h).0 here.0)
find_loop-none (e ∷ entries) i address size h (suc j) r l =
    let later = live_at-later r e entries j l in
    find_loop-none entries (i + 1) address size
      ((find_loop-miss e entries i address size h).1 later.0) j r later.1

find_loop-live :
    (r : Reservation) (entries : List Reservation) (i address size : ℕ)
    → r.state ≡ used
    → contains address size r ≡ true
    → find_loop (r ∷ entries) i address size ≡ some i
unfolding find_loop
find_loop-live r entries i address size u c = rw (u, c) refl

find_loop-next :
    (r : Reservation) (entries : List Reservation) (i address size : ℕ)
    → (r.state ≡ free) ⊎ ((r.state ≡ used) × (contains address size r ≡ false))
    → find_loop (r ∷ entries) i address size ≡ find_loop entries (i + 1) address size
unfolding find_loop
find_loop-next r entries i address size (inl h) = rw h refl
find_loop-next r entries i address size (inr h) = rw (h.0, h.1) refl

First-tail :
    (e : Reservation) (entries : List Reservation) (address size j : ℕ)
    → First (e ∷ entries) address size (suc j)
    → ((e.state ≡ free) ⊎ ((e.state ≡ used) × (contains address size e ≡ false)))
      × First entries address size j
First-tail e entries address size j f =
    let (state, live) = live_at-later f.entry e entries j f.live in
    (
      elim state [
        | inl h ↦ inl h
        | inr h ↦ inr (h, f.earliest 0 e (omega arith) (live_at-used e entries h))
      ],
      record {
        entry = f.entry;
        live = live;
        place = f.place;
        inside = f.inside;
        earliest =
            λ m r k l. f.earliest (suc m) r (omega (arith, k)) (live_at-next e entries m state ∙ l);
      },
    )

-- The loop finds every entry that is the first live one to contain the range.
pub First-find_loop :
    (entries : List Reservation) (i address size j : ℕ)
    → First entries address size j
    → find_loop entries i address size ≡ some (i + j)
unfolding live_at
First-find_loop [] i address size j f = absurd (nothing f.live)
First-find_loop (e ∷ entries) i address size zero f =
    let here = live_at-first f.entry e entries f.live in
    find_loop-live e entries i address size here.0
      (subst (λ r. contains address size r ≡ true) (sym here.1) f.inside)
    ∙ ap some (omega arith)
First-find_loop (e ∷ entries) i address size (suc j) f =
    let (state, rest) = First-tail e entries address size j f in
    find_loop-next e entries i address size state
    ∙ First-find_loop entries (i + 1) address size j rest
    ∙ ap some (omega arith)
