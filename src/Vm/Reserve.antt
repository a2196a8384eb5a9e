-- ===== src/Vm/Reserve.antt =====
-- When _VmChangeVaReservationState refuses to reserve a range.
use hall.Prelude.{
  ℕ, ◌+◌, ◌≤◌, ◌<◌, true, false, arith, leb, le→leb, leb→le, and_parts, add64, u64_mod, get_elem?,
  ◌%◌, ◌≡◌, ◌≢◌, refl, sym, ap, ◌∙◌, Bool, Option, some, List, ==-false, ==_iff, ◌↔◌, inl, inr,
  >>=-eq-some, some_inj, page_size, Option-cases,
}
use hall.Vm.{
  Status, Reservation, success, memory_already_reserved, ReservationSpace, find_loop,
  find_reservation, find_first_free_reservation, initialize_reservation, vmm_alloc_type_reserve,
}
use hall.Bitmap.Kept.{All-get_elem?}
use hall.Vm.Live.{live_at, live_at-state, live_at-place}
use hall.Vm.Invariant.{IsSound, Inv}
use hall.Vm.Find.{contains, find_loop-First, find_loop-none}
use hall.Vm.Region.{reserve_va, change_found, change_va_reservation_state}

two_statuses : success ≡ memory_already_reserved → ⊥
two_statuses h = cc

reserve_va-status :
    (space : ReservationSpace) (address size rights : ℕ) (uncacheable : Bool) (file : ℕ)
    (memory : List ℕ) {result : Status × ReservationSpace}
    → reserve_va space address size rights uncacheable file memory ≡ some result
    → success ≡ result.0
unfolding reserve_va
reserve_va-status space address size rights uncacheable file memory h =
    let (slot, search, h1) = >>=-eq-some (find_first_free_reservation space) _ h in
    let (f, chosen, h2) = >>=-eq-some slot _ h1 in
    let (after, made, h3) =
      >>=-eq-some (initialize_reservation f.1 address size rights uncacheable file f.0 memory) _
        h2 in
    ap (λ p. p.0) (some_inj h3)

two_bools : false ≡ true → ⊥
two_bools h = cc

-- CHECK_BOUNDS where neither end wraps
contains-range :
    (r : Reservation) (address size : ℕ)
    → r.start_va + r.size < u64_mod
    → address + size < u64_mod
    → contains address size r ≡ true
    → (r.start_va ≤ address) × (address + size ≤ r.start_va + r.size)
contains-range r address size above below c =
    let both =
      and_parts (leb r.start_va address) (leb (add64 address size) (add64 r.start_va r.size)) c in
    let up = leb→le (add64 address size) (add64 r.start_va r.size) both.1 in
    (leb→le r.start_va address both.0, omega (arith, up, below, above))

range-contains :
    (r : Reservation) (address size : ℕ)
    → r.start_va + r.size < u64_mod
    → address + size < u64_mod
    → r.start_va ≤ address
    → address + size ≤ r.start_va + r.size
    → contains address size r ≡ true
range-contains r address size above below lower upper =
    rw
      (
        le→leb r.start_va address lower,
        le→leb (add64 address size) (add64 r.start_va r.size) (omega (arith, upper, below, above)),
      )
      refl

module _ (space : ReservationSpace) (address size rights : ℕ) (uncacheable : Bool) (file : ℕ)
    (memory : List ℕ) (positive : address ≢ 0) (nonempty : size ≢ 0)
    (on_page : address % page_size ≡ 0) (pages : size % page_size ≡ 0) (v : Inv space)
    (below : address + size < u64_mod) where
  live-above :
      (j : ℕ) (r : Reservation)
      → live_at space.reservation_list j ≡ some r
      → get_elem? space.reservation_list j ≡ some r
      → r.start_va + r.size < u64_mod
  live-above j r live place =
      (All-get_elem? IsSound space.reservation_list j v.sound place
        (live_at-state space.reservation_list j r live)).above

  reserve-found :
      {found : Option ℕ}
      → find_loop space.reservation_list 0 address size ≡ found
      → change_va_reservation_state space address size vmm_alloc_type_reserve rights uncacheable
          file memory
        ≡ change_found space address size vmm_alloc_type_reserve rights uncacheable file memory
            found
  unfolding change_va_reservation_state find_reservation
  reserve-found h =
      rw
        (
          ==-false address 0 positive,
          ==-false size 0 nonempty,
          (==_iff (address % page_size) 0).1 on_page,
          (==_iff (size % page_size) 0).1 pages,
          h,
        )
        refl

  -- In a space with the invariant, reserving whole pages, at least one, at an address other than 0,
  -- that end below 2^64, is refused as already reserved, and leaves the space as it was, exactly if
  -- one reservation in use contains all of the range: a range that only overlaps a reservation is
  -- not refused.
  pub reserve_refused_iff :
      (change_va_reservation_state space address size vmm_alloc_type_reserve rights uncacheable file
          memory
        ≡ some (memory_already_reserved, space))
      ↔ ((j : ℕ) × (r : Reservation) × (live_at space.reservation_list j ≡ some r)
          × (r.start_va ≤ address)
          × (address + size ≤ r.start_va + r.size))
  unfolding change_found
  reserve_refused_iff = (
    λ h. elim (Option-cases (find_loop space.reservation_list 0 address size)) [
      | inl miss ↦ absurd (
          two_statuses (
            reserve_va-status space address size rights uncacheable file memory
              (sym (reserve-found miss) ∙ h)))
      | inr (k, found) ↦
          let (j, e, f) = find_loop-First space.reservation_list 0 address size k found in
          let (lower, upper) =
            contains-range f.entry address size (live-above j f.entry f.live f.place) below
              f.inside in
          (j, f.entry, f.live, lower, upper)
    ],
    λ (j, r, live, lower, upper).
        elim (Option-cases (find_loop space.reservation_list 0 address size)) [
          | inl miss ↦ absurd (
              two_bools (
                sym (find_loop-none space.reservation_list 0 address size miss j r live)
                ∙ range-contains r address size (live-above j r live (live_at-place _ j r live))
                    below lower upper))
          | inr (k, found) ↦ reserve-found found
        ],
  )
