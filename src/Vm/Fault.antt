-- ===== src/Vm/Fault.antt =====
-- What VmReservationCanAddressBeAccessed and VmReservationReturnRightsForAddress decide.
use hall.Prelude.{
  ℕ, ◌+◌, ◌-◌, ◌/◌, ◌≤◌, ◌<◌, ◌≡◌, ◌≢◌, refl, sym, ap, ◌∙◌, Bool, true, false, not, ◌&&◌, ◌||◌,
  Option, none, some, arith, leb, ◌==◌, le→leb, leb→le, ==-false, Option-cases, if-cases, ◌↔◌, inl,
  inr, if◌then◌else◌, ◌>>=◌, ◌>>◌, assert, some_inj, page_size, add64, sub64, u64_mod, align_lower,
  and_parts,
}
use hall.Bitmap.{is_boolean_flag_on}
use hall.Bitmap.Kept.{All-get_elem?}
use hall.Vm.{
  success, memory_is_not_commited, Reservation, ReservationSpace, check_bounds, find_loop,
  find_reservation, is_va_commited,
}
use hall.Vm.Live.{live_at-state}
use hall.Vm.Find.{First, contains, find_loop-First, First-find_loop}
use hall.Vm.Commit.{Described, Within, committed, is_va_commited_lem}
use hall.Vm.Invariant.{IsSound, Inv}
use hall.Vm.Access.{
  Access, access_reservation, can_address_be_accessed, all_commited, rights_of_reservation,
  return_rights_for_address,
}

-- What is stored for an access to an address of the reservation.
abbrev pub access_of : Reservation → ℕ → Access
access_of r address = record {
  memory_rights = r.page_rights;
  uncacheable = r.uncacheable;
  backing_file = r.backing_file;
  file_offset = if r.backing_file == 0 then 0 else align_lower (sub64 address r.start_va) page_size;
}

-- The page is committed and the rights are among those of the reservation.
abbrev pub grants : Reservation → ℕ → ℕ → Bool
grants r address rights = committed r address && is_boolean_flag_on r.page_rights rights

access_reservation-eq :
    (r : Reservation) (address rights : ℕ)
    → Described r
    → Within r address
    → access_reservation r address rights
      ≡ some (if grants r address rights then some (access_of r address) else none)
unfolding access_reservation
access_reservation-eq r address rights d w = rw (is_va_commited_lem r address d w) refl

nothing : {A : Type 0} {a : A} → none ≡ some a → ⊥
nothing h = cc

Bool-eta : (b : Bool) → elim b [ true ↦ some true | false ↦ some false ] ≡ some b
Bool-eta true = refl
Bool-eta false = refl

assert_either : {A : Type 0} (b : Bool) (m : Option A) → (assert (not b || true) >> m) ≡ m
assert_either true m = refl
assert_either false m = refl

-- The first byte of a range that an entry contains belongs to the entry.
range-Within :
    (r : Reservation) (address size : ℕ)
    → Described r
    → contains address size r ≡ true
    → 0 < size
    → address + size < u64_mod
    → Within r address
range-Within r address size d c nonempty below =
    let both =
      and_parts (leb r.start_va address) (leb (add64 address size) (add64 r.start_va r.size)) c in
    let up = leb→le (add64 address size) (add64 r.start_va r.size) both.1 in
    record {
      lower = leb→le r.start_va address both.0;
      upper = omega (arith, up, below, nonempty, d.above);
    }

module _ (space : ReservationSpace) (address rights : ℕ) (memory_access : Bool) (v : Inv space)
    (positive : address ≢ 0) (below : address + 1 < u64_mod)
    (outside : check_bounds address 1 space.list_address space.reserved_area_size ≡ false) where
  access-miss :
      find_loop space.reservation_list 0 address 1 ≡ none
      → can_address_be_accessed space address rights memory_access ≡ some none
  unfolding can_address_be_accessed find_reservation
  access-miss h = rw (==-false address 0 positive, outside, h) refl

  access-hit :
      (j : ℕ) (f : First space.reservation_list address 1 j)
      → can_address_be_accessed space address rights memory_access
        ≡ some (if grants f.entry address rights then some (access_of f.entry address) else none)
  unfolding can_address_be_accessed find_reservation
  access-hit j f =
      let sound = All-get_elem? IsSound space.reservation_list j v.sound f.place in
      let d = sound (live_at-state space.reservation_list j f.entry f.live) in
      let found : find_loop space.reservation_list 0 address 1 ≡ some j =
        First-find_loop space.reservation_list 0 address 1 j f ∙ ap some (omega arith) in
      rw (==-false address 0 positive, outside, found, f.place)
        (access_reservation-eq f.entry address rights d
          (range-Within f.entry address 1 d f.inside (omega arith) below))

  -- In a space with the invariant, the check of a page fault at an address outside of the
  -- metadata, which is not 0 and not the last one, returns. It grants the access exactly if the
  -- first reservation in use that contains the address has its page committed and covers the
  -- requested rights, and then stores what that reservation says.
  pub can_address_be_accessed_lem :
      (result : Option Access) × (can_address_be_accessed space address rights memory_access
        ≡ some result)
      × ((a : Access)
          → (result ≡ some a) ↔ (
              (j : ℕ) × (f : First space.reservation_list address 1 j) × (grants f.entry address
                  rights
                ≡ true)
              × (access_of f.entry address ≡ a)))
  can_address_be_accessed_lem = elim (Option-cases (find_loop space.reservation_list 0 address 1)) [
    | inl miss ↦ (
      none,
      access-miss miss,
      λ a. (
        λ h. cc,
        λ h.
            absurd
              (nothing (sym miss ∙ First-find_loop space.reservation_list 0 address 1 h.0 h.1)),
      ),
    )
    | inr (k, found) ↦
        let (j, e, f) = find_loop-First space.reservation_list 0 address 1 k found in
        (
          if grants f.entry address rights then some (access_of f.entry address) else none,
          access-hit j f,
          λ a. (
            λ h. elim (if-cases (grants f.entry address rights) h) [
              | inl (g, e) ↦ (j, f, g, some_inj e)
              | inr (g, e) ↦ absurd (nothing e)
            ],
            λ h.
                some_inj (sym (access-hit j f) ∙ access-hit h.0 h.1)
                ∙ ap (λ b. if b then some (access_of h.1.entry address) else none) h.2
                ∙ ap some h.3,
          ),
        )
  ]

all_commited-one :
    (r : Reservation) (address : ℕ)
    → Described r
    → Within r address
    → all_commited r address 0 1 ≡ some (committed r address)
unfolding all_commited
all_commited-one r address d w =
    let same : add64 address 0 ≡ address = omega (arith, w.upper, d.above) in
    ap (λ a. is_va_commited r a >>= λ c. elim c [ true ↦ some true | false ↦ some false ]) same
    ∙ ap (λ o. o >>= λ c. elim c [ true ↦ some true | false ↦ some false ])
        (is_va_commited_lem r address d w)
    ∙ Bool-eta (committed r address)

rights_of_reservation-page :
    (r : Reservation) (address size : ℕ)
    → Described r
    → Within r address
    → 0 < size
    → size ≤ page_size
    → rights_of_reservation r address size
      ≡ some (if committed r address then success else memory_is_not_commited, some r.page_rights)
unfolding rights_of_reservation
rights_of_reservation-page r address size d w nonempty small =
    let one : (size + page_size - 1) / page_size ≡ 1 = omega (arith, nonempty, small) in
    rw
      (
        one,
        all_commited-one r address d w,
        le→leb size (u64_mod - page_size) (omega (arith, small)),
      )
      (assert_either (committed r address) _)

-- In a space with the invariant, for a range of at least a byte and at most a page, which does not
-- start at 0 and ends below 2^64, VmReservationReturnRightsForAddress looks at the page of the
-- first byte only: it answers with success and the rights of the first reservation in use that contains the range
-- if that page is committed, though the range may end in the next page.
pub return_rights_first_page :
    (space : ReservationSpace) (address size j : ℕ)
    → Inv space
    → address ≢ 0
    → 0 < size
    → size ≤ page_size
    → address + size < u64_mod
    → (f : First space.reservation_list address size j)
    → return_rights_for_address space address size
      ≡ some (
        if committed f.entry address then success else memory_is_not_commited,
        some f.entry.page_rights,
      )
unfolding return_rights_for_address find_reservation
return_rights_first_page space address size j v positive nonempty small below f =
    let sound = All-get_elem? IsSound space.reservation_list j v.sound f.place in
    let d = sound (live_at-state space.reservation_list j f.entry f.live) in
    let found : find_loop space.reservation_list 0 address size ≡ some j =
      First-find_loop space.reservation_list 0 address size j f ∙ ap some (omega arith) in
    rw
      (
        ==-false address 0 positive,
        ==-false size 0 (λ e. omega (arith, e, nonempty)),
        found,
        f.place,
      )
      (rights_of_reservation-page f.entry address size d
        (range-Within f.entry address size d f.inside nonempty below) nonempty small)
