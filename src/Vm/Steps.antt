-- ===== src/Vm/Steps.antt =====
-- The operations of a reservation space keep its invariant.
use hall.Prelude.{
  ℕ, ◌+◌, ◌<◌, ◌≡◌, ◌∙◌, subst, Bool, true, not, ◌&&◌, Option, none, some, List, ◌==◌, bool_eq,
  if-either, inl, inr, if◌then◌else◌, assert-then, >>=-eq-some, some_inj, page_size, u64_mod,
  is_address_aligned, All, All-set, get_elem?, set,
}
use hall.Bitmap.{is_boolean_flag_on}
use hall.Bitmap.Bits.{IsByte}
use hall.Bitmap.Kept.{All-get_elem?}
use hall.Vm.{
  Status, success, Reservation, ReservationSpace, change_committed, find_reservation,
  first_free_loop, find_first_free_reservation, initialize_reservation, vmm_alloc_type_reserve,
  vmm_alloc_type_commit,
}
use hall.Vm.Invariant.{
  IsSound, Inv, first_free_loop-IsSound, initialize_reservation-Inv, change_committed-Described,
  change_committed-state,
}
use hall.Vm.Region.{
  reserve_va, commit_va, change_found, change_va_reservation_state, alloc_aligned, AllocResult,
  succeeded,
}

-- An entry changed by a commit or a decommit leaves the list sound.
pub changed-Inv :
    (space : ReservationSpace) (index address size : ℕ) (on : Bool) (r r' : Reservation)
    → Inv space
    → get_elem? space.reservation_list index ≡ some r
    → change_committed address size r on ≡ some r'
    → Inv (record space { reservation_list = set space.reservation_list index r' })
changed-Inv space index address size on r r' v got run = record {
  sound = All-set IsSound space.reservation_list index r' v.sound (λ u.
      change_committed-Described r address size on
        (All-get_elem? IsSound space.reservation_list index v.sound got
          (change_committed-state r address size on run ∙ u))
        run);
  aligned = v.aligned;
}

slot-Inv :
    (space : ReservationSpace) (found : Option (ℕ × List Reservation)) (f : ℕ × ReservationSpace)
    → Inv space
    → first_free_loop space.reservation_list 0 ≡ some found
    → elim found [ none ↦ none | some g ↦ some (g.0, record space { reservation_list = g.1 }) ]
      ≡ some f
    → Inv f.1
slot-Inv space none f v run h = cc
slot-Inv space (some g) f v run h =
    subst (λ p. Inv p.1) (some_inj h)
      (record {
        sound = first_free_loop-IsSound space.reservation_list g.1 0 g.0 v.sound run;
        aligned = v.aligned;
      })

reserve_va-Inv :
    (space : ReservationSpace) (address size rights : ℕ) (uncacheable : Bool) (file : ℕ)
    (memory : List ℕ) {result : Status × ReservationSpace}
    → Inv space
    → All IsByte memory
    → address + size < u64_mod
    → reserve_va space address size rights uncacheable file memory ≡ some result
    → Inv result.1
unfolding reserve_va find_first_free_reservation
reserve_va-Inv space address size rights uncacheable file memory v valid above h =
    let (slot, search, h1) = >>=-eq-some (find_first_free_reservation space) _ h in
    let (f, chosen, h2) = >>=-eq-some slot _ h1 in
    let (after, made, h3) =
      >>=-eq-some (initialize_reservation f.1 address size rights uncacheable file f.0 memory) _
        h2 in
    let (found, run, h4) = >>=-eq-some (first_free_loop space.reservation_list 0) _ search in
    let v' = slot-Inv space found f v run (some_inj h4 ∙ chosen) in
    subst (λ p. Inv p.1) (some_inj h3)
      (initialize_reservation-Inv f.1 address size rights uncacheable file f.0 memory v' valid above
        made)

commit_va-Inv :
    (space : ReservationSpace) (address size rights : ℕ) (uncacheable : Bool) (index : ℕ)
    {result : Status × ReservationSpace}
    → Inv space
    → commit_va space address size rights uncacheable index ≡ some result
    → Inv result.1
unfolding commit_va
commit_va-Inv space address size rights uncacheable index v h =
    let (r, got, h1) = >>=-eq-some (get_elem? space.reservation_list index) _ h in
    elim (if-either (not (r.page_rights == rights)) h1) [
      | inl e ↦ subst (λ p. Inv p.1) (some_inj e) v
      | inr h2 ↦ elim (if-either (not (bool_eq r.uncacheable uncacheable)) h2) [
        | inl e ↦ subst (λ p. Inv p.1) (some_inj e) v
        | inr h3 ↦
            let (r', run, e) = >>=-eq-some (change_committed address size r true) _ h3 in
            subst (λ p. Inv p.1) (some_inj e)
              (changed-Inv space index address size true r r' v got run)
      ]
    ]

-- The arguments with which an allocation changes the list.
module _ (address size rights : ℕ) (uncacheable : Bool) (file : ℕ) (memory : List ℕ)
    (valid : All IsByte memory) (above : address + size < u64_mod) where
  found-Inv :
      (space : ReservationSpace) (type : ℕ) (found : Option ℕ) {result : Status × ReservationSpace}
      → Inv space
      → change_found space address size type rights uncacheable file memory found ≡ some result
      → Inv result.1
  unfolding change_found
  found-Inv space type none v h = elim (if-either (type == vmm_alloc_type_reserve) h) [
    | inl e ↦ reserve_va-Inv space address size rights uncacheable file memory v valid above e
    | inr e ↦ subst (λ p. Inv p.1) (some_inj e) v
  ]
  found-Inv space type (some index) v h = elim (if-either (type == vmm_alloc_type_reserve) h) [
    | inl e ↦ subst (λ p. Inv p.1) (some_inj e) v
    | inr e ↦ commit_va-Inv space address size rights uncacheable index v e
  ]

  change-Inv :
      (space : ReservationSpace) (type : ℕ) {result : Status × ReservationSpace}
      → Inv space
      → change_va_reservation_state space address size type rights uncacheable file memory
        ≡ some result
      → Inv result.1
  unfolding change_va_reservation_state
  change-Inv space type v h =
      let (a1, h1) = assert-then (not (address == 0)) _ h in
      let (a2, h2) = assert-then (not (size == 0)) _ h1 in
      let (a3, h3) =
        assert-then (not (bool_eq (type == vmm_alloc_type_reserve) (type == vmm_alloc_type_commit)))
          _ h2 in
      let (a4, h4) = assert-then (is_address_aligned address page_size) _ h3 in
      let (a5, h5) = assert-then (is_address_aligned size page_size) _ h4 in
      let (found, run, h6) = >>=-eq-some (find_reservation space address size) _ h5 in
      found-Inv space type found v h6

  -- Either step of an allocation, which may be left out.
  step-Inv :
      (b : Bool) (type : ℕ) (status : Status) (space : ReservationSpace)
      {result : Status × ReservationSpace}
      → Inv space
      → (if b
          then change_va_reservation_state space address size type rights uncacheable file memory
          else some (status, space))
        ≡ some result
      → Inv result.1
  step-Inv b type status space v h = elim (if-either b h) [
    | inl e ↦ change-Inv space type v e
    | inr e ↦ subst (λ p. Inv p.1) (some_inj e) v
  ]

  pub alloc_aligned-Inv :
      (space : ReservationSpace) (type : ℕ) {result : AllocResult}
      → Inv space
      → alloc_aligned space address size type rights uncacheable file memory ≡ some result
      → Inv result.space
  unfolding alloc_aligned
  alloc_aligned-Inv space type v h =
      let (reserved, run, h1) =
        >>=-eq-some
          (if is_boolean_flag_on type vmm_alloc_type_reserve
            then change_va_reservation_state space address size vmm_alloc_type_reserve rights
                uncacheable file memory
            else some (success, space))
          _ h in
      let (committed, run', h2) =
        >>=-eq-some
          (if succeeded reserved.0 && is_boolean_flag_on type vmm_alloc_type_commit
            then change_va_reservation_state reserved.1 address size vmm_alloc_type_commit rights
                uncacheable file memory
            else some reserved)
          _ h1 in
      let v1 =
        step-Inv (is_boolean_flag_on type vmm_alloc_type_reserve) vmm_alloc_type_reserve success
          space v run in
      subst (λ r. Inv r.space) (some_inj h2)
        (step-Inv (succeeded reserved.0 && is_boolean_flag_on type vmm_alloc_type_commit)
          vmm_alloc_type_commit reserved.0 reserved.1 v1 run')
