-- ===== src/Vm/Preserve.antt =====
-- Allocating and freeing regions keeps the invariant of a reservation space.
use hall.Prelude.{
  ℕ, ◌+◌, ◌<◌, ◌≡◌, subst, Bool, false, not, ◌&&◌, ◌||◌, some, List, arith, ltb, ◌==◌, bool_eq,
  bit_and, if-either, if-cases, inl, inr, if◌then◌else◌, assert-then, >>=-eq-some, some_inj,
  page_size, add64, sub64, u64_mod, All, All-set, get_elem?, align_upper, align_lower,
}
use hall.Bitmap.{is_boolean_flag_on}
use hall.Bitmap.Bits.{IsByte}
use hall.Vm.{
  ReservationSpace, change_committed, find_reservation, vmm_alloc_type_reserve,
  vmm_alloc_type_commit, vmm_free_type_decommit, vmm_free_type_release,
}
use hall.Vm.Live.{two_states}
use hall.Vm.Invariant.{IsSound, Inv}
use hall.Vm.Region.{
  alloc_region, alloc_given, alloc_generated, AllocResult, FreeResult, free_region, release_entry,
  decommit_entry, uninitialize_reservation, zeroed_reservation, determine_next_free_virtual_address,
}
use hall.Vm.Steps.{changed-Inv, alloc_aligned-Inv}

module _ (space : ReservationSpace) (type rights : ℕ) (uncacheable : Bool) (file : ℕ)
    (memory : List ℕ) (result : AllocResult) (v : Inv space) (valid : All IsByte memory) where
  alloc_generated-Inv :
      (size : ℕ)
      → space.free_virtual_address_pointer + size + page_size < u64_mod
      → alloc_generated space size type rights uncacheable file memory ≡ some result
      → Inv result.space
  unfolding alloc_generated determine_next_free_virtual_address
  alloc_generated-Inv size above h =
      alloc_aligned-Inv space.free_virtual_address_pointer (align_upper size page_size) rights
        uncacheable file memory valid (omega (arith, above))
        (record space {
          free_virtual_address_pointer =
              add64 space.free_virtual_address_pointer (align_upper size page_size);
        })
        type (record { sound = v.sound; aligned = v.aligned }) h

  alloc_given-Inv :
      (base size : ℕ)
      → base + size + page_size < u64_mod
      → alloc_given space base size type rights uncacheable file memory ≡ some result
      → Inv result.space
  unfolding alloc_given
  alloc_given-Inv base size above h =
      let aligned_base = align_lower base page_size in
      let aligned_size = align_upper (add64 size (sub64 base aligned_base)) page_size in
      elim (if-either (ltb aligned_base space.start_of_virtual_address_space) h) [
        | inl e ↦ subst (λ r. Inv r.space) (some_inj e) v
        | inr e ↦
            alloc_aligned-Inv aligned_base aligned_size rights uncacheable file memory valid
              (omega (arith, above)) space type v e
      ]

  -- VmReservationSpaceAllocRegion keeps the invariant of a space, whatever status it returns, if
  -- the region and one page more end below 2^64 and the memory given to the commit bitmap holds
  -- bytes.
  pub alloc_region-Inv :
      (base size : ℕ)
      → (if base == 0 then space.free_virtual_address_pointer else base) + size + page_size
        < u64_mod
      → alloc_region space base size type rights uncacheable file memory ≡ some result
      → Inv result.space
  unfolding alloc_region
  alloc_region-Inv base size above h =
      let (a1, h1) = assert-then (not (size == 0)) _ h in
      let (a2, h2) =
        assert-then (not (bit_and type (vmm_alloc_type_commit + vmm_alloc_type_reserve) == 0)) _
          h1 in
      elim (if-cases (base == 0) h2) [
        | inl (e, h3) ↦
            alloc_generated-Inv size
              (subst
                (λ b.
                  (if b then space.free_virtual_address_pointer else base) + size + page_size
                  < u64_mod)
                e above)
              h3
        | inr (e, h3) ↦
            alloc_given-Inv base size
              (subst
                (λ b.
                  (if b then space.free_virtual_address_pointer else base) + size + page_size
                  < u64_mod)
                e above)
              h3
      ]

-- VmReservationSpaceFreeRegion, where it returns, keeps the invariant of a space, on a release and
-- on a decommit of any range.
pub free_region-Inv :
    (space : ReservationSpace) (address size type : ℕ) (result : FreeResult)
    → Inv space
    → free_region space address size type ≡ some result
    → Inv result.space
unfolding free_region release_entry decommit_entry
free_region-Inv space address size type result v h =
    let release = is_boolean_flag_on type vmm_free_type_release in
    let decommit = is_boolean_flag_on type vmm_free_type_decommit in
    let (a1, h1) = assert-then (not (address == 0)) _ h in
    let (a2, h2) = assert-then (release && size == 0 || decommit && not (size == 0)) _ h1 in
    let (a3, h3) = assert-then (not (bool_eq release decommit)) _ h2 in
    let (found, run, h4) = >>=-eq-some (find_reservation space address 1) _ h3 in
    let (index, e, h5) = >>=-eq-some found _ h4 in
    let (r, got, h6) = >>=-eq-some (get_elem? space.reservation_list index) _ h5 in
    elim (if-either release h6) [
      | inl h7 ↦
          let (requests, asked, done) = >>=-eq-some (uninitialize_reservation r) _ h7 in
          subst (λ p. Inv p.space) (some_inj done)
            (record {
              sound =
                  All-set IsSound space.reservation_list index zeroed_reservation v.sound
                    (λ u. absurd (two_states u));
              aligned = v.aligned;
            })
      | inr h7 ↦
          let aligned_address = align_lower address page_size in
          let aligned_size = align_upper (add64 size (sub64 address aligned_address)) page_size in
          let (r', changed, done) =
            >>=-eq-some (change_committed aligned_address aligned_size r false) _ h7 in
          subst (λ p. Inv p.space) (some_inj done)
            (changed-Inv space index aligned_address aligned_size false r r' v got changed)
    ]
