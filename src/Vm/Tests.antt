-- ===== src/Vm/Tests.antt =====
-- The reservations on one small space: two pages at 0x10000, of which the first is committed.
use hall.Prelude.{
  ℕ, ◌+◌, ◌≤◌, ◌<◌, ◌≡◌, ◌≢◌, ◌↔◌, refl, true, false, ◌&&◌, if◌then◌else◌, Option, none, some, List,
  [], ◌∷◌, arith, ◌>>=◌, leb, ltb, All,
}
use hall.Bitmap.{
  Bitmap, set_bits_value, change_bits, change_bits_from, change_bit, change_byte, preinit, init_ex,
}
use hall.Memory.{memset}
use hall.Bitmap.Bits.{bit, IsByte}
use hall.Bitmap.Byte.{bit_of}
use hall.Vm.{
  Status, success, memory_already_reserved, free, used, last, Reservation, ReservationSpace,
  change_committed, is_va_commited, find_loop, find_reservation, first_free_loop,
  find_first_free_reservation, initialize_reservation, vmm_alloc_type_reserve,
  vmm_free_type_release,
}
use hall.Vm.Live.{live_at}
use hall.Vm.Find.{First}
use hall.Vm.Commit.{Described, Within, Pages, committed, change_committed_lem}
use hall.Vm.Invariant.{Inv, new_reservation}
use hall.Vm.Region.{
  AllocResult, FreeResult, alloc_region, alloc_given, alloc_generated, alloc_aligned,
  change_va_reservation_state, change_found, reserve_va, free_region, decommit_entry,
  determine_next_free_virtual_address,
}
use hall.Vm.Access.{Access, can_address_be_accessed, return_rights_for_address}
use hall.Vm.Fault.{access_of, grants, can_address_be_accessed_lem, return_rights_first_page}
use hall.Vm.Release.{requests_of, free_region-release}
use hall.Vm.Reserve.{reserve_refused_iff}
use hall.Vm.Fill.{Fits, reserve_va_lem}
use hall.Vm.Preserve.{alloc_region-Inv, free_region-Inv}
use hall.Vm.Setup.{
  reservation_space_init, initial_space, reservation_space_finish_init, reservation_space_init-Inv,
}

abbrev two_pages : Bitmap
two_pages = record { buffer = 1 ∷ []; buffer_size = 1; bit_count = 2 }

abbrev no_pages : Bitmap
no_pages = record { buffer = []; buffer_size = 0; bit_count = 0 }

abbrev area : Reservation
area = record {
  start_va = 0x10000;
  size = 0x2000;
  page_rights = 1;
  state = used;
  uncacheable = false;
  backing_file = 0;
  commit_bitmap = two_pages;
  bitmap_buffer = 0x5000;
}

abbrev unused : Reservation
unused = record {
  start_va = 0;
  size = 0;
  page_rights = 0;
  state = free;
  uncacheable = false;
  backing_file = 0;
  commit_bitmap = no_pages;
  bitmap_buffer = 0;
}

abbrev end : Reservation
end = record unused { state = last }

abbrev space : ReservationSpace
space = record {
  free_virtual_address_pointer = 0x20000;
  start_of_virtual_address_space = 0x9000;
  bitmap_address_start = 0x5000;
  reserved_area_size = 0x5000;
  free_bitmap_address = 0x6000;
  list_address = 0x4000;
  reservation_list = area ∷ end ∷ unused ∷ [];
}

area-Described : Described area
area-Described = record {
  aligned = refl;
  positive = omega arith;
  whole = refl;
  above = omega arith;
  bitmap = record { bytes = (omega arith, tt); room = omega arith; small = omega arith };
  buffer = refl;
}

space-Inv : Inv space
space-Inv = record { sound = ((λ u. area-Described), ((λ u. cc), ((λ u. cc), tt))); aligned = refl }

first_area : First space.reservation_list 0x10800 1 0
unfolding live_at
first_area = record {
  entry = area;
  live = refl;
  place = refl;
  inside = refl;
  earliest = λ m r h l. absurd (omega (arith, h));
}

-- A range from the committed first page into the second page, which is not committed.
first_crossing : First space.reservation_list 0x10ff8 16 0
unfolding live_at
first_crossing = record {
  entry = area;
  live = refl;
  place = refl;
  inside = refl;
  earliest = λ m r h l. absurd (omega (arith, h));
}

can_address_be_accessed_example :
    (result : Option Access) × (can_address_be_accessed space 0x10800 1 false ≡ some result)
    × ((a : Access)
        → (result ≡ some a) ↔ (
            (j : ℕ) × (f : First space.reservation_list 0x10800 1 j) × (grants f.entry 0x10800 1
              ≡ true)
            × (access_of f.entry 0x10800 ≡ a)))
can_address_be_accessed_example =
    can_address_be_accessed_lem space 0x10800 1 false space-Inv (λ e. omega (arith, e))
      (omega arith) refl

return_rights_first_page_example :
    return_rights_for_address space 0x10ff8 16 ≡ some (success, some 1)
unfolding bit bit_of first_crossing
return_rights_first_page_example =
    return_rights_first_page space 0x10ff8 16 0 space-Inv (λ e. omega (arith, e)) (omega arith)
      (omega arith) (omega arith) first_crossing

reserve_refused_iff_example :
    (change_va_reservation_state space 0x11000 0x1000 vmm_alloc_type_reserve 1 false 0 []
      ≡ some (memory_already_reserved, space))
    ↔ ((j : ℕ) × (r : Reservation) × (live_at space.reservation_list j ≡ some r)
        × (r.start_va ≤ 0x11000)
        × (0x11000 + 0x1000 ≤ r.start_va + r.size))
reserve_refused_iff_example =
    reserve_refused_iff space 0x11000 0x1000 1 false 0 [] (λ e. omega (arith, e))
      (λ e. omega (arith, e)) refl refl space-Inv (omega arith)

second_page : Pages area 0x11000 0x1000
second_page = record {
  aligned = refl;
  whole = refl;
  nonempty = omega arith;
  lower = omega arith;
  upper = omega arith;
}

change_committed_example :
    (buffer : List ℕ) × (let after = record area {
      commit_bitmap = record two_pages { buffer = buffer };
    } in
      (change_committed 0x11000 0x1000 area true ≡ some after)
      × Described after
      × ((a : ℕ)
          → Within area a
          → is_va_commited after a
            ≡ some (if leb 0x11000 a && ltb a (0x11000 + 0x1000) then true else committed area a)))
change_committed_example = change_committed_lem area 0x11000 0x1000 true area-Described second_page

free_region-release_example :
    (result : FreeResult) × (free_region space 0x10800 0 vmm_free_type_release ≡ some result)
    × (result.aligned_address ≡ 0x10000)
    × (result.aligned_size ≡ 0x2000)
    × (result.requests ≡ requests_of area)
    × (live_at result.space.reservation_list 0 ≡ none)
    × ((m : ℕ) → m ≢ 0 → live_at result.space.reservation_list m ≡ live_at space.reservation_list m)
unfolding first_area
free_region-release_example =
    free_region-release space 0x10800 0 space-Inv (λ e. omega (arith, e)) first_area

zeros : All IsByte (0 ∷ [])
zeros = (omega arith, tt)

new-Fits : Fits space 0x20000 0x3000 (0 ∷ [])
new-Fits = record {
  positive = λ e. omega (arith, e);
  nonempty = omega arith;
  on_page = refl;
  pages = refl;
  few = omega arith;
  bytes = zeros;
  long = omega arith;
  room = refl;
}

abbrev slots : List Reservation
slots = area ∷ unused ∷ end ∷ []

reserve_va_example :
    (after : ReservationSpace) × (bitmap : Bitmap) × (reserve_va space 0x20000 0x3000 1 false 0
        (0 ∷ [])
      ≡ some (success, after))
    × (live_at space.reservation_list 1 ≡ none)
    × (live_at after.reservation_list 1
        ≡ some (new_reservation 0x20000 0x3000 1 false 0 bitmap 0x6000))
    × ((j : ℕ) → j < 3 → bit bitmap.buffer j ≡ false)
    × ((m : ℕ) → m ≢ 1 → live_at after.reservation_list m ≡ live_at space.reservation_list m)
unfolding first_free_loop
reserve_va_example =
    reserve_va_lem space 0x20000 0x3000 1 false 0 (0 ∷ []) 1 slots space-Inv new-Fits refl

-- One page is reserved at the next address.
abbrev allocated : AllocResult
allocated = record {
  status = success;
  space = record space {
    free_virtual_address_pointer = 0x21000;
    free_bitmap_address = 0x7000;
    reservation_list =
        area
        ∷ new_reservation 0x20000 0x1000 1 false 0
            (record { buffer = 0 ∷ []; buffer_size = 1; bit_count = 1 }) 0x6000
        ∷ end
        ∷ [];
  };
  mapped = some (0x20000, 0x1000);
}

alloc_region_test : alloc_region space 0 0x1000 1 1 false 0 (0 ∷ []) ≡ some allocated
unfolding alloc_region alloc_generated alloc_aligned determine_next_free_virtual_address
    change_va_reservation_state change_found reserve_va find_reservation find_loop
    find_first_free_reservation first_free_loop initialize_reservation preinit init_ex memset
alloc_region_test = refl

alloc_region-Inv_example : Inv allocated.space
alloc_region-Inv_example =
    alloc_region-Inv space 1 1 false 0 (0 ∷ []) allocated space-Inv zeros 0 0x1000 (omega arith)
      alloc_region_test

abbrev outcome : Option AllocResult → Option (Status × Option (ℕ × ℕ))
outcome none = none
outcome (some r) = some (r.status, r.mapped)

-- A region that overlaps the second page of the first reservation is reserved.
overlap_test :
    outcome (alloc_region space 0x11000 0x2000 1 1 false 0 (0 ∷ []))
    ≡ some (success, some (0x11000, 0x2000))
unfolding alloc_region alloc_given alloc_aligned change_va_reservation_state change_found reserve_va
    find_reservation find_loop find_first_free_reservation first_free_loop initialize_reservation
    preinit init_ex memset
overlap_test = refl

-- The first page is decommitted.
abbrev decommitted : FreeResult
decommitted = record {
  space = record space {
    reservation_list =
        record area { commit_bitmap = record two_pages { buffer = 0 ∷ [] } } ∷ end ∷ unused ∷ [];
  };
  aligned_address = 0x10000;
  aligned_size = 0x1000;
  requests = [];
}

free_region_test : free_region space 0x10800 0x100 1 ≡ some decommitted
unfolding free_region decommit_entry find_reservation find_loop change_committed set_bits_value
    change_bits change_bits_from change_bit change_byte
free_region_test = refl

free_region-Inv_example : Inv decommitted.space
free_region-Inv_example =
    free_region-Inv space 0x10800 0x100 1 decommitted space-Inv free_region_test

reservation_space_init_example :
    let after =
      initial_space 0x10000 0 0xa000 (record area { state = last } ∷ (unused ∷ (unused ∷ []))) in
    ((reservation_space_init 0x10000 0 0xa000 (area ∷ (unused ∷ (unused ∷ [])))
        >>= reservation_space_finish_init)
      ≡ some after)
    × Inv after
    × ((j : ℕ) → live_at after.reservation_list j ≡ none)
reservation_space_init_example =
    reservation_space_init-Inv 0x10000 0 0xa000 area (unused ∷ (unused ∷ [])) (omega arith) refl
      (omega arith) refl (omega arith) (omega arith) (refl, (refl, tt))
