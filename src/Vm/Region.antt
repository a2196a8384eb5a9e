-- ===== src/Vm/Region.antt =====
-- The operations on a whole reservation space: allocation, release, and the checks of an access.
-- Each holds the space's lock over its effect on the list, and is one step.
use hall.Prelude.{
  ℕ, ◌+◌, bit_and, Bool, true, false, not, ◌&&◌, ◌||◌, Option, none, some, List, [], ◌∷◌, ltb, ◌==◌,
  bool_eq, if◌then◌else◌, ◌>>=◌, ◌>>◌, assert, get_elem?, set, add64, sub64, align_lower,
  align_upper, is_address_aligned, page_size,
}
use hall.Bitmap.{is_boolean_flag_on}
use hall.Vm.{
  Status, success, memory_is_not_reserved, memory_already_reserved,
  memory_conflicting_access_rights, memory_conflicting_cacheability, memory_cannot_be_reserved,
  free, Reservation, ReservationSpace, vmm_alloc_type_reserve, vmm_alloc_type_commit,
  vmm_free_type_decommit, vmm_free_type_release, find_reservation, find_first_free_reservation,
  initialize_reservation, change_committed,
}

-- The RESERVE case of _VmChangeVaReservationState's switch.
unfoldable pub reserve_va :
    ReservationSpace → ℕ → ℕ → ℕ → Bool → ℕ → List ℕ → Option (Status × ReservationSpace)
reserve_va space address size rights uncacheable file memory = do
  slot ← find_first_free_reservation space
  f ← slot
  after ← initialize_reservation f.1 address size rights uncacheable file f.0 memory
  some (success, after)

-- The COMMIT case, on entry `index`.
unfoldable pub commit_va :
    ReservationSpace → ℕ → ℕ → ℕ → Bool → ℕ → Option (Status × ReservationSpace)
commit_va space address size rights uncacheable index = do
  r ← get_elem? space.reservation_list index
  let committed = do
    r' ← change_committed address size r true
    some (success, record space { reservation_list = set space.reservation_list index r' })
  if not (r.page_rights == rights)
      then some (memory_conflicting_access_rights, space)
      else if not (bool_eq r.uncacheable uncacheable)
      then some (memory_conflicting_cacheability, space)
      else committed

-- _VmChangeVaReservationState after the search, which has found an entry or nothing.
unfoldable pub change_found :
    ReservationSpace
    → ℕ
    → ℕ
    → ℕ
    → ℕ
    → Bool
    → ℕ
    → List ℕ
    → Option ℕ
    → Option (Status × ReservationSpace)
change_found space address size type rights uncacheable file memory none =
    if type == vmm_alloc_type_reserve
    then reserve_va space address size rights uncacheable file memory
    else some (memory_is_not_reserved, space)
change_found space address size type rights uncacheable file memory (some index) =
    if type == vmm_alloc_type_reserve
    then some (memory_already_reserved, space)
    else commit_va space address size rights uncacheable index

-- _VmChangeVaReservationState
unfoldable pub change_va_reservation_state :
    ReservationSpace → ℕ → ℕ → ℕ → ℕ → Bool → ℕ → List ℕ → Option (Status × ReservationSpace)
change_va_reservation_state space address size type rights uncacheable file memory = do
  assert (not (address == 0))
  assert (not (size == 0))
  assert (not (bool_eq (type == vmm_alloc_type_reserve) (type == vmm_alloc_type_commit)))
  assert (is_address_aligned address page_size)
  assert (is_address_aligned size page_size)
  found ← find_reservation space address size
  change_found space address size type rights uncacheable file memory found

-- What VmReservationSpaceAllocRegion returns: the status, the space, and on success
-- *MappedAddress and *MappedSize.
pub record AllocResult : Type 0 where
  pub status : Status
  pub space : ReservationSpace
  pub mapped : Option (ℕ × ℕ)

-- VmReservationSpaceDetermineNextFreeVirtualAddress
unfoldable pub determine_next_free_virtual_address : ReservationSpace → ℕ → ℕ × ReservationSpace
determine_next_free_virtual_address space size = (
  space.free_virtual_address_pointer,
  record space { free_virtual_address_pointer = add64 space.free_virtual_address_pointer size },
)

abbrev pub succeeded : Status → Bool
succeeded s = elim s [ success ↦ true | _ ↦ false ]

-- The part of VmReservationSpaceAllocRegion under the lock, for an aligned region.
unfoldable pub alloc_aligned :
    ReservationSpace → ℕ → ℕ → ℕ → ℕ → Bool → ℕ → List ℕ → Option AllocResult
alloc_aligned space base size type rights uncacheable file memory = do
  reserved ←
      if is_boolean_flag_on type vmm_alloc_type_reserve
      then change_va_reservation_state space base size vmm_alloc_type_reserve rights uncacheable
          file memory
      else some (success, space)
  committed ←
      if succeeded reserved.0 && is_boolean_flag_on type vmm_alloc_type_commit
      then change_va_reservation_state reserved.1 base size vmm_alloc_type_commit rights uncacheable
          file memory
      else some reserved
  some (record {
    status = committed.0;
    space = committed.1;
    mapped = if succeeded committed.0 then some (base, size) else none;
  })

-- The addresses that VmReservationSpaceAllocRegion picks: given, or generated for a base of NULL.
unfoldable pub alloc_given :
    ReservationSpace → ℕ → ℕ → ℕ → ℕ → Bool → ℕ → List ℕ → Option AllocResult
alloc_given space base size type rights uncacheable file memory =
    let aligned_base = align_lower base page_size in
    let aligned_size = align_upper (add64 size (sub64 base aligned_base)) page_size in
    if ltb aligned_base space.start_of_virtual_address_space
    then some (record { status = memory_cannot_be_reserved; space = space; mapped = none })
    else alloc_aligned space aligned_base aligned_size type rights uncacheable file memory

unfoldable pub alloc_generated :
    ReservationSpace → ℕ → ℕ → ℕ → Bool → ℕ → List ℕ → Option AllocResult
alloc_generated space size type rights uncacheable file memory =
    let aligned_size = align_upper size page_size in
    let next = determine_next_free_virtual_address space aligned_size in
    alloc_aligned next.1 next.0 aligned_size type rights uncacheable file memory

-- VmReservationSpaceAllocRegion; a base address of 0 is NULL.
unfoldable pub alloc_region :
    ReservationSpace → ℕ → ℕ → ℕ → ℕ → Bool → ℕ → List ℕ → Option AllocResult
alloc_region space base size type rights uncacheable file memory = do
  assert (not (size == 0))
  assert (not (bit_and type (vmm_alloc_type_commit + vmm_alloc_type_reserve) == 0))
  if base == 0
      then alloc_generated space size type rights uncacheable file memory
      else alloc_given space base size type rights uncacheable file memory

-- What a release asks of the memory manager and of the file system.
pub data Request : Type 0 where
  mmu_unmap_memory : ℕ → ℕ → Request
  io_close_file : ℕ → Request

-- _VmUninitializeReservation, which acts on a copy of the entry: what it asks for.
unfoldable pub uninitialize_reservation : Reservation → Option (List Request)
uninitialize_reservation r = do
  assert (is_address_aligned r.bitmap_buffer page_size)
  let unmap = mmu_unmap_memory r.bitmap_buffer r.commit_bitmap.buffer_size
  some (unmap ∷ (if r.backing_file == 0 then [] else io_close_file r.backing_file ∷ []))

-- The entry after memzero, with the state set.
abbrev pub zeroed_reservation : Reservation
zeroed_reservation = record {
  start_va = 0;
  size = 0;
  page_rights = 0;
  state = free;
  uncacheable = false;
  backing_file = 0;
  commit_bitmap = record { buffer = []; buffer_size = 0; bit_count = 0 };
  bitmap_buffer = 0;
}

pub record FreeResult : Type 0 where
  pub space : ReservationSpace
  pub aligned_address : ℕ
  pub aligned_size : ℕ
  pub requests : List Request

-- The release and the decommit of VmReservationSpaceFreeRegion, on the entry that it found.
unfoldable pub release_entry : ReservationSpace → ℕ → Reservation → Option FreeResult
release_entry space index r = do
  requests ← uninitialize_reservation r
  some (record {
    space = record space { reservation_list = set space.reservation_list index zeroed_reservation };
    aligned_address = r.start_va;
    aligned_size = r.size;
    requests = requests;
  })

unfoldable pub decommit_entry : ReservationSpace → ℕ → ℕ → ℕ → Reservation → Option FreeResult
decommit_entry space address size index r = do
  let aligned_address = align_lower address page_size
  let aligned_size = align_upper (add64 size (sub64 address aligned_address)) page_size
  r' ← change_committed aligned_address aligned_size r false
  some (record {
    space = record space { reservation_list = set space.reservation_list index r' };
    aligned_address = aligned_address;
    aligned_size = aligned_size;
    requests = [];
  })

-- VmReservationSpaceFreeRegion
unfoldable pub free_region : ReservationSpace → ℕ → ℕ → ℕ → Option FreeResult
free_region space address size type = do
  let release = is_boolean_flag_on type vmm_free_type_release
  let decommit = is_boolean_flag_on type vmm_free_type_decommit
  assert (not (address == 0))
  assert (release && size == 0 || decommit && not (size == 0))
  assert (not (bool_eq release decommit))
  found ← find_reservation space address 1
  index ← found
  r ← get_elem? space.reservation_list index
  if release then release_entry space index r else decommit_entry space address size index r
