-- ===== src/Vm/Access.antt =====
-- The checks of an access: VmReservationReturnRightsForAddress and VmReservationCanAddressBeAccessed.
use hall.Prelude.{
  ℕ, zero, suc, ◌+◌, ◌-◌, ◌/◌, Bool, true, false, not, ◌&&◌, ◌||◌, Option, none, some, leb, ◌==◌,
  if◌then◌else◌, ◌>>=◌, ◌>>◌, assert, get_elem?, add64, sub64, align_lower, page_size, u64_mod,
}
use hall.Bitmap.{is_boolean_flag_on}
use hall.Vm.{
  Status, success, memory_is_not_commited, Reservation, ReservationSpace, page_rights_execute,
  page_rights_readwrite, check_bounds, find_reservation, is_va_commited,
}

-- The loop of VmReservationReturnRightsForAddress, with the rounds left: all pages are committed.
unfoldable pub all_commited : Reservation → ℕ → ℕ → ℕ → Option Bool
all_commited r address i zero = some true
all_commited r address i (suc left) = do
  c ← is_va_commited r (add64 address i)
  elim c [ true ↦ all_commited r address (i + page_size) left | false ↦ some false ]

-- VmReservationReturnRightsForAddress on the entry: the status, and the rights that are stored. The
-- index of the loop is a QWORD, and the loop does not end by itself if the size is within a page of
-- 2 ^ 64.
unfoldable pub rights_of_reservation : Reservation → ℕ → ℕ → Option (Status × Option ℕ)
rights_of_reservation r address size = do
  committed ← all_commited r address 0 ((size + page_size - 1) / page_size)
  assert (not committed || leb size (u64_mod - page_size))
  some (if committed then success else memory_is_not_commited, some r.page_rights)

-- VmReservationReturnRightsForAddress
unfoldable pub return_rights_for_address : ReservationSpace → ℕ → ℕ → Option (Status × Option ℕ)
return_rights_for_address space address size = do
  found ← find_reservation space address size
  elim found [
    | none ↦ some (memory_is_not_commited, none)
    | some index ↦
        get_elem? space.reservation_list index >>= λ r. rights_of_reservation r address size
  ]

-- What VmReservationCanAddressBeAccessed stores where it returns TRUE.
pub record Access : Type 0 where
  pub memory_rights : ℕ
  pub uncacheable : Bool
  pub backing_file : ℕ
  pub file_offset : ℕ

-- The check in the metadata, where only the memory manager itself, or no known processor, may go.
abbrev pub access_metadata : ℕ → Bool → Option Access
access_metadata rights memory_access =
    if memory_access && not (is_boolean_flag_on rights page_rights_execute)
    then some (record {
      memory_rights = page_rights_readwrite;
      uncacheable = false;
      backing_file = 0;
      file_offset = 0;
    })
    else none

-- The check against entry `index`.
unfoldable pub access_reservation : Reservation → ℕ → ℕ → Option (Option Access)
access_reservation r address rights = do
  committed ← is_va_commited r address
  let offset = if r.backing_file == 0 then 0 else align_lower (sub64 address r.start_va) page_size
  let access : Access = record {
    memory_rights = r.page_rights;
    uncacheable = r.uncacheable;
    backing_file = r.backing_file;
    file_offset = offset;
  }
  some (if committed && is_boolean_flag_on r.page_rights rights then some access else none)

-- VmReservationCanAddressBeAccessed: `none` inside is FALSE. `memory_access` is
-- `NULL == pCpu || pCpu->VmmMemoryAccess`; the interrupts are off.
unfoldable pub can_address_be_accessed : ReservationSpace → ℕ → ℕ → Bool → Option (Option Access)
can_address_be_accessed space address rights memory_access =
    let within = find_reservation space address 1 >>= λ found. elim found [
      | none ↦ some none
      | some index ↦
          get_elem? space.reservation_list index >>= λ r. access_reservation r address rights
    ] in
    if address == 0
    then some none
    else if check_bounds address 1 space.list_address space.reserved_area_size
    then some (access_metadata rights memory_access)
    else within
