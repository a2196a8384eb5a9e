-- ===== src/Vm.antt =====
-- HAL9000/src/vm_reservation_space.c: which virtual addresses are reserved and committed.
-- The reservation list is the list of the entries that lie below the commit bitmaps, and a pointer
-- into it is an index; an entry's bitmap buffer is a list of bytes with the address it has.
pub mod Region
pub mod Live
pub mod Find
pub mod Commit
pub mod Invariant
pub mod Steps
pub mod Preserve
pub mod Fault
pub mod Slot
pub mod Release
pub mod Setup
pub mod Fill
pub mod Reserve
pub mod Access
mod Tests
use hall.Prelude.{
  ℕ, zero, suc, ◌+◌, ◌-◌, ◌*◌, ◌/◌, ◌%◌, ◌^◌, bit_and, Bool, true, false, not, ◌&&◌, ◌||◌, Option,
  none, some, List, [], ◌∷◌, ltb, leb, ◌==◌, bool_eq, if◌then◌else◌, ◌>>=◌, ◌>>◌, assert, length,
  get_elem?, set, add64, sub64, align_lower, align_upper, is_address_aligned, page_size, max_dword,
  max_qword, u64_mod,
}
use hall.Bitmap.{Bitmap, preinit, init_ex, set_bits_value, get_bit_value, is_boolean_flag_on}

pub data Status : Type 0 where
  success : Status
  element_not_found : Status
  memory_is_not_reserved : Status
  memory_already_reserved : Status
  memory_conflicting_access_rights : Status
  memory_conflicting_cacheability : Status
  memory_cannot_be_reserved : Status
  memory_is_not_commited : Status
  unsupported : Status

-- VMM_RESERVATION_STATE
pub data ReservationState : Type 0 where
  free : ReservationState
  used : ReservationState
  last : ReservationState

-- VMM_RESERVATION; a BackingFile of 0 is NULL.
pub record Reservation : Type 0 where
  pub start_va : ℕ
  pub size : ℕ
  pub page_rights : ℕ
  pub state : ReservationState
  pub uncacheable : Bool
  pub backing_file : ℕ
  pub commit_bitmap : Bitmap
  pub bitmap_buffer : ℕ

-- VMM_RESERVATION_SPACE without its lock
pub record ReservationSpace : Type 0 where
  pub free_virtual_address_pointer : ℕ
  pub start_of_virtual_address_space : ℕ
  pub bitmap_address_start : ℕ
  pub reserved_area_size : ℕ
  pub free_bitmap_address : ℕ
  pub list_address : ℕ
  pub reservation_list : List Reservation

abbrev pub vmm_alloc_type_reserve : ℕ
vmm_alloc_type_reserve = 1

abbrev pub vmm_alloc_type_commit : ℕ
vmm_alloc_type_commit = 2

abbrev pub vmm_free_type_decommit : ℕ
vmm_free_type_decommit = 1

abbrev pub vmm_free_type_release : ℕ
vmm_free_type_release = 2

abbrev pub page_rights_execute : ℕ
page_rights_execute = 2

abbrev pub page_rights_readwrite : ℕ
page_rights_readwrite = 1

-- CHECK_BOUNDS
abbrev pub check_bounds : ℕ → ℕ → ℕ → ℕ → Bool
check_bounds p ps b s = leb b p && leb (add64 p ps) (add64 b s)

-- The loop of _VmFindReservation from entry `i` on.
unfoldable pub find_loop : List Reservation → ℕ → ℕ → ℕ → Option ℕ
find_loop [] i address size = none
find_loop (r ∷ entries) i address size =
    let onward = find_loop entries (i + 1) address size in
    elim r.state [
      | last ↦ none
      | free ↦ onward
      | used ↦ if check_bounds address size r.start_va r.size then some i else onward
    ]

-- _VmFindReservation: the entry, if there is one.
unfoldable pub find_reservation : ReservationSpace → ℕ → ℕ → Option (Option ℕ)
find_reservation space address size = do
  assert (not (address == 0))
  assert (not (size == 0))
  some (find_loop space.reservation_list 0 address size)

-- `(pCurrentReservation + 1)->State = VmmReservationStateLast`
abbrev pub mark_last : List Reservation → Option (List Reservation)
mark_last [] = none
mark_last (r ∷ entries) = some (record r { state = last } ∷ entries)

-- The loop of _VmFindFirstFreeReservation from entry `i` on: the index and the list from there. One
-- round of it goes by the state of the entry; `onward` is what the loop returns for the entries after.
abbrev pub first_free_round :
    ReservationState
    → Reservation
    → List Reservation
    → ℕ
    → Option (Option (ℕ × List Reservation))
    → Option (Option (ℕ × List Reservation))
first_free_round free r entries i onward = some (some (i, r ∷ entries))
first_free_round last r entries i onward =
    mark_last entries >>= λ marked. some (some (i, record r { state = free } ∷ marked))
first_free_round used r entries i onward =
    onward >>= λ found. some (elim found [ none ↦ none | some f ↦ some (f.0, r ∷ f.1) ])

unfoldable pub first_free_loop : List Reservation → ℕ → Option (Option (ℕ × List Reservation))
first_free_loop [] i = some none
first_free_loop (r ∷ entries) i =
    first_free_round r.state r entries i (first_free_loop entries (i + 1))

-- _VmFindFirstFreeReservation
unfoldable pub find_first_free_reservation :
    ReservationSpace → Option (Option (ℕ × ReservationSpace))
find_first_free_reservation space = first_free_loop space.reservation_list 0 >>= λ found.
    some (elim found [ none ↦ none | some f ↦ some (f.0, record space { reservation_list = f.1 }) ])

-- _VmInitializeReservation for entry `index`; `memory` is what FreeBitmapAddress points to.
unfoldable pub initialize_reservation :
    ReservationSpace → ℕ → ℕ → ℕ → Bool → ℕ → ℕ → List ℕ → Option ReservationSpace
initialize_reservation space address size page_rights uncacheable file index memory = do
  assert (not (address == 0))
  assert (not (size == 0))
  assert (is_address_aligned address page_size)
  assert (is_address_aligned size page_size)
  let no_of_pages = size / page_size
  assert (leb no_of_pages max_dword)
  prepared ← preinit no_of_pages
  let bitmap_size = prepared.0
  assert (not (bitmap_size == 0))
  assert (is_address_aligned space.free_bitmap_address page_size)
  bitmap ← init_ex prepared.1 memory false
  assert (
      check_bounds space.free_bitmap_address (align_upper bitmap_size page_size) space.list_address
        space.reserved_area_size)
  let entry : Reservation = record {
    start_va = address;
    size = size;
    page_rights = page_rights;
    state = used;
    uncacheable = uncacheable;
    backing_file = file;
    commit_bitmap = bitmap;
    bitmap_buffer = space.free_bitmap_address;
  }
  some (record space {
    reservation_list = set space.reservation_list index entry;
    free_bitmap_address = add64 space.free_bitmap_address (align_upper bitmap_size page_size);
  })

-- The index of the page of an address in a reservation.
abbrev pub page_index : Reservation → ℕ → ℕ
page_index r address = sub64 address r.start_va / page_size

-- _VmCommitReservation (`on`) and _VmDecommitReservation on one entry.
unfoldable pub change_committed : ℕ → ℕ → Reservation → Bool → Option Reservation
change_committed address size r on = do
  assert (not (address == 0))
  assert (not (size == 0))
  assert (is_address_aligned address page_size)
  assert (is_address_aligned size page_size)
  assert (leb (size / page_size) max_dword)
  assert (leb (page_index r address) max_dword)
  bitmap ← set_bits_value r.commit_bitmap (page_index r address) (size / page_size) on
  some (record r { commit_bitmap = bitmap })

-- _VmIsVaCommited
unfoldable pub is_va_commited : Reservation → ℕ → Option Bool
is_va_commited r address = do
  assert (not (address == 0))
  assert (leb (page_index r address) max_dword)
  get_bit_value r.commit_bitmap (page_index r address)
