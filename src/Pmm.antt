-- ===== src/Pmm.antt =====
-- HAL9000/src/pmm.c: the physical memory manager, a bitmap with one bit for each physical frame,
-- set while the frame is reserved. `PmmData` is the module's static state; its lock is held over
-- the whole of each bitmap operation, so that a call is one step on the state.
pub mod Reserve
pub mod Release
pub mod Trace
pub mod Limits
pub mod Boot
pub mod Outside
mod Tests
use hall.Prelude.{
  ℕ, ◌+◌, ◌*◌, ◌/◌, ◌%◌, Bool, true, false, not, Option, none, some, List, [], ◌∷◌, ltb, leb, ◌==◌,
  if◌then◌else◌, ◌>>=◌, ◌>>◌, assert, get_elem?, set, add32, add64, align_upper, is_address_aligned,
  page_size, mb_size, max_dword,
}
use hall.Bitmap.{
  Bitmap, preinit, init_ex, get_max_element_count, is_boolean_flag_on, set_bits_value,
  scan_from_and_flip,
}

-- HAL/inc/int15.h: MEMORY_MAP_TYPE and INT15_MEMORY_MAP_ENTRY.
abbrev pub usable_ram : ℕ
usable_ram = 1

abbrev pub memory_map_type_max : ℕ
memory_map_type_max = 6

-- MEMORY_MAP_ENTRY_EA_VALID_ENTRY
abbrev pub ea_valid_entry : ℕ
ea_valid_entry = 1

pub record MemoryMapEntry : Type 0 where
  pub base_address : ℕ
  pub size : ℕ
  pub kind : ℕ
  pub extended_attributes : ℕ

-- MEMORY_REGION_LIST
pub record MemoryRegionList : Type 0 where
  pub kind : ℕ
  pub number_of_entries : ℕ

pub record PmmData : Type 0 where
  pub highest_available : ℕ
  pub highest_present : ℕ
  pub physical_memory_size : ℕ
  pub memory_regions : List MemoryRegionList
  pub allocation_bitmap : Bitmap

abbrev region : ℕ → MemoryRegionList
region kind = record { kind = kind; number_of_entries = 0 }

-- PmmPreinitSystem: the loop starts at MemoryMapTypeUsableRAM, so entry 0 stays zeroed.
abbrev pub preinit_system : PmmData
preinit_system = record {
  highest_available = 0;
  highest_present = 0;
  physical_memory_size = 0;
  memory_regions = region 0 ∷ region 1 ∷ region 2 ∷ region 3 ∷ region 4 ∷ region 5 ∷ [];
  allocation_bitmap = record { buffer = []; buffer_size = 0; bit_count = 0 };
}

-- PmmReserveMemoryEx: the physical address, 0 for NULL. The index is a DWORD, so the QWORD product
-- does not wrap.
unfoldable pub reserve_memory_ex : PmmData → ℕ → ℕ → Option (ℕ × PmmData)
reserve_memory_ex pmm no_of_frames min_phys_addr =
    if no_of_frames == 0
    then some (0, pmm)
    else if not (is_address_aligned min_phys_addr page_size)
    then some (0, pmm)
    else if ltb max_dword (min_phys_addr / page_size)
    then some (0, pmm)
    else scan_from_and_flip pmm.allocation_bitmap (min_phys_addr / page_size) no_of_frames false
      >>= λ (idx, bitmap).
          if idx == max_dword
          then some (0, record pmm { allocation_bitmap = bitmap })
          else some (idx * page_size, record pmm { allocation_bitmap = bitmap })

-- PmmReserveMemory
abbrev pub reserve_memory : PmmData → ℕ → Option (ℕ × PmmData)
reserve_memory pmm frames = reserve_memory_ex pmm frames 0

-- PmmReleaseMemory
unfoldable pub release_memory : PmmData → ℕ → ℕ → Option PmmData
release_memory pmm physical_addr no_of_frames = do
  assert (is_address_aligned physical_addr page_size)
  assert (leb (physical_addr / page_size) max_dword)
  bitmap ← set_bits_value pmm.allocation_bitmap (physical_addr / page_size) no_of_frames false
  some (record pmm { allocation_bitmap = bitmap })

-- `MemoryRegions[memoryType].NumberOfEntries++`: a type past the array is outside of it.
unfoldable pub count_region : List MemoryRegionList → ℕ → Option (List MemoryRegionList)
count_region regions kind = do
  r ← get_elem? regions kind
  some (set regions kind (record r { number_of_entries = add32 r.number_of_entries 1 }))

-- The locals of _PmmDetermineMemoryLimits.
pub record MemoryLimits : Type 0 where
  pub available_size : ℕ
  pub present : ℕ
  pub available : ℕ
  pub regions : List MemoryRegionList

-- BaseAddress + Length, a QWORD sum.
abbrev pub end_of : MemoryMapEntry → ℕ
end_of e = add64 e.base_address e.size

abbrev raise : ℕ → ℕ → ℕ
raise highest end = if ltb highest end then end else highest

-- One round of the loop of _PmmDetermineMemoryLimits.
unfoldable pub limits_round : MemoryLimits → MemoryMapEntry → Option MemoryLimits
limits_round l e =
    let l' = record l { present = raise l.present (end_of e) } in
    if not (is_boolean_flag_on e.extended_attributes ea_valid_entry)
    then some l'
    else count_region l'.regions e.kind >>= λ regions.
        if not (e.kind == usable_ram)
        then some (record l' { regions = regions })
        else some (record l' {
          regions = regions;
          available = raise l'.available (end_of e);
          available_size = add64 l'.available_size e.size;
        })

unfoldable pub limits_loop : MemoryLimits → List MemoryMapEntry → Option MemoryLimits
limits_loop l [] = some l
limits_loop l (e ∷ entries) = limits_round l e >>= λ l'. limits_loop l' entries

-- _PmmDetermineMemoryLimits
unfoldable pub determine_memory_limits :
    List MemoryMapEntry → List MemoryRegionList → Option MemoryLimits
determine_memory_limits [] regions = none
determine_memory_limits (e ∷ entries) regions =
    limits_loop (record { available_size = 0; present = 0; available = 0; regions = regions })
      (e ∷ entries)

-- One round of the loop of _PmmInitializeAllocationBitmap.
unfoldable pub release_round : PmmData → MemoryMapEntry → Option PmmData
release_round pmm e =
    if not (is_boolean_flag_on e.extended_attributes ea_valid_entry)
    then some pmm
    else if not (e.kind == usable_ram)
    then some pmm
    else if ltb e.base_address (1 * mb_size)
    then some pmm
    else assert (leb (e.size / page_size) max_dword)
      >> release_memory pmm (align_upper e.base_address page_size) (e.size / page_size)

unfoldable pub release_loop : PmmData → List MemoryMapEntry → Option PmmData
release_loop pmm [] = some pmm
release_loop pmm (e ∷ entries) = release_round pmm e >>= λ pmm'. release_loop pmm' entries

-- _PmmInitializeAllocationBitmap: SizeReserved and the state; `memory` is what
-- CurrentVirtualAddress points to, and the bitmap is the one of the state.
unfoldable pub initialize_allocation_bitmap :
    PmmData → List ℕ → ℕ → List MemoryMapEntry → Option (ℕ × PmmData)
initialize_allocation_bitmap pmm memory highest_memory_address entries = do
  assert (not (highest_memory_address == 0))
  assert (leb (highest_memory_address / page_size) max_dword)
  (bitmap_size, bitmap) ← preinit (highest_memory_address / page_size)
  bitmap' ← init_ex bitmap memory false
  (_, reserved) ←
      reserve_memory (record pmm { allocation_bitmap = bitmap' }) (get_max_element_count bitmap')
  released ← release_loop reserved entries
  some (bitmap_size, released)

pub data Status : Type 0 where
  success invalid_parameter1 invalid_parameter2 invalid_parameter3 : Status

-- PmmInitSystem: the status, SizeReserved and the state. `none` for a pointer is NULL;
-- SizeReserved is a pointer to a local of the caller, which is never NULL.
unfoldable pub init_system :
    PmmData → Option (List ℕ) → Option (List MemoryMapEntry) → Option (Status × ℕ × PmmData)
init_system pmm none entries = some (invalid_parameter1, 0, pmm)
init_system pmm (some memory) none = some (invalid_parameter2, 0, pmm)
init_system pmm (some memory) (some []) = some (invalid_parameter3, 0, pmm)
init_system pmm (some memory) (some (e ∷ entries)) = do
  limits ← determine_memory_limits (e ∷ entries) pmm.memory_regions
  (size, pmm') ←
      initialize_allocation_bitmap
        (record pmm {
          physical_memory_size = limits.available_size;
          highest_present = limits.present;
          highest_available = limits.available;
          memory_regions = limits.regions;
        })
        memory limits.present (e ∷ entries)
  some (success, align_upper size page_size, pmm')
