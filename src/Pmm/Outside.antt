-- ===== src/Pmm/Outside.antt =====
-- Memory maps that the code mishandles: _PmmDetermineMemoryLimits on an entry whose type is past the
-- table of regions, and _PmmInitializeAllocationBitmap on one that does not begin on a page.
use hall.Prelude.{
  ◌-◌, refl, Bool, Bool-cases, All, max_dword, ◌&&◌, ◌||◌, if◌then◌else◌, page_size, u32_mod,
  align_upper, ◌/◌, ℕ, ◌+◌, ◌*◌, ◌%◌, ◌≤◌, ◌<◌, ◌≡◌, ◌≢◌, sym, ◌∙◌, inl, inr, true, false, none,
  some, List, [], ◌∷◌, ◌++◌, arith, length, get_elem?, length-set, ap, get_elem?-eq-none, some_inj,
  u32_mod, >>=-eq-some, Option-cases,
}
use hall.Pmm.{
  MemoryMapEntry, MemoryRegionList, MemoryLimits, count_region, limits_round, limits_loop,
  determine_memory_limits, PmmData, release_round, release_memory, release_loop,
  initialize_allocation_bitmap,
}
use hall.Pmm.Limits.{is_valid_entry}
use hall.Pmm.Boot.{is_released, booted, release_round-skip, initialize-reserved}
use hall.Bitmap.Range.{in_range}
use hall.Pmm.Release.{release_lem}
use hall.Pmm.Reserve.{with_buffer, reserved, frames}
use hall.Bitmap.Bits.{bit, IsByte, IsValid}

count_region-outside :
    (regions : List MemoryRegionList) (k : ℕ) → length regions ≤ k → count_region regions k ≡ none
unfolding count_region
count_region-outside regions k h = rw (get_elem?-eq-none regions k h)

count_region-length :
    (regions : List MemoryRegionList) (k : ℕ) {after : List MemoryRegionList}
    → count_region regions k ≡ some after
    → length after ≡ length regions
unfolding count_region
count_region-length regions k run =
    let (r, read, wrote) = >>=-eq-some (get_elem? regions k) _ run in
    ap length (some_inj (sym wrote)) ∙ length-set regions k _

limits_round-length :
    (l : MemoryLimits) (e : MemoryMapEntry) {l' : MemoryLimits}
    → limits_round l e ≡ some l'
    → length l'.regions ≡ length l.regions
unfolding limits_round
limits_round-length l e run = elim (Option-cases (count_region l.regions e.kind)) [
  | inl outside ↦ ground (arith, outside)
  | inr (after, inside) ↦
      ground (arith, inside, count_region-length l.regions e.kind {after = after})
]

limits_round-outside :
    (l : MemoryLimits) (e : MemoryMapEntry)
    → is_valid_entry e ≡ true
    → length l.regions ≤ e.kind
    → limits_round l e ≡ none
unfolding limits_round
limits_round-outside l e valid past = ground (arith, count_region-outside l.regions e.kind past)

limits_loop-outside :
    (l : MemoryLimits) (front back : List MemoryMapEntry) (e : MemoryMapEntry)
    → is_valid_entry e ≡ true
    → length l.regions ≤ e.kind
    → limits_loop l (front ++ (e ∷ back)) ≡ none
unfolding limits_loop
limits_loop-outside l [] back e valid past = rw (limits_round-outside l e valid past)
limits_loop-outside l (x ∷ front) back e valid past = elim (Option-cases (limits_round l x)) [
  | inl faults ↦ rw faults
  | inr (l', run) ↦
      rw run (
        limits_loop-outside l' front back e valid
          (omega (arith, past, limits_round-length l x run)))
]

-- The type of a map entry is used as an index with no check: if some valid entry of the map has a
-- type past the table of regions, the call writes outside of the table.
determine_memory_limits_outside :
    (front back : List MemoryMapEntry) (e : MemoryMapEntry) (regions : List MemoryRegionList)
    → is_valid_entry e ≡ true
    → length regions ≤ e.kind
    → determine_memory_limits (front ++ (e ∷ back)) regions ≡ none
unfolding determine_memory_limits
determine_memory_limits_outside [] back e regions valid past =
    limits_loop-outside _ [] back e valid past
determine_memory_limits_outside (x ∷ front) back e regions valid past =
    limits_loop-outside _ (x ∷ front) back e valid past

-- The first frame that begins inside the entry, or behind it
abbrev pub first_frame : MemoryMapEntry → ℕ
first_frame e = (e.base_address + page_size - 1) / page_size

-- The frames that are released for an entry, and those of all entries
abbrev pub frees : MemoryMapEntry → ℕ → Bool
frees e f = is_released e && in_range (first_frame e) (e.size / page_size) f

unfoldable pub freed : List MemoryMapEntry → ℕ → Bool
freed [] f = false
freed (e ∷ entries) f = frees e f || freed entries f

-- The frames that are released for an entry are frames of the bitmap.
abbrev pub StaysInside : ℕ → MemoryMapEntry → Type 0
StaysInside n e =
    is_released e ≡ true → (first_frame e < n) × (first_frame e + e.size / page_size ≤ n)

release_round-from :
    (pmm : PmmData) (e : MemoryMapEntry)
    → is_released e ≡ true
    → first_frame e < u32_mod
    → e.size / page_size < u32_mod
    → release_round pmm e ≡ release_memory pmm (first_frame e * page_size) (e.size / page_size)
unfolding release_round
release_round-from pmm e h small few =
    let same : align_upper e.base_address page_size ≡ first_frame e * page_size = omega arith in
    ground (arith, same)

release_round-frees :
    (pmm : PmmData) (e : MemoryMapEntry)
    → IsValid pmm.allocation_bitmap
    → StaysInside (frames pmm) e
    → (after : List ℕ) × (release_round pmm e ≡ some (with_buffer pmm after))
      × ((f : ℕ) → bit after f ≡ (if frees e f then false else reserved pmm f))
      × IsValid (with_buffer pmm after).allocation_bitmap
release_round-frees pmm e v stays = elim (Bool-cases (is_released e)) [
  | inr skipped ↦ (
    pmm.allocation_bitmap.buffer,
    release_round-skip pmm e skipped,
    λ f. ground (arith, skipped),
    v,
  )
  | inl released ↦
      let (below, ends) = stays released in
      let (after, run, bits, valid) =
        release_lem pmm (first_frame e) (e.size / page_size) v below ends in
      (
        after,
        release_round-from pmm e released (omega (arith, below, v.small))
              (omega (arith, ends, v.small))
            ∙ run,
        λ f. ground (arith, released, bits f),
        valid,
      )
]

release_loop-frees :
    (pmm : PmmData) (entries : List MemoryMapEntry)
    → IsValid pmm.allocation_bitmap
    → All (StaysInside (frames pmm)) entries
    → (after : List ℕ) × (release_loop pmm entries ≡ some (with_buffer pmm after))
      × ((f : ℕ) → bit after f ≡ (if freed entries f then false else reserved pmm f))
      × IsValid (with_buffer pmm after).allocation_bitmap
unfolding release_loop freed
release_loop-frees pmm [] v stays = (pmm.allocation_bitmap.buffer, refl, λ f. refl, v)
release_loop-frees pmm (e ∷ entries) v stays =
    let (mid, run, bits, valid) = release_round-frees pmm e v stays.0 in
    let (after, run', bits', valid') =
      release_loop-frees (with_buffer pmm mid) entries valid stays.1 in
    (after, rw run run', λ f. ground (arith, bits f, bits' f), valid')

freed-middle :
    (front back : List MemoryMapEntry) (e : MemoryMapEntry) (f : ℕ)
    → frees e f ≡ true
    → freed (front ++ (e ∷ back)) f ≡ true
unfolding freed
freed-middle [] back e f h = rw h refl
freed-middle (x ∷ front) back e f h = elim (Bool-cases (frees x f)) [
  | inl here ↦ rw here refl
  | inr there ↦ rw there (freed-middle front back e f h)
]

-- For a memory map whose highest address covers at least one frame and at most MAX_DWORD frames, a
-- buffer with a bit for each frame, and entries for each of which the frames released are frames of
-- the bitmap, _PmmInitializeAllocationBitmap returns. If one of the entries is of usable memory from
-- 1 MB on and at least a page long, begins past a page boundary, and the bytes from that boundary to
-- its base and the bytes of its length beyond whole pages are together fewer than a page, the call
-- leaves a frame free that ends past this entry, whatever else the map says about that frame.
pub release_past_end :
    (pmm : PmmData) (memory : List ℕ) (highest : ℕ) (front back : List MemoryMapEntry)
    (e : MemoryMapEntry)
    → page_size ≤ highest
    → highest / page_size ≤ max_dword
    → All IsByte memory
    → (highest / page_size + 7) / 8 ≤ length memory
    → All (StaysInside (highest / page_size)) (front ++ (e ∷ back))
    → is_released e ≡ true
    → e.base_address % page_size ≢ 0
    → page_size ≤ e.size
    → e.base_address % page_size + e.size % page_size < page_size
    → let f = e.base_address / page_size + e.size / page_size in
      (after : PmmData) × (initialize_allocation_bitmap pmm memory highest (front ++ (e ∷ back))
        ≡ some ((highest / page_size + 7) / 8, after))
      × (reserved after f ≡ false)
      × (e.base_address + e.size < f * page_size + page_size)
release_past_end pmm memory highest front back e lo hi bytes room stays released unaligned
      some_frames short =
    let f = e.base_address / page_size + e.size / page_size in
    let (full, valid, all_set, finish) =
      initialize-reserved pmm memory highest (front ++ (e ∷ back)) lo hi bytes room in
    let (after, run, bits, valid') =
      release_loop-frees (booted pmm (highest / page_size) full) (front ++ (e ∷ back)) valid
        stays in
    let last_one : frees e f ≡ true = ground arith in
    (
      booted pmm (highest / page_size) after,
      finish (booted pmm (highest / page_size) after) run,
      bits f
          ∙ ap (λ b. if b then false else reserved (booted pmm (highest / page_size) full) f)
              (freed-middle front back e f last_one),
      omega arith,
    )
