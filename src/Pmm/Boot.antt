-- ===== src/Pmm/Boot.antt =====
-- _PmmInitializeAllocationBitmap: which frames are free once the system has started.
use hall.Prelude.{
  ℕ, ◌+◌, ◌*◌, ◌/◌, ◌%◌, ◌≤◌, ◌<◌, ◌≡◌, refl, ap, ◌∙◌, inl, inr, Bool, true, false, not, ◌&&◌, ◌||◌,
  some, List, [], ◌∷◌, arith, leb, if◌then◌else◌, max_dword, page_size, mb_size, u32_mod,
  align_upper, All, length, Bool-cases,
}
use hall.Bitmap.{Bitmap, preinit, init_ex, get_max_element_count}
use hall.Bitmap.Bits.{IsByte, bit, IsValid}
use hall.Bitmap.Range.{in_range}
use hall.Bitmap.Init.{preinited, init_lem}
use hall.Pmm.{
  PmmData, MemoryMapEntry, reserve_memory_ex, release_memory, release_round, release_loop,
  initialize_allocation_bitmap,
}
use hall.Pmm.Reserve.{with_buffer, reserved, frames, reserve_lem}
use hall.Pmm.Release.{release_lem}
use hall.Pmm.Limits.{is_usable}

-- Usable memory that does not begin under 1 MB.
abbrev pub is_released : MemoryMapEntry → Bool
is_released e = is_usable e && leb mb_size e.base_address

-- The frame lies inside the entry.
abbrev pub holds_frame : MemoryMapEntry → ℕ → Bool
holds_frame e f =
    leb e.base_address (f * page_size) && leb (f * page_size + page_size) (e.base_address + e.size)

unfoldable pub covered : List MemoryMapEntry → ℕ → Bool
covered [] f = false
covered (e ∷ entries) f = is_released e && holds_frame e f || covered entries f

-- An entry to release begins on a page, inside the bitmap, and ends by the page after it.
abbrev pub FitsFrames : ℕ → MemoryMapEntry → Type 0
FitsFrames n e =
    is_released e ≡ true
    → (e.base_address % page_size ≡ 0)
      × (e.base_address / page_size < n)
      × (e.base_address + e.size < (n + 1) * page_size)

pub release_round-skip :
    (pmm : PmmData) (e : MemoryMapEntry) → is_released e ≡ false → release_round pmm e ≡ some pmm
unfolding release_round
release_round-skip pmm e h = ground arith

release_round-release :
    (pmm : PmmData) (e : MemoryMapEntry)
    → is_released e ≡ true
    → e.base_address % page_size ≡ 0
    → e.base_address + e.size < u32_mod * page_size
    → release_round pmm e
      ≡ release_memory pmm (e.base_address / page_size * page_size) (e.size / page_size)
unfolding release_round
release_round-release pmm e h aligned small =
    let same : align_upper e.base_address page_size ≡ e.base_address / page_size * page_size =
      omega arith in
    ground (arith, same)

page_range :
    (e : MemoryMapEntry) (f : ℕ)
    → e.base_address % page_size ≡ 0
    → is_released e ≡ true
    → in_range (e.base_address / page_size) (e.size / page_size) f
      ≡ is_released e && holds_frame e f
page_range e f aligned released = rw released (ground arith)

release_round_lem :
    (pmm : PmmData) (e : MemoryMapEntry)
    → IsValid pmm.allocation_bitmap
    → FitsFrames (frames pmm) e
    → (after : List ℕ) × (release_round pmm e ≡ some (with_buffer pmm after))
      × ((f : ℕ)
          → bit after f ≡ (if is_released e && holds_frame e f then false else reserved pmm f))
      × IsValid (with_buffer pmm after).allocation_bitmap
release_round_lem pmm e v fits = elim (Bool-cases (is_released e)) [
  | inr skipped ↦ (
    pmm.allocation_bitmap.buffer,
    release_round-skip pmm e skipped,
    λ f. ground (arith, skipped),
    v,
  )
  | inl released ↦
      let (aligned, below, ends) = fits released in
      let (after, run, bits, valid) =
        release_lem pmm (e.base_address / page_size) (e.size / page_size) v below (omega arith) in
      (
        after,
        release_round-release pmm e released aligned (omega (arith, v.small)) ∙ run,
        λ f.
            bits f
            ∙ ap (λ t. if t then false else reserved pmm f) (page_range e f aligned released),
        valid,
      )
]

release_loop_lem :
    (pmm : PmmData) (entries : List MemoryMapEntry)
    → IsValid pmm.allocation_bitmap
    → All (FitsFrames (frames pmm)) entries
    → (after : List ℕ) × (release_loop pmm entries ≡ some (with_buffer pmm after))
      × ((f : ℕ) → bit after f ≡ (if covered entries f then false else reserved pmm f))
      × IsValid (with_buffer pmm after).allocation_bitmap
unfolding release_loop covered
release_loop_lem pmm [] v fits = (pmm.allocation_bitmap.buffer, refl, λ f. refl, v)
release_loop_lem pmm (e ∷ entries) v fits =
    let (mid, run, bits, valid) = release_round_lem pmm e v fits.0 in
    let (after, run', bits', valid') =
      release_loop_lem (with_buffer pmm mid) entries valid fits.1 in
    (after, rw run run', λ f. ground (arith, bits f, bits' f), valid')

-- Reserving as many frames as the bitmap has, while all are free, reserves them all.
reserve_all :
    (pmm : PmmData)
    → IsValid pmm.allocation_bitmap
    → 0 < frames pmm
    → ((f : ℕ) → f < frames pmm → reserved pmm f ≡ false)
    → (after : List ℕ) × (reserve_memory_ex pmm (frames pmm) 0 ≡ some (0, with_buffer pmm after))
      × ((f : ℕ) → f < frames pmm → bit after f ≡ true)
      × IsValid (with_buffer pmm after).allocation_bitmap
reserve_all pmm v some_frames free =
    elim (reserve_lem pmm (frames pmm) 0 v some_frames (omega arith) (omega arith)) [
      | inl (r, after, g) ↦
          let zero_first : r ≡ 0 = omega (arith, g.inside) in
          (
            after,
            g.returned ∙ ap (λ t. some (t * page_size, with_buffer pmm after)) zero_first,
            λ f h. ground (arith, g.bits f, zero_first),
            g.valid,
          )
      | inr (null, nothing) ↦
          absurd (nothing 0 (omega arith) (omega arith) (λ f lo hi. free f (omega arith)))
    ]

initialize-run :
    (pmm reserved' released : PmmData) (memory : List ℕ) (highest size addr : ℕ)
    (entries : List MemoryMapEntry) (bm bm' : Bitmap)
    → page_size ≤ highest
    → highest / page_size ≤ max_dword
    → preinit (highest / page_size) ≡ some (size, bm)
    → init_ex bm memory false ≡ some bm'
    → reserve_memory_ex (record pmm { allocation_bitmap = bm' }) bm'.bit_count 0
      ≡ some (addr, reserved')
    → release_loop reserved' entries ≡ some released
    → initialize_allocation_bitmap pmm memory highest entries ≡ some (size, released)
unfolding initialize_allocation_bitmap get_max_element_count
initialize-run pmm reserved' released memory highest size addr entries bm bm' lo hi p q r t =
    ground arith

-- The state with a bitmap of `n` frames in a buffer
abbrev pub booted : PmmData → ℕ → List ℕ → PmmData
booted pmm n buffer = record pmm { allocation_bitmap = record (preinited n) { buffer = buffer } }

-- Before it releases the entries of the map, the call has reserved every frame.
pub initialize-reserved :
    (pmm : PmmData) (memory : List ℕ) (highest : ℕ) (entries : List MemoryMapEntry)
    → page_size ≤ highest
    → highest / page_size ≤ max_dword
    → All IsByte memory
    → (highest / page_size + 7) / 8 ≤ length memory
    → (full : List ℕ) × IsValid (booted pmm (highest / page_size) full).allocation_bitmap
      × ((f : ℕ) → f < highest / page_size → bit full f ≡ true)
      × ((released : PmmData)
          → release_loop (booted pmm (highest / page_size) full) entries ≡ some released
          → initialize_allocation_bitmap pmm memory highest entries
            ≡ some ((highest / page_size + 7) / 8, released))
initialize-reserved pmm memory highest entries lo hi bytes room =
    let n = highest / page_size in
    let (fresh, run, run', clear, valid) =
      init_lem n memory false (omega arith) (omega arith) bytes room in
    let (full, run'', all_set, valid') =
      reserve_all (booted pmm n fresh) valid (omega arith) clear in
    (
      full,
      valid',
      all_set,
      λ released run3.
          initialize-run pmm (booted pmm n full) released memory highest ((n + 7) / 8) 0 entries
            (preinited n) (record (preinited n) { buffer = fresh }) lo hi run run' run'' run3,
    )

-- For a memory map whose highest address covers at least one frame and at most MAX_DWORD frames, a
-- buffer with a bit for each frame, and entries of usable memory from 1 MB on that begin on a page
-- and inside the bitmap and end by the highest frame's successor,
-- _PmmInitializeAllocationBitmap returns. A frame is then free exactly if it lies inside one of
-- these entries; all others, those under 1 MB included, are reserved.
pub initialize_allocation_bitmap_lem :
    (pmm : PmmData) (memory : List ℕ) (highest : ℕ) (entries : List MemoryMapEntry)
    → page_size ≤ highest
    → highest / page_size ≤ max_dword
    → All IsByte memory
    → (highest / page_size + 7) / 8 ≤ length memory
    → All (FitsFrames (highest / page_size)) entries
    → (after : PmmData) × (initialize_allocation_bitmap pmm memory highest entries
        ≡ some ((highest / page_size + 7) / 8, after))
      × (frames after ≡ highest / page_size)
      × ((f : ℕ) → f < highest / page_size → reserved after f ≡ not (covered entries f))
      × IsValid after.allocation_bitmap
initialize_allocation_bitmap_lem pmm memory highest entries lo hi bytes room fits =
    let (full, valid, all_set, finish) =
      initialize-reserved pmm memory highest entries lo hi bytes room in
    let (last, run, bits, valid') =
      release_loop_lem (booted pmm (highest / page_size) full) entries valid fits in
    (
      booted pmm (highest / page_size) last,
      finish (booted pmm (highest / page_size) last) run,
      refl,
      λ f h. ground (arith, bits f, all_set f h),
      valid',
    )
