-- ===== src/Pmm/Release.antt =====
-- PmmReleaseMemory, and that it undoes PmmReserveMemoryEx.
use hall.Prelude.{
  ℕ, ◌+◌, ◌*◌, ◌/◌, ◌%◌, ◌≤◌, ◌<◌, ◌≡◌, false, some, List, arith, if◌then◌else◌, max_dword,
  page_size,
}
use hall.Bitmap.{set_bits_value}
use hall.Bitmap.Bits.{bit, IsValid}
use hall.Bitmap.Range.{in_range, set_bits_value_lem}
use hall.Pmm.{PmmData, release_memory}
use hall.Pmm.Reserve.{with_buffer, reserved, frames, Granted}

release-run :
    (pmm : PmmData) (r n : ℕ) {after : List ℕ}
    → r ≤ max_dword
    → set_bits_value pmm.allocation_bitmap r n false
      ≡ some (record pmm.allocation_bitmap { buffer = after })
    → release_memory pmm (r * page_size) n ≡ some (with_buffer pmm after)
unfolding release_memory
release-run pmm r n small run =
    let e : r * page_size / page_size ≡ r = omega arith in
    let a : r * page_size % page_size ≡ 0 = omega arith in ground (arith, run)

-- PmmReleaseMemory of a range of frames inside the bitmap returns; the frames of the range are then
-- free, and every other frame is as it was.
pub release_lem :
    (pmm : PmmData) (r n : ℕ)
    → IsValid pmm.allocation_bitmap
    → r < frames pmm
    → r + n ≤ frames pmm
    → (after : List ℕ) × (release_memory pmm (r * page_size) n ≡ some (with_buffer pmm after))
      × ((f : ℕ) → bit after f ≡ (if in_range r n f then false else reserved pmm f))
      × IsValid (with_buffer pmm after).allocation_bitmap
release_lem pmm r n v lo hi =
    let (after, run, bits, valid) = set_bits_value_lem pmm.allocation_bitmap r n false v lo hi in
    (after, release-run pmm r n (omega (arith, v.small)) run, bits, valid)

-- Releasing what PmmReserveMemoryEx granted gives every frame the state that it had before.
pub release-reserve :
    (pmm : PmmData) (n addr r : ℕ) (after : List ℕ)
    → 0 < n
    → Granted pmm n addr r after
    → (again : List ℕ) × (release_memory (with_buffer pmm after) (r * page_size) n
        ≡ some (with_buffer pmm again))
      × ((f : ℕ) → bit again f ≡ reserved pmm f)
release-reserve pmm n addr r after some_frames g =
    let (again, run, bits, valid) =
      release_lem (with_buffer pmm after) r n g.valid (omega (arith, g.inside))
        (omega (arith, g.inside)) in
    (again, run, λ f. ground (arith, bits f, g.bits f, g.free f))
