-- ===== src/Pmm/Reserve.antt =====
-- PmmReserveMemoryEx: what is handed out, and when nothing is.
use hall.Prelude.{
  ℕ, ◌+◌, ◌-◌, ◌*◌, ◌/◌, ◌%◌, ◌≤◌, ◌<◌, ◌≡◌, ◌≢◌, ◌⊎◌, inl, inr, Bool, true, false, some, List,
  arith, if◌then◌else◌, max_dword, page_size, u32_mod,
}
use hall.Bitmap.{scan_from_and_flip, scan_from_to_and_flip}
use hall.Bitmap.Bits.{bit, IsValid}
use hall.Bitmap.Range.{in_range}
use hall.Bitmap.Flip.{scan_from_to_and_flip_lem}
use hall.Pmm.{PmmData, reserve_memory_ex}

-- The state with another buffer in its bitmap.
abbrev pub with_buffer : PmmData → List ℕ → PmmData
with_buffer pmm bytes = record pmm {
  allocation_bitmap = record pmm.allocation_bitmap { buffer = bytes };
}

-- Whether a frame is reserved.
abbrev pub reserved : PmmData → ℕ → Bool
reserved pmm f = bit pmm.allocation_bitmap.buffer f

-- The frames that the bitmap describes.
abbrev pub frames : PmmData → ℕ
frames pmm = pmm.allocation_bitmap.bit_count

-- PmmReserveMemoryEx refuses an empty request, an unaligned lower bound, and one past the last
-- frame: it returns NULL and changes nothing.
reserve_refused :
    (pmm : PmmData) (n addr : ℕ)
    → frames pmm < u32_mod
    → (n ≡ 0) ⊎ ((addr % page_size ≢ 0) ⊎ (frames pmm < addr / page_size))
    → reserve_memory_ex pmm n addr ≡ some (0, pmm)
unfolding reserve_memory_ex scan_from_and_flip scan_from_to_and_flip
reserve_refused pmm n addr small (inl e) = ground arith
reserve_refused pmm n addr small (inr (inl e)) = ground arith
reserve_refused pmm n addr small (inr (inr e)) = ground arith

module _ (pmm : PmmData) (n addr : ℕ) (some_frames : 0 < n) (aligned : addr % page_size ≡ 0)
    (inside : addr / page_size ≤ frames pmm) (small : frames pmm < u32_mod) where
  reserve-nothing :
      scan_from_to_and_flip pmm.allocation_bitmap (addr / page_size) (frames pmm) n false
        ≡ some (max_dword, pmm.allocation_bitmap)
      → reserve_memory_ex pmm n addr ≡ some (0, pmm)
  unfolding reserve_memory_ex scan_from_and_flip
  reserve-nothing run = ground (arith, run)

  reserve-found :
      {r : ℕ} {after : List ℕ}
      → r ≢ max_dword
      → scan_from_to_and_flip pmm.allocation_bitmap (addr / page_size) (frames pmm) n false
        ≡ some (r, record pmm.allocation_bitmap { buffer = after })
      → reserve_memory_ex pmm n addr ≡ some (r * page_size, with_buffer pmm after)
  unfolding reserve_memory_ex scan_from_and_flip
  reserve-found ne run = ground (arith, run)

-- What a call that found room has done: `n` frames from `r` on, the first such run at or above the
-- lower bound, were free and are now reserved; every other frame is as it was.
pub record Granted (pmm : PmmData) (n addr r : ℕ) (after : List ℕ) : Type 0 where
  pub returned : reserve_memory_ex pmm n addr ≡ some (r * page_size, with_buffer pmm after)
  pub above : addr ≤ r * page_size
  pub inside : r + n ≤ frames pmm
  pub free : (f : ℕ) → r ≤ f → f < r + n → reserved pmm f ≡ false
  pub first :
      (k : ℕ)
      → addr / page_size ≤ k
      → k < r
      → ¬ ((f : ℕ) → k ≤ f → f < k + n → reserved pmm f ≡ false)
  pub bits : (f : ℕ) → bit after f ≡ (if in_range r n f then true else reserved pmm f)
  pub valid : IsValid (with_buffer pmm after).allocation_bitmap

-- PmmReserveMemoryEx for a positive number of frames, at an aligned lower bound inside the bitmap,
-- returns. Either it grants the first run of free frames that long at or above the bound, or it
-- returns NULL, changes nothing, and every such run holds a reserved frame.
pub reserve_lem :
    (pmm : PmmData) (n addr : ℕ)
    → IsValid pmm.allocation_bitmap
    → 0 < n
    → addr % page_size ≡ 0
    → addr / page_size ≤ frames pmm
    → ((r : ℕ) × (after : List ℕ) × Granted pmm n addr r after)
      ⊎ ((reserve_memory_ex pmm n addr ≡ some (0, pmm))
          × ((k : ℕ)
              → addr / page_size ≤ k
              → k + n ≤ frames pmm
              → ¬ ((f : ℕ) → k ≤ f → f < k + n → reserved pmm f ≡ false)))
reserve_lem pmm n addr v some_frames aligned inside =
    elim (scan_from_to_and_flip_lem pmm.allocation_bitmap (addr / page_size) (frames pmm) n false v
      some_frames inside (omega arith)) [
        | inl (r, after, run, found, bits, valid) ↦ inl (
          r,
          after,
          record {
            returned =
                reserve-found pmm n addr some_frames aligned inside v.small
                  (omega (arith, found.below, v.small)) run;
            above = omega (arith, found.above);
            inside = omega (arith, found.below);
            free = λ f lo hi.
                let e : r + (f - r) ≡ f = omega arith in rw e at (found.run (f - r) (omega arith));
            first =
                λ k lo hi all. found.first k lo hi (λ j h. all (k + j) (omega arith) (omega arith));
            bits = bits;
            valid = valid;
          },
        )
        | inr (run, nothing) ↦ inr (
          reserve-nothing pmm n addr some_frames aligned inside v.small run,
          λ k lo hi all.
              nothing k lo (omega arith) (λ j h. all (k + j) (omega arith) (omega arith)),
        )
      ]
