-- ===== src/Bitmap/Flip.antt =====
-- BitmapScanFromTo and BitmapScanFromToAndFlip: the search, and the search that takes what it finds.
use hall.Prelude.{
  ℕ, ◌+◌, ◌-◌, ◌≤◌, ◌<◌, ◌≡◌, ◌≢◌, refl, sym, subst, ◌⊎◌, inl, inr, Bool, not, some, List, arith,
  if◌then◌else◌, max_dword,
}
use hall.Bitmap.{Bitmap, change_bits, scan_internal, scan_from_to, scan_from_to_and_flip}
use hall.Bitmap.Bits.{bit, IsValid}
use hall.Bitmap.Range.{in_range, change_bits_lem, IsValid-Changed}
use hall.Bitmap.Scan.{IsFirst, NoRun, Scanned, scan_internal_lem}

module _ (bm : Bitmap) (index first_invalid count : ℕ) (on : Bool) (v : IsValid bm)
    (some_bits : 0 < count) (order : index ≤ first_invalid)
    (inside : first_invalid ≤ bm.bit_count) where
  -- BitmapScanFromTo with bits to look for and a range inside the bitmap returns: either the first
  -- index from `index` on at which `count` bits that end by `first_invalid` have the value, or
  -- MAX_DWORD, and then there is no such index.
  pub scan_from_to_lem :
      Scanned
        (scan_from_to bm index first_invalid count on)
        bm.buffer
        count
        on
        index
        (first_invalid + 1 - count)
  unfolding scan_from_to
  scan_from_to_lem =
      let passes : scan_from_to bm index first_invalid count on
          ≡ scan_internal bm index first_invalid count on =
        ground arith in
      subst (λ t. Scanned t bm.buffer count on index (first_invalid + 1 - count)) (sym passes)
        (scan_internal_lem bm index first_invalid count on v some_bits order inside)

  module _ {r : ℕ} (scanned : scan_internal bm index first_invalid count on ≡ some r) where
    flip_nothing :
        r ≡ max_dword → scan_from_to_and_flip bm index first_invalid count on ≡ some (max_dword, bm)
    unfolding scan_from_to_and_flip
    flip_nothing e = ground (arith, scanned)

    flip_found :
        {after : List ℕ}
        → r ≢ max_dword
        → change_bits bm.buffer r (not on) count ≡ some after
        → scan_from_to_and_flip bm index first_invalid count on
          ≡ some (r, record bm { buffer = after })
    unfolding scan_from_to_and_flip
    flip_found ne run = ground (arith, scanned, run)

  -- BitmapScanFromToAndFlip with bits to look for and a range inside the bitmap returns: either the
  -- first run that BitmapScanFromTo finds, and then exactly the bits of that run are inverted and
  -- the bitmap stays valid, or MAX_DWORD, and then no run exists and the bitmap is unchanged.
  pub scan_from_to_and_flip_lem :
      ((r : ℕ) × (after : List ℕ) × (scan_from_to_and_flip bm index first_invalid count on
          ≡ some (r, record bm { buffer = after }))
        × IsFirst bm.buffer count on index (first_invalid + 1 - count) r
        × ((j : ℕ) → bit after j ≡ (if in_range r count j then not on else bit bm.buffer j))
        × IsValid (record bm { buffer = after }))
      ⊎ ((scan_from_to_and_flip bm index first_invalid count on ≡ some (max_dword, bm))
          × NoRun bm.buffer count on index (first_invalid + 1 - count))
  scan_from_to_and_flip_lem =
      elim (scan_internal_lem bm index first_invalid count on v some_bits order inside) [
        | inl (r, run, found) ↦
            let (after, run', c) =
              change_bits_lem bm.buffer r (not on) count v.bytes
                (omega (arith, found.below, v.room)) (omega (arith, found.below, v.small)) in
            inl (
              r,
              after,
              flip_found run (omega (arith, found.below, v.small)) run',
              found,
              c.bits,
              IsValid-Changed v c,
            )
        | inr (run, nothing) ↦ inr (flip_nothing run refl, nothing)
      ]
