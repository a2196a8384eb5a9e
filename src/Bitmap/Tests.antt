-- ===== src/Bitmap/Tests.antt =====
-- The bitmap on concrete inputs, and the theorems at inputs that meet their hypotheses.
use hall.Prelude.{
  ℕ, ◌≡◌, refl, true, false, none, some, List, [], ◌∷◌, ◌⊎◌, arith, max_dword, if◌then◌else◌,
}
use hall.Bitmap.{
  Bitmap, set_bits_value, scan, scan_from_to, scan_from_to_and_flip, scan_and_flip, get_bit_value,
  scan_internal, scan_loop, all_have, get_bit, change_bits, change_bits_from, change_bit,
  change_byte,
}
use hall.Bitmap.Bits.{bit, IsValid}
use hall.Bitmap.Range.{in_range, set_bits_value_lem, set_bits_value_overrun}
use hall.Bitmap.Scan.{IsFirst, NoRun, Scanned}
use hall.Bitmap.Flip.{scan_from_to_lem, scan_from_to_and_flip_lem}

-- Twelve elements, of which 0, 1 and 5 are set.
abbrev twelve : Bitmap
twelve = record { buffer = 0x23 ∷ 0 ∷ []; buffer_size = 2; bit_count = 12 }

twelve-IsValid : IsValid twelve
twelve-IsValid = record { bytes = omega arith; room = omega arith; small = omega arith }

scan_three : scan twelve 3 false ≡ some 2
unfolding scan scan_from_to scan_internal scan_loop all_have get_bit
scan_three = refl

scan_eight : scan twelve 8 false ≡ some max_dword
unfolding scan scan_from_to scan_internal scan_loop all_have get_bit
scan_eight = refl

flip_three : scan_and_flip twelve 3 false ≡ some (2, record twelve { buffer = 0x3f ∷ 0 ∷ [] })
unfolding scan_and_flip scan_from_to_and_flip scan_internal scan_loop all_have get_bit change_bits
    change_bits_from change_bit change_byte
flip_three = refl

out_of_range : get_bit_value twelve 12 ≡ none
unfolding get_bit_value
out_of_range = refl

set_bits_value_example :
    (after : List ℕ) × (set_bits_value twelve 6 5 true ≡ some (record twelve { buffer = after }))
    × ((j : ℕ) → bit after j ≡ (if in_range 6 5 j then true else bit twelve.buffer j))
    × IsValid (record twelve { buffer = after })
set_bits_value_example =
    set_bits_value_lem twelve 6 5 true twelve-IsValid (omega arith) (omega arith)

set_bits_value_overrun_example :
    (after : List ℕ) × (set_bits_value twelve 2 13 true ≡ some (record twelve { buffer = after }))
    × (bit after 12 ≡ true)
set_bits_value_overrun_example =
    set_bits_value_overrun twelve 2 13 true twelve-IsValid (omega arith) (omega arith) (omega arith)
      (omega arith)

scan_from_to_example : Scanned (scan_from_to twelve 1 12 3 false) twelve.buffer 3 false 1 10
scan_from_to_example =
    scan_from_to_lem twelve 1 12 3 false twelve-IsValid (omega arith) (omega arith) (omega arith)

scan_from_to_and_flip_example :
    ((r : ℕ) × (after : List ℕ) × (scan_from_to_and_flip twelve 1 12 3 false
        ≡ some (r, record twelve { buffer = after }))
      × IsFirst twelve.buffer 3 false 1 10 r
      × ((j : ℕ) → bit after j ≡ (if in_range r 3 j then true else bit twelve.buffer j))
      × IsValid (record twelve { buffer = after }))
    ⊎ ((scan_from_to_and_flip twelve 1 12 3 false ≡ some (max_dword, twelve))
        × NoRun twelve.buffer 3 false 1 10)
scan_from_to_and_flip_example =
    scan_from_to_and_flip_lem twelve 1 12 3 false twelve-IsValid (omega arith) (omega arith)
      (omega arith)
