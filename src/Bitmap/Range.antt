-- ===== src/Bitmap/Range.antt =====
-- _BitmapChangeBits and BitmapSetBitsValue: a range of bits, and the range check that a count past
-- the end of the bitmap gets through.
use hall.Prelude.{
  ℕ, zero, suc, ◌+◌, ◌*◌, ◌≤◌, ◌<◌, ◌≡◌, refl, Bool, ◌&&◌, ◌||◌, some, List, arith, ltb, leb, ◌==◌,
  if◌then◌else◌, lt→ltb, le→leb, length, All, add32, sub32, u32_mod,
}
use hall.Bitmap.{Bitmap, change_bits_from, change_bits, set_bit_value, set_bits_value}
use hall.Bitmap.Bits.{IsByte, bit, IsValid, Changed, change_bit_lem}

-- first ≤ j < first + count
abbrev pub in_range : ℕ → ℕ → ℕ → Bool
in_range first count j = leb first j && ltb j (first + count)

Changed-join :
    {p q r : ℕ → Bool} {on : Bool} {a b c : List ℕ}
    → Changed p on a b
    → Changed q on b c
    → ((j : ℕ) → (p j || q j) ≡ r j)
    → Changed r on a c
Changed-join {p} {q} {r} {on} {a} {b} {c} f g h = record {
  bytes = g.bytes;
  size = omega (arith, f.size, g.size);
  bits = λ j. ground (arith, f.bits j, g.bits j, h j);
}

pub change_bits_from_lem :
    (buffer : List ℕ) (index : ℕ) (on : Bool) (i left : ℕ)
    → All IsByte buffer
    → index + i + left ≤ 8 * length buffer
    → index + i + left < u32_mod
    → (after : List ℕ) × (change_bits_from buffer index on i left ≡ some after)
      × Changed (in_range (index + i) left) on buffer after
unfolding change_bits_from
change_bits_from_lem buffer index on i zero valid room small =
    (buffer, refl, record { bytes = valid; size = refl; bits = λ j. ground arith })
change_bits_from_lem buffer index on i (suc left) valid room small =
    let (mid, run, one) = change_bit_lem buffer (add32 index i) on valid (omega arith) in
    let (after, run', rest) =
      change_bits_from_lem mid index on (i + 1) left one.bytes (omega (arith, one.size))
        (omega arith) in
    (after, rw run run', Changed-join one rest (λ j. ground arith))

pub change_bits_lem :
    (buffer : List ℕ) (index : ℕ) (on : Bool) (count : ℕ)
    → All IsByte buffer
    → index + count ≤ 8 * length buffer
    → index + count < u32_mod
    → (after : List ℕ) × (change_bits buffer index on count ≡ some after)
      × Changed (in_range index count) on buffer after
unfolding change_bits
change_bits_lem buffer index on count valid room small =
    let (after, run, c) =
      change_bits_from_lem buffer index on 0 count valid (omega arith) (omega arith) in
    (after, run, record { bytes = c.bytes; size = c.size; bits = λ j. ground (arith, c.bits j) })

-- The bitmap with another buffer of the same length is valid too.
pub IsValid-Changed :
    {bm : Bitmap} {p : ℕ → Bool} {on : Bool} {after : List ℕ}
    → IsValid bm
    → Changed p on bm.buffer after
    → IsValid (record bm { buffer = after })
IsValid-Changed v c = record {
  bytes = c.bytes;
  room = omega (arith, v.room, c.size);
  small = v.small;
}

-- BitmapSetBitValue at an index of a valid bitmap returns, gives that bit the value, leaves every
-- other bit as it was, and keeps the bitmap valid.
set_bit_value_lem :
    (bm : Bitmap) (index : ℕ) (on : Bool)
    → IsValid bm
    → index < bm.bit_count
    → (after : List ℕ) × (set_bit_value bm index on ≡ some (record bm { buffer = after }))
      × ((j : ℕ) → bit after j ≡ (if j == index then on else bit bm.buffer j))
      × IsValid (record bm { buffer = after })
unfolding set_bit_value
set_bit_value_lem bm index on v h =
    let (after, run, c) = change_bit_lem bm.buffer index on v.bytes (omega (arith, v.room)) in
    (after, rw (lt→ltb _ _ h, run), c.bits, IsValid-Changed v c)

-- BitmapSetBitsValue on a range inside a valid bitmap returns, gives exactly the bits of the range
-- the value, and keeps the bitmap valid.
pub set_bits_value_lem :
    (bm : Bitmap) (index count : ℕ) (on : Bool)
    → IsValid bm
    → index < bm.bit_count
    → index + count ≤ bm.bit_count
    → (after : List ℕ) × (set_bits_value bm index count on ≡ some (record bm { buffer = after }))
      × ((j : ℕ) → bit after j ≡ (if in_range index count j then on else bit bm.buffer j))
      × IsValid (record bm { buffer = after })
unfolding set_bits_value
set_bits_value_lem bm index count on v h k =
    let (after, run, c) =
      change_bits_lem bm.buffer index on count v.bytes (omega (arith, v.room))
        (omega (arith, v.small)) in
    (
      after,
      rw (lt→ltb _ _ h, le→leb index (sub32 bm.bit_count count) (omega (arith, v.small)), run),
      c.bits,
      IsValid-Changed v c,
    )

-- The DWORD difference of the range check wraps when the count is larger than the whole bitmap:
-- BitmapSetBitsValue then lets the range through, and, where the buffer has bits to spare, also
-- changes the bit at `bit_count`, which is no element of the bitmap.
pub set_bits_value_overrun :
    (bm : Bitmap) (index count : ℕ) (on : Bool)
    → IsValid bm
    → index < bm.bit_count
    → bm.bit_count < count
    → index + count ≤ 8 * length bm.buffer
    → index + count < u32_mod
    → (after : List ℕ) × (set_bits_value bm index count on ≡ some (record bm { buffer = after }))
      × (bit after bm.bit_count ≡ on)
unfolding set_bits_value
set_bits_value_overrun bm index count on v h past room small =
    let (after, run, c) = change_bits_lem bm.buffer index on count v.bytes room small in
    (
      after,
      rw (lt→ltb _ _ h, le→leb index (sub32 bm.bit_count count) (omega arith), run),
      ground (arith, c.bits bm.bit_count),
    )
