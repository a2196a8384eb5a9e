-- ===== src/Bitmap.antt =====
-- CommonLib/src/bitmap.c: a bitmap over bytes supplied by the caller.
-- A `Bitmap` stands for a PBITMAP that is not NULL; its buffer is `[]` while BitmapBuffer is NULL,
-- and an access then returns `none`, as the failed ASSERT does.
pub mod Byte
pub mod Bits
pub mod Range
pub mod Kept
pub mod Init
pub mod Scan
pub mod Flip
mod Tests
use hall.Prelude.{
  ℕ, zero, suc, ◌+◌, ◌-◌, ◌*◌, ◌/◌, ◌%◌, ◌^◌, bit_and, bit_or, Bool, true, false, not, ◌||◌, Option,
  none, some, List, [], ltb, leb, ◌==◌, bool_eq, if◌then◌else◌, ◌>>=◌, ◌>>◌, assert, get_elem?, set,
  add32, sub32, align_upper, max_byte, max_dword,
}
use hall.Memory.{memset}

pub record Bitmap : Type 0 where
  pub buffer : List ℕ
  pub buffer_size : ℕ
  pub bit_count : ℕ

-- BITMAP_ENTRY_BITS
abbrev pub entry_bits : ℕ
entry_bits = 8

abbrev zeroed : Bitmap
zeroed = record { buffer = []; buffer_size = 0; bit_count = 0 }

-- BitmapPreinit: the size of the buffer that is needed, and the bitmap.
unfoldable pub preinit : ℕ → Option (ℕ × Bitmap)
preinit number_of_elements = do
  assert (not (number_of_elements == 0))
  let size = align_upper number_of_elements entry_bits / entry_bits * 1
  some (size, record zeroed { bit_count = number_of_elements; buffer_size = size })

-- BitmapInitEx; `memory` is what `BitmapBuffer` points to.
unfoldable pub init_ex : Bitmap → List ℕ → Bool → Option Bitmap
init_ex bitmap memory on = do
  bytes ← memset memory (if on then max_byte else 0) bitmap.buffer_size
  some (record bitmap { buffer = bytes })

-- BitmapUninit
unfoldable pub uninit : Bitmap → Bitmap
uninit bitmap = zeroed

-- BitmapGetMaxElementCount
unfoldable pub get_max_element_count : Bitmap → ℕ
get_max_element_count bitmap = bitmap.bit_count

-- IsBooleanFlagOn
abbrev pub is_boolean_flag_on : ℕ → ℕ → Bool
is_boolean_flag_on x f = f == bit_and x f

-- `Byte |= 1 << bit` and `Byte &= ~(1 << bit)`
unfoldable pub change_byte : ℕ → ℕ → Bool → ℕ
change_byte byte bit_index on =
    if on then bit_or byte (2 ^ bit_index) else bit_and byte (max_byte - 2 ^ bit_index)

-- _BitmapChangeBit
unfoldable pub change_bit : List ℕ → ℕ → Bool → Option (List ℕ)
change_bit buffer index on = do
  byte ← get_elem? buffer (index / entry_bits)
  some (set buffer (index / entry_bits) (change_byte byte (index % entry_bits) on))

-- The loop of _BitmapChangeBits, with the rounds that are left.
unfoldable pub change_bits_from : List ℕ → ℕ → Bool → ℕ → ℕ → Option (List ℕ)
change_bits_from buffer index on i zero = some buffer
change_bits_from buffer index on i (suc left) = do
  buffer' ← change_bit buffer (add32 index i) on
  change_bits_from buffer' index on (i + 1) left

-- _BitmapChangeBits
unfoldable pub change_bits : List ℕ → ℕ → Bool → ℕ → Option (List ℕ)
change_bits buffer index on count = change_bits_from buffer index on 0 count

-- _BitmapGetBit
unfoldable pub get_bit : List ℕ → ℕ → Option Bool
get_bit buffer index = do
  byte ← get_elem? buffer (index / entry_bits)
  some (is_boolean_flag_on byte (2 ^ (index % entry_bits)))

-- BitmapSetBitValue
unfoldable pub set_bit_value : Bitmap → ℕ → Bool → Option Bitmap
set_bit_value bitmap index on = do
  assert (ltb index bitmap.bit_count)
  bytes ← change_bit bitmap.buffer index on
  some (record bitmap { buffer = bytes })

-- BitmapGetBitValue
unfoldable pub get_bit_value : Bitmap → ℕ → Option Bool
get_bit_value bitmap index = do assert (ltb index bitmap.bit_count); get_bit bitmap.buffer index

-- BitmapSetBitsValue; `BitCount - Count` is a DWORD difference.
unfoldable pub set_bits_value : Bitmap → ℕ → ℕ → Bool → Option Bitmap
set_bits_value bitmap index count on = do
  assert (ltb index bitmap.bit_count)
  assert (leb index (sub32 bitmap.bit_count count))
  bytes ← change_bits bitmap.buffer index on count
  some (record bitmap { buffer = bytes })

-- The inner loop of _BitmapScanInternal, from `j` on: whether the bits left all have the value.
unfoldable pub all_have : List ℕ → ℕ → Bool → ℕ → ℕ → Option Bool
all_have buffer i on j zero = some true
all_have buffer i on j (suc left) = do
  b ← get_bit buffer (add32 i j)
  elim (bool_eq on b) [ true ↦ all_have buffer i on (j + 1) left | false ↦ some false ]

-- The outer loop, with the rounds that are left.
unfoldable pub scan_loop : List ℕ → ℕ → Bool → ℕ → ℕ → Option ℕ
scan_loop buffer consecutive_bits on i zero = some max_dword
scan_loop buffer consecutive_bits on i (suc left) = do
  found ← all_have buffer i on 0 consecutive_bits
  elim found [ true ↦ some i | false ↦ scan_loop buffer consecutive_bits on (i + 1) left ]

-- _BitmapScanInternal
unfoldable pub scan_internal : Bitmap → ℕ → ℕ → ℕ → Bool → Option ℕ
scan_internal bitmap start_index first_invalid consecutive_bits on = do
  assert (not (consecutive_bits == 0))
  assert (leb start_index first_invalid)
  assert (leb first_invalid bitmap.bit_count)
  let last_index = first_invalid - consecutive_bits
  if ltb (first_invalid - start_index) consecutive_bits
      then some max_dword
      else scan_loop bitmap.buffer consecutive_bits on start_index (last_index + 1 - start_index)

-- The parameter checks of BitmapScanFromTo and BitmapScanFromToAndFlip.
abbrev pub scan_refused : Bitmap → ℕ → ℕ → ℕ → Bool
scan_refused bitmap index first_invalid consecutive_bits =
    consecutive_bits == 0 || (ltb first_invalid index || ltb bitmap.bit_count first_invalid)

-- BitmapScanFromTo
unfoldable pub scan_from_to : Bitmap → ℕ → ℕ → ℕ → Bool → Option ℕ
scan_from_to bitmap index first_invalid consecutive_bits on =
    if scan_refused bitmap index first_invalid consecutive_bits
    then some max_dword
    else scan_internal bitmap index first_invalid consecutive_bits on

-- BitmapScan
unfoldable pub scan : Bitmap → ℕ → Bool → Option ℕ
scan bitmap consecutive_bits on = scan_from_to bitmap 0 bitmap.bit_count consecutive_bits on

-- BitmapScanFrom
unfoldable pub scan_from : Bitmap → ℕ → ℕ → Bool → Option ℕ
scan_from bitmap index consecutive_bits on =
    scan_from_to bitmap index bitmap.bit_count consecutive_bits on

-- BitmapScanFromToAndFlip: the index, and the bitmap after the call.
unfoldable pub scan_from_to_and_flip : Bitmap → ℕ → ℕ → ℕ → Bool → Option (ℕ × Bitmap)
scan_from_to_and_flip bitmap index first_invalid consecutive_bits on =
    if scan_refused bitmap index first_invalid consecutive_bits
    then some (max_dword, bitmap)
    else scan_internal bitmap index first_invalid consecutive_bits on >>= λ found.
        if found == max_dword
        then some (max_dword, bitmap)
        else change_bits bitmap.buffer found (not on) consecutive_bits >>= λ bytes.
            some (found, record bitmap { buffer = bytes })

-- BitmapScanAndFlip
unfoldable pub scan_and_flip : Bitmap → ℕ → Bool → Option (ℕ × Bitmap)
scan_and_flip bitmap consecutive_bits on =
    scan_from_to_and_flip bitmap 0 bitmap.bit_count consecutive_bits on

-- BitmapScanFromAndFlip
unfoldable pub scan_from_and_flip : Bitmap → ℕ → ℕ → Bool → Option (ℕ × Bitmap)
scan_from_and_flip bitmap index consecutive_bits on =
    scan_from_to_and_flip bitmap index bitmap.bit_count consecutive_bits on
