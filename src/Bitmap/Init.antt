-- ===== src/Bitmap/Init.antt =====
-- BitmapPreinit and BitmapInitEx: the buffer that is asked for, and the bitmap that it becomes.
use hall.Prelude.{
  ℕ, zero, suc, ◌+◌, ◌*◌, ◌/◌, ◌%◌, ◌≤◌, ◌<◌, ◌≡◌, refl, Bool, true, false, some, List, [], ◌∷◌,
  arith, ltb, if◌then◌else◌, length, get_or, All, max_byte, u32_mod,
}
use hall.Memory.{memset}
use hall.Bitmap.{Bitmap, preinit, init_ex}
use hall.Bitmap.Byte.{bit_of_fill}
use hall.Bitmap.Bits.{IsByte, bit, IsValid}

record Filled (value size : ℕ) (bytes after : List ℕ) : Type 0 where
  valid : All IsByte after
  same : length after ≡ length bytes
  values : (j : ℕ) → get_or after j 0 ≡ (if ltb j size then value else get_or bytes j 0)

memset_lem :
    (bytes : List ℕ) (value size : ℕ)
    → All IsByte bytes
    → value < 256
    → size ≤ length bytes
    → (after : List ℕ) × (memset bytes value size ≡ some after) × Filled value size bytes after
unfolding memset
memset_lem bytes value zero h small room =
    (bytes, refl, record { valid = h; same = refl; values = λ j. ground arith })
memset_lem [] value (suc size) h small room = absurd (omega arith)
memset_lem (b ∷ bytes) value (suc size) h small room =
    let (after, run, f) = memset_lem bytes value size h.1 small (omega arith) in
    (
      value ∷ after,
      rw run,
      record {
        valid = (small, f.valid);
        same = omega (arith, f.same);
        values = elim [ zero ↦ ground arith | suc j ↦ ground (arith, f.values j) ];
      },
    )

-- What BitmapPreinit makes of `n` elements: no buffer yet, and a byte asked for every eight elements.
abbrev pub preinited : ℕ → Bitmap
preinited n = record { buffer = []; buffer_size = (n + 7) / 8; bit_count = n }

pub preinit_lem : (n : ℕ) → 0 < n → n < u32_mod → preinit n ≡ some ((n + 7) / 8, preinited n)
unfolding preinit
preinit_lem n some_elements small = ground arith

bit-Filled :
    (on : Bool) (size : ℕ) (bytes after : List ℕ)
    → Filled (if on then max_byte else 0) size bytes after
    → (j : ℕ) → j < 8 * size
    → bit after j ≡ on
unfolding bit
bit-Filled true size bytes after f j h =
    ground (arith, f.values (j / 8), bit_of_fill (j % 8) (omega arith))
bit-Filled false size bytes after f j h =
    ground (arith, f.values (j / 8), bit_of_fill (j % 8) (omega arith))

fill-lt : (on : Bool) → (if on then max_byte else 0) < 256
fill-lt on = ground arith

-- BitmapPreinit for at least one element asks for one byte per eight elements, rounded up. Given a
-- buffer of at least that many bytes, BitmapInitEx then makes a valid bitmap of it, in which all the
-- elements have the value.
pub init_lem :
    (n : ℕ) (memory : List ℕ) (on : Bool)
    → 0 < n
    → n < u32_mod
    → All IsByte memory
    → (n + 7) / 8 ≤ length memory
    → (bytes : List ℕ) × (preinit n ≡ some ((n + 7) / 8, preinited n))
      × (init_ex (preinited n) memory on ≡ some (record (preinited n) { buffer = bytes }))
      × ((j : ℕ) → j < n → bit bytes j ≡ on)
      × IsValid (record (preinited n) { buffer = bytes })
unfolding init_ex
init_lem n memory on some_elements small valid room =
    let (bytes, run, f) =
      memset_lem memory (if on then max_byte else 0) ((n + 7) / 8) valid (fill-lt on) room in
    (
      bytes,
      preinit_lem n some_elements small,
      rw run,
      λ j h. bit-Filled on ((n + 7) / 8) memory bytes f j (omega arith),
      record { bytes = f.valid; room = omega (arith, f.same); small = small },
    )
