-- ===== src/Bitmap/Bits.antt =====
-- A bitmap as the sequence of its bits, and what BitmapSetBitValue, BitmapSetBitsValue and the
-- initialisation do to them.
use hall.Prelude.{
  ℕ, ◌*◌, ◌/◌, ◌%◌, ◌≤◌, ◌<◌, ◌≡◌, ◌≢◌, sym, ap, Bool, false, some, List, arith, ◌==◌,
  if◌then◌else◌, length, get_or, set, length-set, get_elem?-eq-get_or, get_or-set_self,
  get_or-set_ne, All, All-set, All-get_or, ℕ_discrete, u32_mod,
}
use hall.Bitmap.{Bitmap, change_byte, change_bit, get_bit}
use hall.Bitmap.Byte.{bit_of, change_byte-lt, bit_of-change_byte}

abbrev pub IsByte : ℕ → Type 0
IsByte b = b < 256

unfoldable pub bit : List ℕ → ℕ → Bool
bit buffer i = bit_of (get_or buffer (i / 8) 0) (i % 8)

-- The buffer holds bytes, and one bit at least for each element.
pub record IsValid (bm : Bitmap) : Type 0 where
  pub bytes : All IsByte bm.buffer
  pub room : bm.bit_count ≤ 8 * length bm.buffer
  pub small : bm.bit_count < u32_mod

pub get_bit-eq :
    (buffer : List ℕ) (i : ℕ) → i < 8 * length buffer → get_bit buffer i ≡ some (bit buffer i)
unfolding get_bit bit bit_of
get_bit-eq buffer i h = rw (get_elem?-eq-get_or buffer (i / 8) 0 (omega arith))

-- `after` is `before` with the value `on` at the indices that `p` picks.
pub record Changed (p : ℕ → Bool) (on : Bool) (before after : List ℕ) : Type 0 where
  pub bytes : All IsByte after
  pub size : length after ≡ length before
  pub bits : (j : ℕ) → bit after j ≡ (if p j then on else bit before j)

different : {j i : ℕ} → j ≢ i → false ≡ (j == i)
different n = ground arith

module _ (buffer : List ℕ) (i : ℕ) (on : Bool) (valid : All IsByte buffer) where
  abbrev changed : List ℕ
  changed = set buffer (i / 8) (change_byte (get_or buffer (i / 8) 0) (i % 8) on)

  byte_ok : get_or buffer (i / 8) 0 < 256
  byte_ok = All-get_or IsByte buffer (i / 8) 0 valid (omega arith)

  changed-bits :
      i < 8 * length buffer → (j : ℕ) → bit changed j ≡ (if j == i then on else bit buffer j)
  unfolding bit
  changed-bits h j = elim (ℕ_discrete (j / 8) (i / 8)) [
    | yes e ↦
        rw
          (
            e,
            get_or-set_self buffer (i / 8) (change_byte (get_or buffer (i / 8) 0) (i % 8) on) 0
                (omega arith),
            bit_of-change_byte on (get_or buffer (i / 8) 0) (i % 8) (j % 8) byte_ok (omega arith)
                (omega arith),
          )
          (ap (λ t. if t then on else bit_of (get_or buffer (i / 8) 0) (j % 8)) (ground arith))
    | no n ↦ rw (get_or-set_ne buffer (i / 8) (j / 8) _ 0 (λ e. n (sym e))) (
        ap (λ t. if t then on else bit_of (get_or buffer (j / 8) 0) (j % 8))
          (different (λ e. n (ap (λ k. k / 8) e))))
  ]

  pub change_bit_lem :
      i < 8 * length buffer
      → (after : List ℕ) × (change_bit buffer i on ≡ some after)
        × Changed (λ j. j == i) on buffer after
  unfolding change_bit
  change_bit_lem h = (
    changed,
    rw (get_elem?-eq-get_or buffer (i / 8) 0 (omega arith)),
    record {
      bytes =
          All-set IsByte buffer (i / 8) _ valid (change_byte-lt on _ (i % 8) byte_ok (omega arith));
      size = length-set buffer (i / 8) _;
      bits = changed-bits h;
    },
  )
