-- ===== src/Bitmap/Kept.antt =====
-- Changing bits, in range or not, keeps a valid bitmap valid.
use hall.Prelude.{
  ℕ, zero, suc, ◌+◌, ◌/◌, ◌%◌, ◌<◌, ◌≡◌, refl, sym, ap, ◌∙◌, subst, Bool, some, List, [], ◌∷◌,
  arith, length, get_elem?, length-set, All, All-set, >>=-eq-some, assert-then, max_byte, u32_mod,
  if◌then◌else◌, ◌≤◌, add32, sub32, some_inj, ltb, leb,
}
use hall.Bitmap.{
  Bitmap, change_bit, change_bits_from, change_bits, set_bits_value, preinit, init_ex,
}
use hall.Bitmap.Init.{preinited, preinit_lem, init_lem}
use hall.Memory.{memset}
use hall.Bitmap.Byte.{change_byte-lt}
use hall.Bitmap.Bits.{bit, IsByte, IsValid}

pub All-get_elem? :
    {A : Type 0} (P : A → Type 0) (xs : List A) (i : ℕ) {x : A}
    → All P xs
    → get_elem? xs i ≡ some x
    → P x
All-get_elem? P [] i h e = cc
All-get_elem? P (y ∷ xs) zero h e = subst P (some_inj e) h.0
All-get_elem? P (y ∷ xs) (suc i) h e = All-get_elem? P xs i h.1 e

-- The buffer holds bytes and is as long as before.
pub record Kept (before after : List ℕ) : Type 0 where
  pub bytes : All IsByte after
  pub size : length after ≡ length before

change_bit-Kept :
    (buffer : List ℕ) (index : ℕ) (on : Bool) {after : List ℕ}
    → All IsByte buffer
    → change_bit buffer index on ≡ some after
    → Kept buffer after
unfolding change_bit
change_bit-Kept buffer index on valid h =
    let (byte, got, e) = >>=-eq-some (get_elem? buffer (index / 8)) _ h in
    subst (Kept buffer) (some_inj e) (record {
      bytes = All-set IsByte buffer (index / 8) _ valid (
          change_byte-lt on byte (index % 8) (All-get_elem? IsByte buffer (index / 8) valid got)
            (omega arith));
      size = length-set buffer (index / 8) _;
    })

change_bits_from-Kept :
    (buffer : List ℕ) (index : ℕ) (on : Bool) (i left : ℕ) {after : List ℕ}
    → All IsByte buffer
    → change_bits_from buffer index on i left ≡ some after
    → Kept buffer after
unfolding change_bits_from
change_bits_from-Kept buffer index on i zero valid h =
    subst (Kept buffer) (some_inj h) (record { bytes = valid; size = refl })
change_bits_from-Kept buffer index on i (suc left) valid h =
    let (mid, one, e) = >>=-eq-some (change_bit buffer (add32 index i) on) _ h in
    let k = change_bit-Kept buffer (add32 index i) on valid one in
    let rest = change_bits_from-Kept mid index on (i + 1) left k.bytes e in
    record { bytes = rest.bytes; size = rest.size ∙ k.size }

-- BitmapSetBitsValue, where it returns, keeps the number of elements, and the bitmap valid.
pub set_bits_value-IsValid :
    (bm : Bitmap) (index count : ℕ) (on : Bool) {after : Bitmap}
    → IsValid bm
    → set_bits_value bm index count on ≡ some after
    → IsValid after × (after.bit_count ≡ bm.bit_count)
unfolding set_bits_value change_bits
set_bits_value-IsValid bm index count on v h =
    let (a, h1) = assert-then (ltb index bm.bit_count) _ h in
    let (b, h2) = assert-then (leb index (sub32 bm.bit_count count)) _ h1 in
    let (buffer, run, e) = >>=-eq-some (change_bits_from bm.buffer index on 0 count) _ h2 in
    let k = change_bits_from-Kept bm.buffer index on 0 count v.bytes run in
    subst (λ bm'. IsValid bm' × (bm'.bit_count ≡ bm.bit_count)) (some_inj e)
      (record { bytes = k.bytes; room = omega (arith, v.room, k.size); small = v.small }, refl)

memset-room :
    (bytes : List ℕ) (value size : ℕ) {after : List ℕ}
    → memset bytes value size ≡ some after
    → size ≤ length bytes
unfolding memset
memset-room bytes value zero h = omega arith
memset-room [] value (suc size) h = cc
memset-room (b ∷ bytes) value (suc size) h =
    let (rest, run, e) = >>=-eq-some (memset bytes value size) _ h in
    omega (arith, memset-room bytes value size run)

-- BitmapPreinit and BitmapInitEx, where they return, make a valid bitmap with `n` elements
-- that all have the value.
pub init-IsValid :
    (n : ℕ) (memory : List ℕ) (on : Bool) {prepared : ℕ × Bitmap} {after : Bitmap}
    → 0 < n
    → n < u32_mod
    → All IsByte memory
    → preinit n ≡ some prepared
    → init_ex prepared.1 memory on ≡ some after
    → IsValid after × (after.bit_count ≡ n) × ((j : ℕ) → j < n → bit after.buffer j ≡ on)
unfolding init_ex
init-IsValid n memory on some_elements small valid p h =
    let same = some_inj (sym p ∙ preinit_lem n some_elements small) in
    let h' : init_ex (preinited n) memory on ≡ some _ =
      ap (λ q. init_ex q.1 memory on) (sym same) ∙ h in
    let (bytes, run, e) =
      >>=-eq-some (memset memory (if on then max_byte else 0) ((n + 7) / 8)) _ h' in
    let room = memset-room memory (if on then max_byte else 0) ((n + 7) / 8) run in
    let made = init_lem n memory on some_elements small valid room in
    subst (λ bm. IsValid bm × (bm.bit_count ≡ n) × ((j : ℕ) → j < n → bit bm.buffer j ≡ on))
      (some_inj (sym made.2 ∙ h')) (made.4, refl, made.3)
