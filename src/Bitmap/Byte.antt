-- ===== src/Bitmap/Byte.antt =====
-- What the bit operations on one byte do to each of its eight bits, by checking every byte.
use hall.Prelude.{
  passes_under, passes_at, and_parts, ℕ, ◌^◌, ◌<◌, ◌≡◌, refl, Bool, true, false, ◌&&◌, arith, ltb,
  ◌==◌, bool_eq, ltb→lt, if◌then◌else◌,
}
use hall.Bitmap.{change_byte, is_boolean_flag_on}

-- Whether bit `k` of a byte is set.
unfoldable pub bit_of : ℕ → ℕ → Bool
bit_of byte k = is_boolean_flag_on byte (2 ^ k)

-- The changed byte is a byte, and has the value at bit `k` and the old bits elsewhere.
abbrev changes_one : Bool → ℕ → ℕ → ℕ → Bool
changes_one on byte k j =
    ltb (change_byte byte k on) 256
    && bool_eq (bit_of (change_byte byte k on) j) (if j == k then on else bit_of byte j)

abbrev table : Bool → Bool
table on = passes_under (λ b. passes_under (λ k. passes_under (changes_one on b k) 8) 8) 256

set_table : table true ≡ true
unfolding passes_under change_byte bit_of
set_table = refl

clear_table : table false ≡ true
unfolding passes_under change_byte bit_of
clear_table = refl

table-holds : (on : Bool) → table on ≡ true
table-holds true = set_table
table-holds false = clear_table

changes_one-holds : (on : Bool) (b k j : ℕ) → b < 256 → k < 8 → j < 8 → changes_one on b k j ≡ true
changes_one-holds on b k j hb hk hj =
    passes_at (changes_one on b k) 8
      (passes_at (λ k. passes_under (changes_one on b k) 8) 8
        (passes_at (λ b. passes_under (λ k. passes_under (changes_one on b k) 8) 8) 256
          (table-holds on) b hb)
        k hk)
      j hj

bool_eq→≡ : (a b : Bool) → bool_eq a b ≡ true → a ≡ b
bool_eq→≡ true b h = ground arith
bool_eq→≡ false true h = ground arith
bool_eq→≡ false false h = refl

pub change_byte-lt : (on : Bool) (b k : ℕ) → b < 256 → k < 8 → change_byte b k on < 256
change_byte-lt on b k hb hk = ltb→lt _ _ (and_parts _ _ (changes_one-holds on b k k hb hk hk)).0

pub bit_of-change_byte :
    (on : Bool) (b k j : ℕ)
    → b < 256
    → k < 8
    → j < 8
    → bit_of (change_byte b k on) j ≡ (if j == k then on else bit_of b j)
bit_of-change_byte on b k j hb hk hj =
    bool_eq→≡ _ _ (and_parts _ _ (changes_one-holds on b k j hb hk hj)).1

abbrev filled : ℕ → Bool
filled k = bool_eq (bit_of 0 k) false && bool_eq (bit_of 255 k) true

filled-table : passes_under filled 8 ≡ true
unfolding passes_under bit_of
filled-table = refl

-- The bytes that BitmapInitEx writes.
pub bit_of_fill : (k : ℕ) → k < 8 → (bit_of 0 k ≡ false) × (bit_of 255 k ≡ true)
bit_of_fill k hk =
    let both = and_parts _ _ (passes_at filled 8 filled-table k hk) in
    (bool_eq→≡ _ _ both.0, bool_eq→≡ _ _ both.1)
