-- ===== src/StrUtils/RoundTrip.antt =====
-- itoa and atoi as wholes: every conversion returns, and atoi reads back what itoa writes.
use mathlib.Core.List.{reverse, reverse-append, reverse-reverse}
use hall.Prelude.{
  ℕ, ◌-◌, ◌/◌, ◌^◌, ◌≤◌, ◌<◌, ◌≡◌, refl, sym, ap, ◌∙◌, Bool, true, false, not, some, List, [], ◌∷◌,
  ◌++◌, arith, ◌==◌, ==-false, if◌then◌else◌, ℕ_discrete, ◌>>=◌, assert, length, All, u64_mod,
  u32_mod,
}
use hall.StrUtils.{
  is_negative, magnitude, digits_loop, reverse_loop, itoa_fuel, itoa, parse_loop, store_value, atoi,
  char_value,
}
use hall.StrUtils.Reverse.{IsByte, All-append, reverse_loop_lem}
use hall.StrUtils.Digits.{IsPlain, some-Digits, parse_loop-digit, digits_loop-done, All-reverse}

pub All-weaken {ℓ κ μ} :
    {A : Type ℓ} (P : A → Type κ) (Q : A → Type μ) (xs : List A)
    → ((x : A) → P x → Q x)
    → All P xs
    → All Q xs
All-weaken P Q [] weaker h = tt
All-weaken P Q (x ∷ xs) weaker h = (weaker x h.0, All-weaken P Q xs weaker h.1)

-- What the digit loop of itoa writes for a number, which may be 0.
pub record Numeral (value base : ℕ) : Type 0 where
  pub text : List ℕ
  pub written :
      digits_loop itoa_fuel value base (if value == 0 then b'0' ∷ [] else []) ≡ some (reverse text)
  pub plain : All IsPlain text
  pub read : parse_loop base 0 text ≡ some value

zero_numeral : (value base : ℕ) → 2 ≤ base → value ≡ 0 → Numeral value base
unfolding char_value
zero_numeral value base low h = record {
  text = b'0' ∷ [];
  written =
      ap (λ v. digits_loop itoa_fuel v base (if v == 0 then b'0' ∷ [] else [])) h
      ∙ digits_loop-done 64 base (b'0' ∷ []);
  plain = ((omega arith, λ e. omega (arith, e)), tt);
  read =
      parse_loop-digit base 0 b'0' 0 (refl, refl, λ e. omega (arith, e)) (omega arith) (omega arith)
      ∙ ap some (omega (arith, h));
}

numeral : (value base : ℕ) → 2 ≤ base → base ≤ 36 → value < u64_mod → Numeral value base
numeral value base low high bound = elim (ℕ_discrete value 0) [
  | yes h ↦ zero_numeral value base low h
  | no h ↦
      let d = some-Digits base low high 64 value bound bound in
      record {
        text = reverse d.digits;
        written =
            ap (λ b. digits_loop itoa_fuel value base (if b then b'0' ∷ [] else []))
              (==-false value 0 h)
            ∙ d.written []
            ∙ ap some (sym (reverse-reverse d.digits));
        plain = All-reverse IsPlain d.digits d.plain;
        read = d.read;
      }
]

-- The text of a number: the sign, then the digits.
abbrev signed_text : Bool → List ℕ → List ℕ
signed_text negative text = if negative then b'-' ∷ text else text

base_checked : (base : ℕ) → 2 ≤ base → assert (not (base == 0)) ≡ some tt
base_checked base low = ap (λ b. assert (not b)) (==-false base 0 (λ e. omega (arith, e)))

-- The text of a number is read as its digits, with its sign.
atoi_signed :
    (base : ℕ) (text : List ℕ) (negative wide : Bool)
    → 2 ≤ base
    → All IsPlain text
    → atoi (signed_text negative text) base wide
      ≡ (parse_loop base 0 text >>= λ value. store_value negative wide value)
unfolding atoi parse_loop
atoi_signed base text true wide low plain = rw (base_checked base low) refl
atoi_signed base [] false wide low plain = rw (base_checked base low) refl
atoi_signed base (c ∷ text) false wide low plain =
    rw (base_checked base low, ==-false c b'-' (plain.0.1)) refl

module _ (text : List ℕ) (plain : All IsPlain text) where
  bytes : All IsByte text
  bytes = All-weaken IsPlain IsByte text (λ x h. h.0) plain

  reverse_signed :
      (negative : Bool)
      → let buffer = if negative then reverse text ++ (b'-' ∷ []) else reverse text in
        reverse_loop buffer (length buffer) 0 (length buffer / 2) ≡ some (signed_text negative text)
  reverse_signed false =
      reverse_loop_lem (reverse text) (All-reverse IsByte text bytes)
      ∙ ap some (reverse-reverse text)
  reverse_signed true =
      reverse_loop_lem (reverse text ++ (b'-' ∷ [])) (
        All-append IsByte (reverse text) (b'-' ∷ []) (All-reverse IsByte text bytes)
          (omega arith, tt))
      ∙ ap some (reverse-append (reverse text) (b'-' ∷ []) ∙ ap (◌∷◌ b'-') (reverse-reverse text))

store_value-magnitude :
    (bits : ℕ) (signed_value wide : Bool)
    → bits < (if wide then u64_mod else u32_mod)
    → store_value
        (is_negative bits signed_value wide)
        wide
        (magnitude bits (is_negative bits signed_value wide) wide)
      ≡ some bits
unfolding store_value
store_value-magnitude bits true true h = ground arith
store_value-magnitude bits true false h = ground arith
store_value-magnitude bits false true h = ground arith
store_value-magnitude bits false false h = ground arith

magnitude-bound : (bits : ℕ) (negative wide : Bool) → magnitude bits negative wide < u64_mod
magnitude-bound bits negative wide = ground arith

module _ (bits base : ℕ) (signed_value wide : Bool) (low : 2 ≤ base) (high : base ≤ 36) where
  abbrev negative : Bool
  negative = is_negative bits signed_value wide

  abbrev value : ℕ
  value = magnitude bits negative wide

  text_of : Numeral value base
  text_of = numeral value base low high (magnitude-bound bits negative wide)

  itoa-text : itoa bits signed_value base wide ≡ some (signed_text negative text_of.text)
  unfolding itoa
  itoa-text =
      rw (base_checked base low, text_of.written)
        (reverse_signed text_of.text text_of.plain negative)

  -- itoa returns in every base from 2 to 36: a minus sign where the number is negative, and then
  -- digits, none of them a minus sign, which the loop of atoi reads as the magnitude.
  pub itoa_lem :
      (text : List ℕ) × (itoa bits signed_value base wide
        ≡ some (if is_negative bits signed_value wide then b'-' ∷ text else text))
      × All IsPlain text
      × (parse_loop base 0 text ≡ some (magnitude bits (is_negative bits signed_value wide) wide))
  itoa_lem = (text_of.text, itoa-text, text_of.plain, text_of.read)

  -- In every base from 2 to 36, itoa of a DWORD or a QWORD returns, taken as signed or not, and
  -- atoi of its text returns that DWORD or QWORD.
  pub atoi-itoa :
      bits < (if wide then u64_mod else u32_mod)
      → (itoa bits signed_value base wide >>= λ text. atoi text base wide) ≡ some bits
  atoi-itoa bound =
      ap (λ r. r >>= λ text. atoi text base wide) itoa-text
      ∙ atoi_signed base text_of.text negative wide low text_of.plain
      ∙ ap (λ r. r >>= λ v. store_value negative wide v) text_of.read
      ∙ store_value-magnitude bits signed_value wide bound

-- itoa of a negative int other than -2^31 writes the digits of its absolute value.
pub magnitude_negative32 :
    (bits : ℕ)
    → 2 ^ 31 < bits
    → bits < u32_mod
    → magnitude bits (is_negative bits true false) false ≡ u32_mod - bits
magnitude_negative32 bits low high = ground arith

-- itoa of the least int writes a minus sign and digits that atoi's loop reads, in every base from 2
-- to 36, as 2^64 - 2^31, not as 2^31.
pub itoa_least_int :
    (base : ℕ)
    → 2 ≤ base
    → base ≤ 36
    → (text : List ℕ) × (itoa (2 ^ 31) true base false ≡ some (b'-' ∷ text))
      × (parse_loop base 0 text ≡ some (2 ^ 64 - 2 ^ 31))
itoa_least_int base low high = let r = itoa_lem (2 ^ 31) base true false low high in (r.0, r.1, r.3)
