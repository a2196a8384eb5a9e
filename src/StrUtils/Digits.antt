-- ===== src/StrUtils/Digits.antt =====
-- The digits that itoa writes, as atoi reads them back.
use native.Mathlib.Nat.{div-add-mod', mod-eq_of_lt, mod-lt, mul-le-mul_left}
use mathlib.Core.List.{reverse, reverse-cons, append_assoc, append-nil}
use hall.Prelude.{
  ℕ, zero, suc, ◌+◌, ◌*◌, ◌/◌, ◌%◌, ◌^◌, ◌≤◌, ◌<◌, ◌≡◌, ◌≢◌, refl, sym, ap, ◌∙◌, subst, Bool, true,
  not, ◌&&◌, some, List, [], ◌∷◌, ◌++◌, arith, ltb, ◌==◌, ==_iff, Bool-cases, inl, inr, lt→ltb,
  ℕ_discrete, ◌>>=◌, ◌>>◌, >>=-assoc, assert, All, u64_mod, passes_under, passes_at, and_parts,
}
use hall.StrUtils.{digit_char, digits_loop, is_ascii, char_value, parse_loop}
use hall.StrUtils.Reverse.{IsByte, All-append}

abbrev reads_back : ℕ → Bool
reads_back d =
    is_ascii (digit_char d) && (char_value (digit_char d) == d && not (digit_char d == b'-'))

reads_back-table : passes_under reads_back 36 ≡ true
unfolding passes_under digit_char char_value
reads_back-table = refl

not-true→≢ : (a b : ℕ) → not (a == b) ≡ true → a ≢ b
not-true→≢ a b h e = ground arith

-- What one character of a text must be for atoi to read it as the digit `d`.
abbrev pub IsDigit : ℕ → ℕ → Type 0
IsDigit c d = (is_ascii c ≡ true) × (char_value c ≡ d) × (c ≢ b'-')

-- Below base 36 a digit's character is one that atoi reads as the digit.
pub digit_char-IsDigit : (d : ℕ) → d < 36 → IsDigit (digit_char d) d
digit_char-IsDigit d h =
    let all =
      and_parts (is_ascii (digit_char d))
        (char_value (digit_char d) == d && not (digit_char d == b'-'))
        (passes_at reads_back 36 reads_back-table d h) in
    let rest = and_parts (char_value (digit_char d) == d) (not (digit_char d == b'-')) (all.1) in
    (
      all.0,
      (==_iff (char_value (digit_char d)) d).0 (rest.0),
      not-true→≢ (digit_char d) b'-' (rest.1),
    )

is_ascii-IsByte : (c : ℕ) → is_ascii c ≡ true → IsByte c
is_ascii-IsByte c h = ground arith

pub parse_loop-append :
    (base value : ℕ) (text more : List ℕ)
    → parse_loop base value (text ++ more)
      ≡ (parse_loop base value text >>= λ v. parse_loop base v more)
unfolding parse_loop
parse_loop-append base value [] more = refl
parse_loop-append base value (c ∷ text) more =
    let onward = λ (v : ℕ). parse_loop base v more in
    let value' = (value * base + char_value c) % u64_mod in
    let rest = assert (ltb (char_value c) base) >> parse_loop base value' text in
    ap (λ r. assert (is_ascii c) >> (assert (ltb (char_value c) base) >> r))
      (parse_loop-append base value' text more)
    ∙ ap (λ r. assert (is_ascii c) >> r)
        (sym
          (>>=-assoc (assert (ltb (char_value c) base)) (λ _. parse_loop base value' text) onward))
    ∙ sym (>>=-assoc (assert (is_ascii c)) (λ _. rest) onward)

-- One digit more.
pub parse_loop-digit :
    (base value c d : ℕ)
    → IsDigit c d
    → d < base
    → value * base + d < u64_mod
    → parse_loop base value (c ∷ []) ≡ some (value * base + d)
unfolding parse_loop
parse_loop-digit base value c d hc hd h =
    rw (hc.0, hc.1, lt→ltb d base hd) (ap some (mod-eq_of_lt h))

-- One round of the digit loop strips the last digit.
module _ (value base : ℕ) (low : 2 ≤ base) where
  pub quotient-below : {bound : ℕ} → value < bound → value / base < bound
  quotient-below h =
      let back = div-add-mod' value base in
      let twice = mul-le-mul_left (value / base) low in omega (arith, back, twice)

  pub quotient-smaller : (n : ℕ) → value < 2 ^ suc n → value / base < 2 ^ n
  quotient-smaller n h =
      let back = div-add-mod' value base in
      let twice = mul-le-mul_left (value / base) low in omega (arith, back, twice)

pub digits_loop-done :
    (fuel base : ℕ) (buffer : List ℕ) → digits_loop (suc fuel) 0 base buffer ≡ some buffer
unfolding digits_loop
digits_loop-done fuel base buffer = refl

digits_loop-round :
    (fuel value base : ℕ) (buffer : List ℕ)
    → value ≢ 0
    → digits_loop (suc fuel) value base buffer
      ≡ digits_loop fuel (value / base) base (buffer ++ (digit_char (value % base) ∷ []))
unfolding digits_loop
digits_loop-round fuel value base buffer h = elim (Bool-cases (value == 0)) [
  | inl e ↦ absurd (h ((==_iff value 0).0 e))
  | inr e ↦ rw e refl
]

-- A character that is not the sign.
abbrev pub IsPlain : ℕ → Type 0
IsPlain c = IsByte c × (c ≢ b'-')

IsDigit-IsPlain : (c d : ℕ) → IsDigit c d → IsPlain c
IsDigit-IsPlain c d h = (is_ascii-IsByte c (h.0), h.2)

pub All-reverse {ℓ κ} : {A : Type ℓ} (P : A → Type κ) (xs : List A) → All P xs → All P (reverse xs)
All-reverse P [] h = tt
All-reverse P (x ∷ xs) h =
    subst (All P) (sym (reverse-cons x xs))
      (All-append P (reverse xs) (x ∷ []) (All-reverse P xs h.1) (h.0, tt))

-- The digits of a number, the last one first: the loop returns them behind what is written, and
-- atoi reads the number back from them.
pub record Digits (value base fuel : ℕ) : Type 0 where
  pub digits : List ℕ
  pub written : (buffer : List ℕ) → digits_loop fuel value base buffer ≡ some (buffer ++ digits)
  pub plain : All IsPlain digits
  pub read : parse_loop base 0 (reverse digits) ≡ some value

module _ (base : ℕ) (low : 2 ≤ base) (high : base ≤ 36) where
  no-Digits : (value n : ℕ) → value ≡ 0 → Digits value base (suc n)
  unfolding parse_loop
  no-Digits value n h = record {
    digits = [];
    written = λ buffer.
        ap (λ v. digits_loop (suc n) v base buffer) h
        ∙ digits_loop-done n base buffer
        ∙ ap some (sym (append-nil buffer));
    plain = tt;
    read = ap some (sym h);
  }

  more-Digits :
      (value n : ℕ)
      → value ≢ 0
      → value < u64_mod
      → Digits (value / base) base n
      → Digits value base (suc n)
  more-Digits value n positive bound rest =
      let d = value % base in
      let small : d < base = mod-lt value (omega arith) in
      let digit : IsDigit (digit_char d) d = digit_char-IsDigit d (omega arith) in
      let back = div-add-mod' value base in
      let exact : some (value / base * base + d) ≡ some value = ap some back in
      record {
        digits = digit_char d ∷ rest.digits;
        written = λ buffer.
            digits_loop-round n value base buffer positive
            ∙ rest.written (buffer ++ (digit_char d ∷ []))
            ∙ ap some (append_assoc buffer (digit_char d ∷ []) rest.digits);
        plain = (IsDigit-IsPlain (digit_char d) d digit, rest.plain);
        read =
            ap (parse_loop base 0) (reverse-cons (digit_char d) rest.digits)
            ∙ parse_loop-append base 0 (reverse rest.digits) (digit_char d ∷ [])
            ∙ ap (λ r. r >>= λ v. parse_loop base v (digit_char d ∷ [])) rest.read
            ∙ parse_loop-digit base (value / base) (digit_char d) d digit small
                (omega (arith, back))
            ∙ exact;
      }

  pub some-Digits : (n value : ℕ) → value < 2 ^ n → value < u64_mod → Digits value base (suc n)
  some-Digits zero value fits bound = no-Digits value zero (omega arith)
  some-Digits (suc n) value fits bound = elim (ℕ_discrete value 0) [
    | yes h ↦ no-Digits value (suc n) h
    | no h ↦ more-Digits value (suc n) h bound (
        some-Digits n (value / base) (quotient-smaller value base low n fits)
          (quotient-below value base low bound))
  ]
