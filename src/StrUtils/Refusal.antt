-- ===== src/StrUtils/Refusal.antt =====
-- What itoa and atoi do not accept.
use hall.Prelude.{
  ℕ, zero, suc, ◌+◌, ◌*◌, ◌/◌, ◌%◌, ◌≡◌, ◌≢◌, refl, ◌∙◌, Bool, true, false, not, ◌&&◌, Option, none,
  List, [], ◌∷◌, ◌++◌, arith, ltb, ◌==◌, ==-false, Bool-cases, inl, inr, ◌>>=◌, ◌>>◌, assert,
  >>=-none, u64_mod,
}
use hall.StrUtils.{digits_loop, digit_char, is_ascii, parse_loop, atoi, char_value, char_value}
use hall.StrUtils.Digits.{parse_loop-append}

-- With base 1 the digit loop of a number other than 0 never ends, whatever the fuel.
pub base_one_never_ends :
    (fuel value : ℕ) (buffer : List ℕ) → value ≢ 0 → digits_loop fuel value 1 buffer ≡ none
unfolding digits_loop
base_one_never_ends zero value buffer h = refl
base_one_never_ends (suc fuel) value buffer h = rw (==-false value 0 h) (
    base_one_never_ends fuel (value / 1) (buffer ++ (digit_char (value % 1) ∷ []))
      (λ e. h (omega (arith, e))))

refused :
    {A : Type 0} (a b : Bool) (m : Option A)
    → (a && b) ≡ false
    → (assert a >> (assert b >> m)) ≡ none
refused true true m h = cc
refused true false m h = refl
refused false b m h = refl

parse_loop-bad :
    (base start c : ℕ) (text more : List ℕ)
    → (is_ascii c && ltb (char_value c) base) ≡ false
    → parse_loop base start (text ++ (c ∷ more)) ≡ none
unfolding parse_loop
parse_loop-bad base start c text more h =
    parse_loop-append base start text (c ∷ more)
    ∙ (λ i. parse_loop base start text >>= λ v.
        refused (is_ascii c) (ltb (char_value c) base)
          (parse_loop base ((v * base + char_value c) % u64_mod) more) h i)
    ∙ >>=-none (parse_loop base start text)

-- atoi returns nothing on a text that has, behind its first character, one that is not ASCII or is
-- no digit of the base.
pub atoi_refuses :
    (base first c : ℕ) (text more : List ℕ) (wide : Bool)
    → (is_ascii c && ltb (char_value c) base) ≡ false
    → atoi (first ∷ (text ++ (c ∷ more))) base wide ≡ none
unfolding atoi
atoi_refuses base first c text more wide h = elim (Bool-cases (first == b'-')) [
  | inl e ↦ rw (e, parse_loop-bad base 0 c text more h) (>>=-none (assert (not (base == 0))))
  | inr e ↦
      rw (e, parse_loop-bad base 0 c (first ∷ text) more h) (>>=-none (assert (not (base == 0))))
]
