-- ===== src/StrUtils/Tests.antt =====
-- The conversions on concrete numbers and texts.
use hall.Prelude.{ℕ, ◌-◌, ◌^◌, ◌≡◌, refl, true, false, none, some, List, [], ◌∷◌, arith, ◌>>=◌}
use hall.StrUtils.{
  itoa, atoi, digits_loop, parse_loop, swap, digit_char, char_value, reverse_loop, store_value,
}
use hall.StrUtils.RoundTrip.{atoi-itoa, itoa_least_int}
use hall.StrUtils.Refusal.{base_one_never_ends}

itoa_test : itoa 0xfffffff6 true 10 false ≡ some (b'-' ∷ (b'1' ∷ (b'0' ∷ [])))
unfolding itoa digits_loop digit_char reverse_loop swap
itoa_test = refl

itoa_hex_test : itoa 0x1f false 16 true ≡ some (b'1' ∷ (b'F' ∷ []))
unfolding itoa digits_loop digit_char reverse_loop swap
itoa_hex_test = refl

atoi_test : atoi (b'-' ∷ (b'1' ∷ (b'0' ∷ []))) 10 false ≡ some 0xfffffff6
unfolding atoi parse_loop char_value store_value
atoi_test = refl

atoi-itoa_example : (itoa 0xfffffff6 true 10 false >>= λ text. atoi text 10 false) ≡ some 0xfffffff6
atoi-itoa_example = atoi-itoa 0xfffffff6 10 true false (omega arith) (omega arith) (omega arith)

itoa_least_int_example :
    (text : List ℕ) × (itoa (2 ^ 31) true 10 false ≡ some (b'-' ∷ text))
    × (parse_loop 10 0 text ≡ some (2 ^ 64 - 2 ^ 31))
itoa_least_int_example = itoa_least_int 10 (omega arith) (omega arith)

base_one_never_ends_example : digits_loop 100 5 1 [] ≡ none
base_one_never_ends_example = base_one_never_ends 100 5 [] (λ e. omega (arith, e))
