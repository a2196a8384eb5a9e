-- ===== src/StrUtils.antt =====
-- CommonLib/src/strutils.c: conversion between numbers and text. A number is the pattern of the 64
-- bits at its address, of which a conversion of 32 bits reads the low half; text is the list of the
-- bytes up to and without the terminating NUL.
pub mod Swap
pub mod Reverse
pub mod Digits
pub mod RoundTrip
pub mod Refusal
mod Tests
use Prim.Native.Nat.{bit_xor}
use hall.Prelude.{
  ℕ, zero, suc, ◌+◌, ◌-◌, ◌*◌, ◌/◌, ◌%◌, ◌^◌, bit_or, Bool, true, false, not, ◌&&◌, ◌||◌, Option,
  none, some, List, [], ◌∷◌, ◌++◌, ltb, leb, ◌==◌, if◌then◌else◌, ◌>>=◌, ◌>>◌, assert, length,
  get_elem?, set, u32_mod, u64_mod, max_byte, max_dword,
}

-- The INT32 or INT64 at the address is negative.
abbrev pub is_negative : ℕ → Bool → Bool → Bool
is_negative bits signed_value is_64_bit =
    signed_value
    && (if is_64_bit then leb (2 ^ 63) (bits % u64_mod) else leb (2 ^ 31) (bits % u32_mod))

-- An int, negated as such and converted to a QWORD: the sign of the negated int is extended.
abbrev pub negate32 : ℕ → ℕ
negate32 bits =
    let negated = (u32_mod - bits % u32_mod) % u32_mod in
    if leb (2 ^ 31) negated then negated + (u64_mod - u32_mod) else negated

-- The local `value` of itoa.
abbrev pub magnitude : ℕ → Bool → Bool → ℕ
magnitude bits negative is_64_bit =
    if is_64_bit
    then (if negative then (u64_mod - bits % u64_mod) % u64_mod else bits % u64_mod)
    else (if negative then negate32 bits else bits % u32_mod)

-- `digit` is an int: the remainders from 2^31 on are negative and not above 9.
unfoldable pub digit_char : ℕ → ℕ
digit_char digit =
    if ltb 9 digit && ltb digit (2 ^ 31) then (digit - 10 + b'A') % 256 else (digit + b'0') % 256

-- The loop over the digits, with fuel; the buffer holds what is written so far.
unfoldable pub digits_loop : ℕ → ℕ → ℕ → List ℕ → Option (List ℕ)
digits_loop zero value base buffer = none
digits_loop (suc fuel) value base buffer =
    let rest = digits_loop fuel (value / base) base (buffer ++ (digit_char (value % base) ∷ [])) in
    if value == 0 then some buffer else rest

-- swap: the two bytes after the three exclusive ors.
unfoldable pub swap : ℕ → ℕ → ℕ × ℕ
swap a b = let a1 = bit_xor a b in let b1 = bit_xor b a1 in let a2 = bit_xor a1 b1 in (a2, b1)

-- The loop that reverses the text, with the rounds left; `index` is its length.
unfoldable pub reverse_loop : List ℕ → ℕ → ℕ → ℕ → Option (List ℕ)
reverse_loop buffer index i zero = some buffer
reverse_loop buffer index i (suc left) = do
  a ← get_elem? buffer i
  b ← get_elem? buffer (index - i - 1)
  reverse_loop (set (set buffer i (swap a b).0) (index - i - 1) (swap a b).1) index (i + 1) left

-- The rounds of the digit loop that suffice for 64 bits in any base from 2 on.
abbrev pub itoa_fuel : ℕ
itoa_fuel = 65

-- itoa
unfoldable pub itoa : ℕ → Bool → ℕ → Bool → Option (List ℕ)
itoa bits signed_value base is_64_bit = do
  assert (not (base == 0))
  let negative = is_negative bits signed_value is_64_bit
  let value = magnitude bits negative is_64_bit
  digits ← digits_loop itoa_fuel value base (if value == 0 then b'0' ∷ [] else [])
  let buffer = if negative then digits ++ (b'-' ∷ []) else digits
  reverse_loop buffer (length buffer) 0 (length buffer / 2)

-- isascii and tolower
abbrev pub is_ascii : ℕ → Bool
is_ascii c = ltb 0x1f c && ltb c 0x80

abbrev pub to_lower : ℕ → ℕ
to_lower c = bit_or c (b'a' - b'A')

-- `currentCharValue`
unfoldable pub char_value : ℕ → ℕ
char_value c =
    let l = to_lower c in
    if leb b'0' l && leb l b'9'
    then l - b'0'
    else if leb b'a' l && leb l b'z'
    then l - b'a' + 10
    else max_byte

-- The loop of atoi over the text that is left.
unfoldable pub parse_loop : ℕ → ℕ → List ℕ → Option ℕ
parse_loop base value [] = some value
parse_loop base value (c ∷ text) =
    assert (is_ascii c)
    >> (assert (ltb (char_value c) base)
        >> parse_loop base ((value * base + char_value c) % u64_mod) text)

-- What atoi stores.
unfoldable pub store_value : Bool → Bool → ℕ → Option ℕ
store_value negative is_64_bit value =
    let signed = if negative then (u64_mod - value) % u64_mod else value in
    if is_64_bit
    then some signed
    else assert (negative || leb signed max_dword) >> some (signed % u32_mod)

-- atoi: the DWORD or QWORD that is stored.
unfoldable pub atoi : List ℕ → ℕ → Bool → Option ℕ
atoi [] base is_64_bit = assert (not (base == 0)) >> store_value false is_64_bit 0
atoi (c ∷ text) base is_64_bit =
    assert (not (base == 0))
    >> (parse_loop base 0 (if c == b'-' then text else c ∷ text) >>= λ value.
        store_value (c == b'-') is_64_bit value)
