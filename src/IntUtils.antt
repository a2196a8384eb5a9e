-- ===== src/IntUtils.antt =====
-- CommonLib/src/intutils.c: a part of a QWORD, in hundredths of a percent.
mod Tests
use native.Mathlib.Nat.{le-div_iff_mul-le, mul-le-mul_left, mod-eq_of_lt}
use hall.Prelude.{
  ℕ, zero, suc, ◌+◌, ◌-◌, ◌*◌, ◌/◌, ◌%◌, ◌≤◌, ◌<◌, ◌≡◌, refl, sym, ap, ◌∙◌, subst, Bool, true,
  false, not, Option, none, some, arith, ltb, leb, ◌==◌, ==-false, le→leb, leb→le, ◌>>=◌, ◌>>◌,
  assert, assert-then, max_qword, u64_mod, Option-cases, inl, inr,
}

-- CalculatePercentage; a percentage of 0 divides by it, which faults.
unfoldable pub calculate_percentage : ℕ → ℕ → Option ℕ
calculate_percentage whole_value hundreds = do
  assert (leb hundreds 10000)
  assert (not (hundreds == 0))
  assert (leb whole_value (max_qword / hundreds))
  some (whole_value * hundreds % u64_mod / 10000)

not_zero : (n : ℕ) → not (n == 0) ≡ true → 0 < n
not_zero n h = ground arith

-- For a percentage that is neither 0 nor above the whole, and a product that fits a QWORD,
-- CalculatePercentage returns the part rounded down, which is at most the whole.
calculate_percentage_lem :
    (whole_value hundreds : ℕ)
    → 0 < hundreds
    → hundreds ≤ 10000
    → whole_value * hundreds < u64_mod
    → (part : ℕ) × (calculate_percentage whole_value hundreds ≡ some part)
      × (part * 10000 ≤ whole_value * hundreds)
      × (whole_value * hundreds < (part + 1) * 10000)
      × (part ≤ whole_value)
unfolding calculate_percentage
calculate_percentage_lem whole_value hundreds positive ratio small =
    let fits =
      (le-div_iff_mul-le {k = hundreds} {x = whole_value} {y = max_qword} positive).1
        (omega (arith, small)) in
    let most = mul-le-mul_left whole_value ratio in
    (
      whole_value * hundreds / 10000,
      rw
          (
            le→leb hundreds 10000 ratio,
            ==-false hundreds 0 (λ e. omega (arith, e, positive)),
            le→leb whole_value (max_qword / hundreds) fits,
            mod-eq_of_lt small,
          )
          refl,
      omega arith,
      omega arith,
      omega (arith, most),
    )

-- CalculatePercentage does not return where the product does not fit a QWORD.
calculate_percentage_overflow :
    (whole_value hundreds : ℕ)
    → u64_mod ≤ whole_value * hundreds
    → calculate_percentage whole_value hundreds ≡ none
unfolding calculate_percentage
calculate_percentage_overflow whole_value hundreds large =
    elim (Option-cases (calculate_percentage whole_value hundreds)) [
      | inl e ↦ e
      | inr (part, e) ↦
          let (a1, h1) = assert-then (leb hundreds 10000) _ e in
          let (a2, h2) = assert-then (not (hundreds == 0)) _ h1 in
          let (a3, h3) = assert-then (leb whole_value (max_qword / hundreds)) _ h2 in
          let fits =
            (le-div_iff_mul-le {k = hundreds} {x = whole_value} {y = max_qword}
                (not_zero hundreds a2)).0
              (leb→le whole_value (max_qword / hundreds) a3) in
          absurd (omega (arith, fits, large))
    ]
