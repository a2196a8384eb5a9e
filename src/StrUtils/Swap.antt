-- ===== src/StrUtils/Swap.antt =====
-- The in-place reversal of the text by exclusive ors.
use hall.Prelude.{
  ℕ, ◌<◌, ◌≡◌, refl, Bool, true, ◌&&◌, ◌==◌, ==_iff, passes_under, passes_at, and_parts,
}
use hall.StrUtils.{swap}

abbrev swaps : ℕ → ℕ → Bool
swaps a b = (swap a b).0 == b && (swap a b).1 == a

swap-table : passes_under (λ a. passes_under (swaps a) 256) 256 ≡ true
unfolding passes_under swap
swap-table = refl

-- On bytes, the three exclusive ors of swap exchange the two.
pub swap_lem : (a b : ℕ) → a < 256 → b < 256 → swap a b ≡ (b, a)
swap_lem a b ha hb =
    let both = and_parts ((swap a b).0 == b) ((swap a b).1 == a) (
      passes_at (swaps a) 256 (passes_at (λ a. passes_under (swaps a) 256) 256 swap-table a ha) b
        hb) in
    λ i. ((==_iff (swap a b).0 b).0 both.0 i, (==_iff (swap a b).1 a).0 both.1 i)
