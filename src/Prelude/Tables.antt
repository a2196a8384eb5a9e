-- ===== src/Prelude/Tables.antt =====
-- Facts that are checked by evaluation at every number under a bound.
use Prim.Native.Nat.{ℕ, zero, suc, ◌<◌}
use mathlib.Core.Path.{◌≡◌, refl}
use mathlib.Core.Bool.{Bool, true, false, ◌&&◌}
use native.Mathlib.Omega.{arith}
use native.Mathlib.Decide.{ℕ_discrete}

pub and_parts : (a b : Bool) → (a && b) ≡ true → (a ≡ true) × (b ≡ true)
and_parts true b h = (refl, h)
and_parts false b h = cc

-- The test passes at every number under the bound.
unfoldable pub passes_under : (ℕ → Bool) → ℕ → Bool
passes_under test zero = true
passes_under test (suc bound) = passes_under test bound && test bound

pub passes_at :
    (test : ℕ → Bool) (bound : ℕ)
    → passes_under test bound ≡ true
    → (k : ℕ) → k < bound
    → test k ≡ true
unfolding passes_under
passes_at test zero all k h = absurd (omega arith)
passes_at test (suc bound) all k h = elim (ℕ_discrete k bound) [
  | yes last ↦ rw last ((and_parts _ _ all).1)
  | no below ↦ passes_at test bound ((and_parts _ _ all).0) k (omega arith)
]
