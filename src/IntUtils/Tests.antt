-- ===== src/IntUtils/Tests.antt =====
-- CalculatePercentage on concrete numbers.
use hall.Prelude.{◌≡◌, refl, some}
use hall.IntUtils.{calculate_percentage}

fifth_test : calculate_percentage 0xa000 2000 ≡ some 0x2000
unfolding calculate_percentage
fifth_test = refl
