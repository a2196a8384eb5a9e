-- ===== src/Prelude/Tally.antt =====
-- Sums of weights over the threads or processors of a system, one of which takes a step at a time.
use Prim.Native.Nat.{ℕ, zero, suc, ◌+◌, ◌≤◌, ◌<◌}
use mathlib.Core.Path.{◌≡◌, refl}
use mathlib.Core.Logic.{◌≢◌}
use mathlib.Core.List.{List, [], ◌∷◌}
use mathlib.Core.Option.{some}
use native.Mathlib.Omega.{arith}
use native.Mathlib.Decide.{dec_lt}
use hall.Prelude.Lists.{length, get_elem?, set, replicate}
use hall.Prelude.Outcome.{some_inj}

module _ {ℓ} {A : Type ℓ} where
  pub get_elem?-set_self :
      (xs : List A) (i : ℕ) {a : A} (v : A)
      → get_elem? xs i ≡ some a
      → get_elem? (set xs i v) i ≡ some v
  get_elem?-set_self [] i v h = cc
  get_elem?-set_self (x ∷ xs) zero v h = refl
  get_elem?-set_self (x ∷ xs) (suc i) v h = get_elem?-set_self xs i v h

  pub get_elem?-set_ne :
      (xs : List A) (i j : ℕ) (v : A) → i ≢ j → get_elem? (set xs i v) j ≡ get_elem? xs j
  get_elem?-set_ne [] i j v h = refl
  get_elem?-set_ne (x ∷ xs) zero zero v h = absurd (h refl)
  get_elem?-set_ne (x ∷ xs) zero (suc j) v h = refl
  get_elem?-set_ne (x ∷ xs) (suc i) zero v h = refl
  get_elem?-set_ne (x ∷ xs) (suc i) (suc j) v h = get_elem?-set_ne xs i j v (λ e. h (rw e))

module _ {ℓ} {A : Type ℓ} (w : A → ℕ) where
  pub tally : List A → ℕ
  tally [] = 0
  tally (x ∷ xs) = w x + tally xs

  pub tally-set :
      (xs : List A) (i : ℕ) (p q : A)
      → get_elem? xs i ≡ some p
      → tally (set xs i q) + w p ≡ tally xs + w q
  unfolding tally
  tally-set [] i p q h = cc
  tally-set (x ∷ xs) zero p q h = let e : x ≡ p = some_inj h in rw e (omega arith)
  tally-set (x ∷ xs) (suc i) p q h = omega (arith, tally-set xs i p q h)

  pub weight-le-tally : (xs : List A) (i : ℕ) (p : A) → get_elem? xs i ≡ some p → w p ≤ tally xs
  unfolding tally
  weight-le-tally [] i p h = cc
  weight-le-tally (x ∷ xs) zero p h = let e : x ≡ p = some_inj h in rw e (omega arith)
  weight-le-tally (x ∷ xs) (suc i) p h = omega (arith, weight-le-tally xs i p h)

  pub two_weights-le-tally :
      (xs : List A) (i j : ℕ) (p q : A)
      → i ≢ j
      → get_elem? xs i ≡ some p
      → get_elem? xs j ≡ some q
      → w p + w q ≤ tally xs
  unfolding tally
  two_weights-le-tally [] i j p q ne h k = cc
  two_weights-le-tally (x ∷ xs) zero zero p q ne h k = absurd (ne refl)
  two_weights-le-tally (x ∷ xs) zero (suc j) p q ne h k =
      let e : x ≡ p = some_inj h in rw e (omega (arith, weight-le-tally xs j q k))
  two_weights-le-tally (x ∷ xs) (suc i) zero p q ne h k =
      let e : x ≡ q = some_inj k in rw e (omega (arith, weight-le-tally xs i p h))
  two_weights-le-tally (x ∷ xs) (suc i) (suc j) p q ne h k =
      omega (arith, two_weights-le-tally xs i j p q (λ e. ne (rw e)) h k)

  pub tally-le-length : ((a : A) → w a ≤ 1) → (xs : List A) → tally xs ≤ length xs
  unfolding tally
  tally-le-length small [] = omega arith
  tally-le-length small (x ∷ xs) = omega (arith, small x, tally-le-length small xs)

  pub tally-replicate : (n : ℕ) (a : A) → w a ≡ 0 → tally (replicate n a) ≡ 0
  unfolding tally
  tally-replicate zero a h = refl
  tally-replicate (suc n) a h = omega (arith, h, tally-replicate n a h)

  -- A positive sum has an element of positive weight.
  pub tally_pos :
      (xs : List A) → 0 < tally xs → (i : ℕ) × (p : A) × (get_elem? xs i ≡ some p) × (0 < w p)
  unfolding tally
  tally_pos [] h = absurd (omega arith)
  tally_pos (x ∷ xs) h = elim (dec_lt 0 (w x)) [
    | yes here ↦ (0, x, refl, here)
    | no later ↦ let (i, p, at, pos) = tally_pos xs (omega arith) in (suc i, p, at, pos)
  ]
