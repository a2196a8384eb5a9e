-- ===== src/Prelude/Assign.antt =====
-- A value for each thread, one of which takes a step at a time.
use Prim.Native.Nat.{ℕ}
use mathlib.Core.Path.{◌≡◌, refl, sym, ap, subst}
use mathlib.Core.Logic.{◌≢◌}
use native.Mathlib.Decide.{ℕ_discrete}
use hall.Prelude.Tests.{◌==◌, if◌then◌else◌, ==_iff, ==-false}

module _ {ℓ} {A : Type ℓ} where
  abbrev pub assign : (ℕ → A) → ℕ → A → ℕ → A
  assign f t a u = if u == t then a else f u

  pub assign-same : (f : ℕ → A) (t : ℕ) (a : A) → assign f t a t ≡ a
  assign-same f t a = ap (λ b. if b then a else f t) ((==_iff t t).1 refl)

  pub assign-other : (f : ℕ → A) (t : ℕ) (a : A) (u : ℕ) → u ≢ t → assign f t a u ≡ f u
  assign-other f t a u n = ap (λ b. if b then a else f u) (==-false u t n)

  -- A property of every thread, from the thread that moves and the others.
  pub assign-all {κ} :
      (Q : ℕ → A → Type κ) (f : ℕ → A) (t : ℕ) (a : A)
      → Q t a
      → ((u : ℕ) → u ≢ t → Q u (f u))
      → (u : ℕ) → Q u (assign f t a u)
  assign-all Q f t a here there u = elim (ℕ_discrete u t) [
    | yes e ↦ subst (λ w. Q w (assign f t a w)) (sym e) (subst (Q t) (sym (assign-same f t a)) here)
    | no n ↦ subst (Q u) (sym (assign-other f t a u n)) (there u n)
  ]
