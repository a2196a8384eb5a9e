-- ===== src/Prelude/Queues.antt =====
-- Sequences of numbers in which none stands twice: waiting lists and lists of entries.
use Prim.Native.Nat.{ℕ}
use mathlib.Core.Path.{◌≡◌, refl, sym, ◌∙◌}
use mathlib.Core.Logic.{◌≢◌, inl, inr}
use mathlib.Core.Bool.{Bool, true, false}
use mathlib.Core.List.{List, [], ◌∷◌, ◌++◌}
use hall.Prelude.Tests.{◌==◌, if◌then◌else◌, if-cases, not_both, ==_iff, ==-false}

abbrev pub is_in : ℕ → List ℕ → Bool
is_in e [] = false
is_in e (x ∷ xs) = if e == x then true else is_in e xs

abbrev pub NoTwice : List ℕ → Type 0
NoTwice [] = Unit
NoTwice (x ∷ xs) = (is_in x xs ≡ false) × NoTwice xs

pub is_in-append_other : (v t : ℕ) (xs : List ℕ) → v ≢ t → is_in v (xs ++ t ∷ []) ≡ is_in v xs
is_in-append_other v t [] n = rw (==-false v t n) refl
is_in-append_other v t (x ∷ xs) n = rw (is_in-append_other v t xs n) refl

if-same : {A : Type 0} (b : Bool) {x y z : A} → x ≡ z → y ≡ z → (if b then x else y) ≡ z
if-same true h k = h
if-same false h k = k

pub is_in-append_self : (t : ℕ) (xs : List ℕ) → is_in t (xs ++ t ∷ []) ≡ true
is_in-append_self t [] = rw ((==_iff t t).1 refl) refl
is_in-append_self t (x ∷ xs) = if-same (t == x) refl (is_in-append_self t xs)

pub is_in-tail_other : (v x : ℕ) (xs : List ℕ) → v ≢ x → is_in v (x ∷ xs) ≡ is_in v xs
is_in-tail_other v x xs n = rw (==-false v x n) refl

pub is_in-head : (x : ℕ) (xs : List ℕ) → is_in x (x ∷ xs) ≡ true
is_in-head x xs = rw ((==_iff x x).1 refl) refl

pub not_in-parts :
    (t x : ℕ) (xs : List ℕ) → is_in t (x ∷ xs) ≡ false → (t ≢ x) × (is_in t xs ≡ false)
not_in-parts t x xs h = elim (if-cases (t == x) h) [
  | inl (here, k) ↦ cc
  | inr (there, k) ↦ ((λ e. not_both ((==_iff t x).1 e) there), k)
]

pub NoTwice-append :
    (t : ℕ) (xs : List ℕ) → is_in t xs ≡ false → NoTwice xs → NoTwice (xs ++ t ∷ [])
NoTwice-append t [] n d = (refl, tt)
NoTwice-append t (x ∷ xs) n d =
    let (apart, rest) = not_in-parts t x xs n in
    (is_in-append_other x t xs (λ e. apart (sym e)) ∙ d.0, NoTwice-append t xs rest d.1)
