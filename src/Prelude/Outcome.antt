-- ===== src/Prelude/Outcome.antt =====
-- What a call does: `some r` when it returns `r`, `none` when it does not. A call that fails an
-- ASSERT halts the processors (Hal9000Assert), and one that reads or writes outside a buffer has no
-- meaning in C; both are `none`.
use mathlib.Core.Path.{◌≡◌, refl, ap, ◌∙◌}
use mathlib.Core.Bool.{Bool, true, false}
use mathlib.Core.Option.{Option, none, some}

infixl 5 ◌>>=◌ ◌>>◌
abbrev pub ◌>>=◌ {ℓ κ} : {A : Type ℓ} {B : Type κ} → Option A → (A → Option B) → Option B
none >>= f = none
some a >>= f = f a

abbrev pub ◌>>◌ {ℓ} : {B : Type ℓ} → Option (Unit {0}) → Option B → Option B
m >> k = m >>= λ _. k

-- ASSERT(Cond)
abbrev pub assert : Bool → Option (Unit {0})
assert true = some tt
assert false = none

-- Inversion of a chain that returns.
pub >>=-eq-some {ℓ κ} :
    {A : Type ℓ} {B : Type κ} (m : Option A) (f : A → Option B) {b : B}
    → (m >>= f) ≡ some b
    → (a : A) × (m ≡ some a) × (f a ≡ some b)
>>=-eq-some none f h = cc
>>=-eq-some (some a) f h = (a, refl, h)

pub some_inj {ℓ} : {A : Type ℓ} {a b : A} → some a ≡ some b → a ≡ b
some_inj h = cc

pub >>=-assoc {ℓ κ μ} :
    {A : Type ℓ} {B : Type κ} {C : Type μ} (m : Option A) (f : A → Option B) (g : B → Option C)
    → ((m >>= f) >>= g) ≡ (m >>= λ a. f a >>= g)
>>=-assoc none f g = refl
>>=-assoc (some a) f g = refl

pub >>=-none {ℓ κ} :
    {A : Type ℓ} {B : Type κ} (m : Option A) → ◌>>=◌ {A = A} {B = B} m (λ a. none) ≡ none
>>=-none none = refl
>>=-none (some a) = refl

pub assert-then {ℓ} :
    {B : Type ℓ} (b : Bool) (m : Option B) {x : B}
    → (assert b >> m) ≡ some x
    → (b ≡ true) × (m ≡ some x)
assert-then true m h = (refl, h)
assert-then false m h = cc

-- A chain whose first step returns goes on with the rest.
pub >>=-run {ℓ κ} :
    {A : Type ℓ} {B : Type κ} {m : Option A} {a : A} {r : Option B} (f : A → Option B)
    → m ≡ some a
    → f a ≡ r
    → (m >>= f) ≡ r
>>=-run f h k = ap (λ o. o >>= f) h ∙ k
