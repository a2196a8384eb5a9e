-- ===== src/Memory/Compare.antt =====
-- cl_rmemcmp of CommonLib/src/cl_memory.c, for pointers that are not NULL, and the numbers that it
-- compares.
use hall.Prelude.{
  ℕ, zero, suc, ◌+◌, ◌*◌, ◌<◌, ◌≡◌, ◌⊎◌, inl, inr, refl, ◌∙◌, Option, none, some, List, [], ◌∷◌,
  ◌==◌, ltb, lt→ltb, ==_iff, ==-false, Bool-cases, ltb-not, if◌then◌else◌, ◌>>=◌, get_elem?, length,
  All, sub32, u32_mod, arith, >>=-run, ℕ_discrete, dec_lt,
}
use hall.LinkedList.Walks.{Comparison, smaller, same, greater}

-- The sign of `a - b`
abbrev pub compare_numbers : ℕ → ℕ → Comparison
compare_numbers a b = if a == b then same else (if ltb a b then smaller else greater)

-- The loop of cl_rmemcmp, from the byte before the given index down to the first.
unfoldable pub rmemcmp_loop : ℕ → List ℕ → List ℕ → Option Comparison
rmemcmp_loop zero p1 p2 = some same
rmemcmp_loop (suc i) p1 p2 = do
  a ← get_elem? p1 i
  b ← get_elem? p2 i
  let rest = rmemcmp_loop i p1 p2 in if a == b then rest else some (compare_numbers a b)

-- cl_rmemcmp: the index starts at `size - 1`, a DWORD.
unfoldable pub rmemcmp : List ℕ → List ℕ → ℕ → Option Comparison
rmemcmp p1 p2 size = rmemcmp_loop (sub32 size 1 + 1) p1 p2

-- The number that bytes denote in little-endian order
abbrev pub value : List ℕ → ℕ
value [] = 0
value (b ∷ bytes) = b + 0x100 * value bytes

-- The bytes behind the first decide, if they differ.
then_first : ℕ → ℕ → Comparison → Option Comparison
then_first x y c = elim c [
  | same ↦ some (compare_numbers x y)
  | smaller ↦ some smaller
  | greater ↦ some greater
]

rmemcmp_loop-cons :
    (n x y : ℕ) (xs ys : List ℕ)
    → rmemcmp_loop (suc n) (x ∷ xs) (y ∷ ys) ≡ (rmemcmp_loop n xs ys >>= then_first x y)
unfolding rmemcmp_loop then_first
rmemcmp_loop-cons zero x y xs ys = elim (Bool-cases (x == y)) [
  | inl e ↦ rw e refl
  | inr n ↦ rw n refl
]
rmemcmp_loop-cons (suc n) x y xs ys =
    by_bytes (get_elem? xs n) (get_elem? ys n) _ _ (rmemcmp_loop-cons n x y xs ys)
  where
    decided :
        (a b : ℕ) (s t : Option Comparison)
        → s ≡ (t >>= then_first x y)
        → (if a == b then s else some (compare_numbers a b))
          ≡ ((if a == b then t else some (compare_numbers a b)) >>= then_first x y)
    decided a b s t h = elim (Bool-cases (a == b)) [
      | inl e ↦ rw e h
      | inr n ↦ elim (Bool-cases (ltb a b)) [ inl l ↦ rw (n, l) refl | inr g ↦ rw (n, g) refl ]
    ]

    by_bytes :
        (o p : Option ℕ) (s t : Option Comparison)
        → s ≡ (t >>= then_first x y)
        → (o >>= λ a. p >>= λ b. if a == b then s else some (compare_numbers a b)) ≡ (
            (o >>= λ a. p >>= λ b. if a == b then t else some (compare_numbers a b))
            >>= then_first x y)
    by_bytes none p s t h = refl
    by_bytes (some a) none s t h = refl
    by_bytes (some a) (some b) s t h = decided a b s t h

pub compare-smaller : (a b : ℕ) → a < b → compare_numbers a b ≡ smaller
compare-smaller a b h = rw (==-false a b (omega (arith, h)), lt→ltb a b h) refl

pub compare-same : (a b : ℕ) → a ≡ b → compare_numbers a b ≡ same
compare-same a b h = rw ((==_iff a b).1 h) refl

pub compare-greater : (a b : ℕ) → b < a → compare_numbers a b ≡ greater
compare-greater a b h = rw (==-false a b (omega (arith, h)), ltb-not a b (omega (arith, h))) refl

pub Order-cases : (a b : ℕ) → (a < b) ⊎ (a ≡ b) ⊎ (b < a)
Order-cases a b = elim (ℕ_discrete a b) [
  | yes e ↦ inr (inl e)
  | no n ↦ elim (dec_lt a b) [ yes l ↦ inl l | no g ↦ inr (inr (omega arith)) ]
]

compare-cons :
    (x y u v : ℕ)
    → x < 0x100
    → y < 0x100
    → then_first x y (compare_numbers u v) ≡ some (compare_numbers (x + 0x100 * u) (y + 0x100 * v))
unfolding then_first
compare-cons x y u v small small' = elim (Order-cases u v) [
  | inl below ↦
      rw (compare-smaller u v below, compare-smaller (x + 0x100 * u) (y + 0x100 * v) (omega arith))
        refl
  | inr (inr above) ↦
      rw (compare-greater u v above, compare-greater (x + 0x100 * u) (y + 0x100 * v) (omega arith))
        refl
  | inr (inl level) ↦ elim (Order-cases x y) [
    | inl below ↦
        rw
          (
            compare-same u v level,
            compare-smaller x y below,
            compare-smaller (x + 0x100 * u) (y + 0x100 * v) (omega arith),
          )
          refl
    | inr (inl tie) ↦
        rw
          (
            compare-same u v level,
            compare-same x y tie,
            compare-same (x + 0x100 * u) (y + 0x100 * v) (omega arith),
          )
          refl
    | inr (inr above) ↦
        rw
          (
            compare-same u v level,
            compare-greater x y above,
            compare-greater (x + 0x100 * u) (y + 0x100 * v) (omega arith),
          )
          refl
  ]
]

abbrev pub IsByte : ℕ → Type 0
IsByte b = b < 0x100

rmemcmp_loop-run :
    (n : ℕ) (xs ys : List ℕ)
    → length xs ≡ n
    → length ys ≡ n
    → All IsByte xs
    → All IsByte ys
    → rmemcmp_loop n xs ys ≡ some (compare_numbers (value xs) (value ys))
unfolding rmemcmp_loop
rmemcmp_loop-run zero [] [] h k bs cs = refl
rmemcmp_loop-run zero (x ∷ xs) ys h k bs cs = absurd (omega arith)
rmemcmp_loop-run zero [] (y ∷ ys) h k bs cs = absurd (omega arith)
rmemcmp_loop-run (suc n) [] ys h k bs cs = absurd (omega arith)
rmemcmp_loop-run (suc n) (x ∷ xs) [] h k bs cs = absurd (omega arith)
rmemcmp_loop-run (suc n) (x ∷ xs) (y ∷ ys) h k bs cs =
    rmemcmp_loop-cons n x y xs ys
    ∙ >>=-run (then_first x y) (rmemcmp_loop-run n xs ys (omega arith) (omega arith) bs.1 cs.1)
        (compare-cons x y (value xs) (value ys) bs.0 cs.0)

-- cl_rmemcmp on two buffers of the given size, a positive DWORD, compares the numbers that their
-- bytes denote in little-endian order.
pub rmemcmp_lem :
    (p1 p2 : List ℕ) (size : ℕ)
    → 0 < size
    → size < u32_mod
    → length p1 ≡ size
    → length p2 ≡ size
    → All IsByte p1
    → All IsByte p2
    → rmemcmp p1 p2 size ≡ some (compare_numbers (value p1) (value p2))
unfolding rmemcmp
rmemcmp_lem p1 p2 size positive small h k bs cs =
    let rounds : sub32 size 1 + 1 ≡ size = omega arith in
    rw rounds (rmemcmp_loop-run size p1 p2 h k bs cs)
