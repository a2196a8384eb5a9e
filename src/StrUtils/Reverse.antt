-- ===== src/StrUtils/Reverse.antt =====
-- The last loop of itoa is the reversal of the text.
use mathlib.Core.List.{reverse, reverse-append, reverse-cons, append_assoc, append-nil}
use hall.Prelude.{
  ℕ, zero, suc, ◌+◌, ◌-◌, ◌/◌, ◌≤◌, ◌<◌, ◌≡◌, refl, sym, ap, ap₂, ◌∙◌, some, List, [], ◌∷◌, ◌++◌,
  arith, length, length-append, subst, get_elem?, set, All,
}
use hall.StrUtils.{swap, reverse_loop}
use hall.StrUtils.Swap.{swap_lem}

abbrev pub IsByte : ℕ → Type 0
IsByte b = b < 256

module _ {ℓ} {A : Type ℓ} where
  -- A nonempty list by its last element.
  pub unsnoc :
      (x : A) (xs : List A) → (front : List A) × (last : A) × (x ∷ xs ≡ front ++ (last ∷ []))
  unsnoc x [] = ([], x, refl)
  unsnoc x (y ∷ xs) = let rest = unsnoc y xs in (x ∷ rest.0, rest.1, ap (◌∷◌ x) rest.2)

  get_elem?-append : (xs ys : List A) (y : A) → get_elem? (xs ++ (y ∷ ys)) (length xs) ≡ some y
  get_elem?-append [] ys y = refl
  get_elem?-append (x ∷ xs) ys y = get_elem?-append xs ys y

  set-append : (xs ys : List A) (y v : A) → set (xs ++ (y ∷ ys)) (length xs) v ≡ xs ++ (v ∷ ys)
  set-append [] ys y v = refl
  set-append (x ∷ xs) ys y v = ap (◌∷◌ x) (set-append xs ys y v)

pub All-append_left {ℓ κ} :
    {A : Type ℓ} (P : A → Type κ) (xs ys : List A) → All P (xs ++ ys) → All P xs
All-append_left P [] ys h = tt
All-append_left P (x ∷ xs) ys h = (h.0, All-append_left P xs ys h.1)

pub All-append_right {ℓ κ} :
    {A : Type ℓ} (P : A → Type κ) (xs ys : List A) → All P (xs ++ ys) → All P ys
All-append_right P [] ys h = h
All-append_right P (x ∷ xs) ys h = All-append_right P xs ys h.1

pub All-append {ℓ κ} :
    {A : Type ℓ} (P : A → Type κ) (xs ys : List A) → All P xs → All P ys → All P (xs ++ ys)
All-append P [] ys h k = k
All-append P (x ∷ xs) ys h k = (h.0, All-append P xs ys h.1 k)

round-from :
    (buffer after : List ℕ) (index i left a b : ℕ)
    → get_elem? buffer i ≡ some a
    → get_elem? buffer (index - i - 1) ≡ some b
    → swap a b ≡ (b, a)
    → set (set buffer i b) (index - i - 1) a ≡ after
    → reverse_loop buffer index i (suc left) ≡ reverse_loop after index (i + 1) left
unfolding reverse_loop
round-from buffer after index i left a b ha hb hs hset = rw (ha, hb, hs, hset) refl

-- One round exchanges the two ends of the part that is left.
reverse_loop-round :
    (p n s : List ℕ) (x y index left : ℕ)
    → IsByte x
    → IsByte y
    → length p ≡ length s
    → index ≡ length p + length n + 2 + length s
    → reverse_loop (p ++ (x ∷ (n ++ (y ∷ s)))) index (length p) (suc left)
      ≡ reverse_loop (p ++ (y ∷ (n ++ (x ∷ s)))) index (length p + 1) left
reverse_loop-round p n s x y index left hx hy same hi =
    let far : index - length p - 1 ≡ length (p ++ (y ∷ n)) =
      omega (arith, hi, same, length-append p (y ∷ n)) in
    let far' : index - length p - 1 ≡ length (p ++ (x ∷ n)) =
      omega (arith, hi, same, length-append p (x ∷ n)) in
    round-from (p ++ (x ∷ (n ++ (y ∷ s)))) (p ++ (y ∷ (n ++ (x ∷ s)))) index (length p) left x y
      (get_elem?-append p (n ++ (y ∷ s)) x)
      (ap₂ get_elem? (sym (append_assoc p (x ∷ n) (y ∷ s))) far'
        ∙ get_elem?-append (p ++ (x ∷ n)) s y)
      (swap_lem x y hx hy)
      (ap₂ (λ xs j. set xs j x)
          (set-append p (n ++ (y ∷ s)) x y ∙ sym (append_assoc p (y ∷ n) (y ∷ s))) far
        ∙ set-append (p ++ (y ∷ n)) s y x
        ∙ append_assoc p (y ∷ n) (x ∷ s))

reverse-ends : (x y : ℕ) (n : List ℕ) → reverse (x ∷ (n ++ (y ∷ []))) ≡ y ∷ (reverse n ++ (x ∷ []))
reverse-ends x y n =
    reverse-cons x (n ++ (y ∷ [])) ∙ ap (λ r. r ++ (x ∷ [])) (reverse-append n (y ∷ []))

reverse_loop-done : (buffer : List ℕ) (index i : ℕ) → reverse_loop buffer index i 0 ≡ some buffer
unfolding reverse_loop
reverse_loop-done buffer index i = refl

-- The loop reverses the part between two outer parts that are done.
reverse_loop-middle :
    (left : ℕ) (p m s : List ℕ) (index : ℕ)
    → All IsByte m
    → length p ≡ length s
    → index ≡ length p + length m + length s
    → left + left ≤ length m
    → length m ≤ suc (left + left)
    → reverse_loop (p ++ (m ++ s)) index (length p) left ≡ some (p ++ (reverse m ++ s))
reverse_loop-middle zero p [] s index bytes same hi lo up =
    reverse_loop-done (p ++ s) index (length p)
reverse_loop-middle zero p (x ∷ []) s index bytes same hi lo up =
    reverse_loop-done (p ++ (x ∷ s)) index (length p)
reverse_loop-middle zero p (x ∷ (y ∷ m)) s index bytes same hi lo up = absurd (omega arith)
reverse_loop-middle (suc left) p [] s index bytes same hi lo up = absurd (omega arith)
reverse_loop-middle (suc left) p (x ∷ []) s index bytes same hi lo up = absurd (omega arith)
reverse_loop-middle (suc left) p (x ∷ (z ∷ m)) s index bytes same hi lo up =
    let ends = unsnoc z m in
    let n : List ℕ = ends.0 in
    let y : ℕ = ends.1 in
    let split : z ∷ m ≡ n ++ (y ∷ []) = ends.2 in
    let inner : All IsByte (n ++ (y ∷ [])) = subst (All IsByte) split (bytes.1) in
    let len : suc (length m) ≡ length n + 1 = ap length split ∙ length-append n (y ∷ []) in
    let len_p : length (p ++ (y ∷ [])) ≡ length p + 1 = length-append p (y ∷ []) in
    ap (λ v. reverse_loop (p ++ (x ∷ (v ++ s))) index (length p) (suc left)) split
    ∙ ap (λ v. reverse_loop (p ++ (x ∷ v)) index (length p) (suc left)) (append_assoc n (y ∷ []) s)
    ∙ reverse_loop-round p n s x y index left (bytes.0)
        ((All-append_right IsByte n (y ∷ []) inner).0) same (omega (arith, hi, len))
    ∙ ap₂ (λ b i. reverse_loop b index i left) (sym (append_assoc p (y ∷ []) (n ++ (x ∷ s))))
        (sym len_p)
    ∙ reverse_loop-middle left (p ++ (y ∷ [])) n (x ∷ s) index
        (All-append_left IsByte n (y ∷ []) inner) (omega (arith, same, len_p))
        (omega (arith, hi, len, len_p)) (omega (arith, lo, len)) (omega (arith, up, len))
    ∙ ap some (
        append_assoc p (y ∷ []) (reverse n ++ (x ∷ s))
        ∙ ap (λ r. p ++ (y ∷ r)) (sym (append_assoc (reverse n) (x ∷ []) s))
        ∙ ap (λ r. p ++ (r ++ s)) (sym (reverse-ends x y n))
        ∙ ap (λ v. p ++ (reverse (x ∷ v) ++ s)) (sym split))

-- On a text of bytes the loop returns the reversed text.
pub reverse_loop_lem :
    (text : List ℕ)
    → All IsByte text
    → reverse_loop text (length text) 0 (length text / 2) ≡ some (reverse text)
reverse_loop_lem text bytes =
    ap (λ b. reverse_loop b (length text) 0 (length text / 2)) (sym (append-nil text))
    ∙ reverse_loop-middle (length text / 2) [] text [] (length text) bytes refl (omega arith)
        (omega arith) (omega arith)
    ∙ ap some (append-nil (reverse text))
