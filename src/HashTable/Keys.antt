-- ===== src/HashTable/Keys.antt =====
-- Which entry has a key, in a bucket that an operation has changed.
use hall.Prelude.{
  ℕ, ◌<◌, ◌≡◌, ◌≢◌, inl, inr, refl, sym, ap, ◌∙◌, subst, List, [], ◌∷◌, ◌==◌, ==_iff, ==-false,
  if◌then◌else◌, All, arith, ℕ_discrete,
}
use hall.Memory.Compare.{Order-cases}
use hall.HashTable.{remove_from, search_bucket}
use hall.HashTable.Buckets.{
  Ascends, find, put, search-smaller, search-same, search-greater, put-smaller, put-same,
  put-greater, remove_from-here, remove_from-there,
}

if-true : (x y a b : ℕ) → a ≡ b → (if a == b then x else y) ≡ x
if-true x y a b h = ap (λ c. if c then x else y) ((==_iff a b).1 h)

if-false : (x y a b : ℕ) → a ≢ b → (if a == b then x else y) ≡ y
if-false x y a b h = ap (λ c. if c then x else y) (==-false a b h)

module _ (key_of : ℕ → ℕ) where
  find-here : (key x : ℕ) (xs : List ℕ) → key_of x ≡ key → find key_of key (x ∷ xs) ≡ x
  unfolding find
  find-here key x xs h = if-true _ _ (key_of x) key h

  find-there :
      (key x : ℕ) (xs : List ℕ) → key_of x ≢ key → find key_of key (x ∷ xs) ≡ find key_of key xs
  unfolding find
  find-there key x xs h = if-false _ _ (key_of x) key h

  find-above : (key : ℕ) (xs : List ℕ) → All (λ y. key < key_of y) xs → find key_of key xs ≡ 0
  unfolding find
  find-above key [] h = refl
  find-above key (x ∷ xs) h =
      let above = h.0 in find-there key x xs (omega arith) ∙ find-above key xs h.1

  All-below :
      (a b : ℕ) (xs : List ℕ) → a < b → All (λ y. b < key_of y) xs → All (λ y. a < key_of y) xs
  All-below a b [] l h = tt
  All-below a b (x ∷ xs) l h = let above = h.0 in (omega arith, All-below a b xs l h.1)

  -- HashTableLookup's use of the search finds the entry with the key, or NULL.
  pub search-find :
      (key previous : ℕ) (xs : List ℕ)
      → Ascends key_of xs
      → (let r = search_bucket key_of key previous xs in if r.0 then r.1 else 0)
        ≡ find key_of key xs
  unfolding search_bucket find
  search-find key previous [] sorted = refl
  search-find key previous (x ∷ xs) sorted = elim (Order-cases (key_of x) key) [
    | inl h ↦
        ap (λ r. if r.0 then r.1 else 0) (search-smaller key_of key previous x xs h)
        ∙ search-find key x xs sorted.1
        ∙ sym (find-there key x xs (omega (arith, h)))
    | inr (inl h) ↦
        ap (λ r. if r.0 then r.1 else 0) (search-same key_of key previous x xs h)
        ∙ sym (find-here key x xs h)
    | inr (inr h) ↦
        ap (λ r. if r.0 then r.1 else 0) (search-greater key_of key previous x xs h)
        ∙ sym (
            find-there key x xs (omega (arith, h))
            ∙ find-above key xs (All-below key (key_of x) xs h sorted.0))
  ]

  pub find-put :
      (k element : ℕ) (xs : List ℕ)
      → find key_of k (put key_of element xs)
        ≡ (if key_of element == k then element else find key_of k xs)
  unfolding find put
  find-put k element [] = refl
  find-put k element (x ∷ xs) = elim (Order-cases (key_of x) (key_of element)) [
    | inr (inr h) ↦ ap (find key_of k) (put-greater key_of element x xs h)
    | inr (inl h) ↦
        ap (find key_of k) (put-same key_of element x xs h)
        ∙ (elim (ℕ_discrete (key_of element) k) [
          | yes e ↦ if-true _ _ (key_of element) k e ∙ sym (if-true _ _ (key_of element) k e)
          | no n ↦
              if-false _ _ (key_of element) k n
              ∙ sym (if-false _ _ (key_of element) k n ∙ find-there k x xs (λ e. n (sym h ∙ e)))
        ])
    | inl h ↦
        ap (find key_of k) (put-smaller key_of element x xs h) ∙ (elim (ℕ_discrete (key_of x) k) [
          | yes e ↦
              find-here k x (put key_of element xs) e
              ∙ sym (if-false _ _ (key_of element) k (omega (arith, h, e)) ∙ find-here k x xs e)
          | no n ↦
              find-there k x (put key_of element xs) n
              ∙ find-put k element xs
              ∙ ap (λ z. if key_of element == k then element else z) (sym (find-there k x xs n))
        ])
  ]

  All-put :
      (Q : ℕ → Type 0) (element : ℕ) (xs : List ℕ)
      → All Q xs
      → Q element
      → All Q (put key_of element xs)
  unfolding put
  All-put Q element [] all q = (q, tt)
  All-put Q element (x ∷ xs) all q = elim (Order-cases (key_of x) (key_of element)) [
    | inl h ↦
        subst (All Q) (sym (put-smaller key_of element x xs h))
          (all.0, All-put Q element xs all.1 q)
    | inr (inl h) ↦ subst (All Q) (sym (put-same key_of element x xs h)) (q, all.1)
    | inr (inr h) ↦ subst (All Q) (sym (put-greater key_of element x xs h)) (q, all)
  ]

  pub put-Ascends :
      (element : ℕ) (xs : List ℕ) → Ascends key_of xs → Ascends key_of (put key_of element xs)
  unfolding put
  put-Ascends element [] sorted = (tt, tt)
  put-Ascends element (x ∷ xs) sorted = elim (Order-cases (key_of x) (key_of element)) [
    | inl h ↦
        subst (Ascends key_of) (sym (put-smaller key_of element x xs h)) (
          All-put (λ y. key_of x < key_of y) element xs sorted.0 h,
          put-Ascends element xs sorted.1,
        )
    | inr (inl h) ↦
        subst (Ascends key_of) (sym (put-same key_of element x xs h))
          (subst (λ k. All (λ y. k < key_of y) xs) h sorted.0, sorted.1)
    | inr (inr h) ↦
        subst (Ascends key_of) (sym (put-greater key_of element x xs h))
          ((h, All-below (key_of element) (key_of x) xs h sorted.0), sorted)
  ]

  pub find-key :
      (key : ℕ) (xs : List ℕ) → find key_of key xs ≢ 0 → key_of (find key_of key xs) ≡ key
  unfolding find
  find-key key [] n = absurd (n refl)
  find-key key (x ∷ xs) n = elim (ℕ_discrete (key_of x) key) [
    | yes e ↦ ap key_of (find-here key x xs e) ∙ e
    | no other ↦
        let skip = find-there key x xs other in ap key_of skip ∙ find-key key xs (λ z. n (skip ∙ z))
  ]

  pub find-remove_from :
      (k key : ℕ) (xs : List ℕ)
      → Ascends key_of xs
      → find key_of key xs ≢ 0
      → find key_of k (remove_from (find key_of key xs) xs)
        ≡ (if key == k then 0 else find key_of k xs)
  unfolding find
  find-remove_from k key [] sorted n = absurd (n refl)
  find-remove_from k key (x ∷ xs) sorted n = elim (ℕ_discrete (key_of x) key) [
    | yes here ↦
        ap (λ e. find key_of k (remove_from e (x ∷ xs))) (find-here key x xs here)
        ∙ ap (find key_of k) (remove_from-here x xs)
        ∙ (elim (ℕ_discrete key k) [
          | yes e ↦
              find-above k xs (subst (λ b. All (λ y. b < key_of y) xs) (here ∙ e) sorted.0)
              ∙ sym (if-true _ _ key k e)
          | no m ↦ sym (if-false _ _ key k m ∙ find-there k x xs (λ e. m (sym here ∙ e)))
        ])
    | no other ↦
        let skip = find-there key x xs other in
        let m : find key_of key xs ≢ 0 = λ z. n (skip ∙ z) in
        let apart : x ≢ find key_of key xs = λ e. other (ap key_of e ∙ find-key key xs m) in
        ap (λ e. find key_of k (remove_from e (x ∷ xs))) skip
        ∙ ap (find key_of k) (remove_from-there (find key_of key xs) x xs apart)
        ∙ (elim (ℕ_discrete (key_of x) k) [
          | yes e ↦
              find-here k x (remove_from (find key_of key xs) xs) e
              ∙ sym (if-false _ _ key k (λ z. other (e ∙ sym z)) ∙ find-here k x xs e)
          | no l ↦
              find-there k x (remove_from (find key_of key xs) xs) l
              ∙ find-remove_from k key xs sorted.1 m
              ∙ ap (λ z. if key == k then 0 else z) (sym (find-there k x xs l))
        ])
  ]

  All-remove_from :
      (Q : ℕ → Type 0) (entry : ℕ) (xs : List ℕ) → All Q xs → All Q (remove_from entry xs)
  unfolding remove_from
  All-remove_from Q entry [] all = tt
  All-remove_from Q entry (x ∷ xs) all = elim (ℕ_discrete x entry) [
    | yes e ↦
        subst (λ y. All Q (remove_from y (x ∷ xs))) e
          (subst (All Q) (sym (remove_from-here x xs)) all.1)
    | no n ↦
        subst (All Q) (sym (remove_from-there entry x xs n))
          (all.0, All-remove_from Q entry xs all.1)
  ]

  pub remove_from-Ascends :
      (entry : ℕ) (xs : List ℕ) → Ascends key_of xs → Ascends key_of (remove_from entry xs)
  unfolding remove_from
  remove_from-Ascends entry [] sorted = tt
  remove_from-Ascends entry (x ∷ xs) sorted = elim (ℕ_discrete x entry) [
    | yes e ↦
        subst (λ y. Ascends key_of (remove_from y (x ∷ xs))) e
          (subst (Ascends key_of) (sym (remove_from-here x xs)) sorted.1)
    | no n ↦ subst (Ascends key_of) (sym (remove_from-there entry x xs n)) (
      All-remove_from (λ y. key_of x < key_of y) entry xs sorted.0,
      remove_from-Ascends entry xs sorted.1,
    )
  ]
