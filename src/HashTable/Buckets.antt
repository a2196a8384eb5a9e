-- ===== src/HashTable/Buckets.antt =====
-- What the search, the insertion and the removal do in one bucket.
use hall.Prelude.{
  ℕ, ◌<◌, ◌≡◌, ◌≢◌, inl, inr, refl, sym, ap, ◌∙◌, subst, Bool, true, false, List, [], ◌∷◌, ◌==◌,
  ==_iff, ==-false, if◌then◌else◌, All, ℕ_discrete,
}
use hall.LinkedList.Walks.{smaller, same, greater}
use hall.LinkedList.Chains.{Fresh, Distinct}
use hall.Memory.Compare.{
  compare_numbers, compare-smaller, compare-same, compare-greater, Order-cases,
}
use hall.HashTable.{insert_after, insert_at, remove_from, search_bucket}

insert_after-here :
    (element x : ℕ) (xs : List ℕ) → insert_after x element (x ∷ xs) ≡ x ∷ (element ∷ xs)
unfolding insert_after
insert_after-here element x xs = rw ((==_iff x x).1 refl) refl

insert_after-there :
    (place element x : ℕ) (xs : List ℕ)
    → x ≢ place
    → insert_after place element (x ∷ xs) ≡ x ∷ insert_after place element xs
unfolding insert_after
insert_after-there place element x xs n = rw (==-false x place n) refl

insert_at-head : (head element : ℕ) (xs : List ℕ) → insert_at head head element xs ≡ element ∷ xs
insert_at-head head element xs = rw ((==_iff head head).1 refl) refl

insert_at-other :
    (head place element : ℕ) (xs : List ℕ)
    → place ≢ head
    → insert_at head place element xs ≡ insert_after place element xs
insert_at-other head place element xs n = rw (==-false place head n) refl

-- An entry is the head of those that follow it.
insert_after-insert_at :
    (place element x : ℕ) (xs : List ℕ)
    → insert_after place element (x ∷ xs) ≡ x ∷ insert_at x place element xs
insert_after-insert_at place element x xs = elim (ℕ_discrete x place) [
  | yes e ↦
      subst (λ p. insert_after p element (x ∷ xs) ≡ x ∷ insert_at x p element xs) e
        (insert_after-here element x xs ∙ ap (λ l. x ∷ l) (sym (insert_at-head x element xs)))
  | no n ↦
      insert_after-there place element x xs n
      ∙ ap (λ l. x ∷ l) (sym (insert_at-other x place element xs (λ e. n (sym e))))
]

pub remove_from-here : (x : ℕ) (xs : List ℕ) → remove_from x (x ∷ xs) ≡ xs
unfolding remove_from
remove_from-here x xs = rw ((==_iff x x).1 refl) refl

pub remove_from-there :
    (entry x : ℕ) (xs : List ℕ) → x ≢ entry → remove_from entry (x ∷ xs) ≡ x ∷ remove_from entry xs
unfolding remove_from
remove_from-there entry x xs n = rw (==-false x entry n) refl

module _ (key_of : ℕ → ℕ) where
  -- The keys ascend, and no two are equal.
  abbrev pub Ascends : List ℕ → Type 0
  Ascends [] = Unit
  Ascends (x ∷ xs) = All (λ y. key_of x < key_of y) xs × Ascends xs

  -- The entry with the key, or NULL
  unfoldable pub find : ℕ → List ℕ → ℕ
  find key [] = 0
  find key (x ∷ xs) = let rest = find key xs in if key_of x == key then x else rest

  -- The element in its place among the keys, instead of an entry with its key
  unfoldable pub put : ℕ → List ℕ → List ℕ
  put element [] = element ∷ []
  put element (x ∷ xs) =
      let rest = put element xs in
      elim (compare_numbers (key_of x) (key_of element)) [
        | same ↦ element ∷ xs
        | greater ↦ element ∷ (x ∷ xs)
        | smaller ↦ x ∷ rest
      ]

  pub search-smaller :
      (key previous x : ℕ) (xs : List ℕ)
      → key_of x < key
      → search_bucket key_of key previous (x ∷ xs) ≡ search_bucket key_of key x xs
  unfolding search_bucket
  search-smaller key previous x xs h = rw (search_bucket, compare-smaller (key_of x) key h) refl

  pub search-same :
      (key previous x : ℕ) (xs : List ℕ)
      → key_of x ≡ key
      → search_bucket key_of key previous (x ∷ xs) ≡ (true, x)
  unfolding search_bucket
  search-same key previous x xs h = rw (search_bucket, compare-same (key_of x) key h) refl

  pub search-greater :
      (key previous x : ℕ) (xs : List ℕ)
      → key < key_of x
      → search_bucket key_of key previous (x ∷ xs) ≡ (false, previous)
  unfolding search_bucket
  search-greater key previous x xs h = rw (search_bucket, compare-greater (key_of x) key h) refl

  pub put-smaller :
      (element x : ℕ) (xs : List ℕ)
      → key_of x < key_of element
      → put element (x ∷ xs) ≡ x ∷ put element xs
  unfolding put
  put-smaller element x xs h = rw (put, compare-smaller (key_of x) (key_of element) h) refl

  pub put-same :
      (element x : ℕ) (xs : List ℕ)
      → key_of x ≡ key_of element
      → put element (x ∷ xs) ≡ element ∷ xs
  unfolding put
  put-same element x xs h = rw (put, compare-same (key_of x) (key_of element) h) refl

  pub put-greater :
      (element x : ℕ) (xs : List ℕ)
      → key_of element < key_of x
      → put element (x ∷ xs) ≡ element ∷ (x ∷ xs)
  unfolding put
  put-greater element x xs h = rw (put, compare-greater (key_of x) (key_of element) h) refl

  -- The place is the previous entry or one of the bucket, and the latter when the key is found.
  place-Fresh :
      (key previous q : ℕ) (xs : List ℕ)
      → q ≢ previous
      → Fresh q xs
      → q ≢ (search_bucket key_of key previous xs).1
  unfolding search_bucket
  place-Fresh key previous q [] n f = n
  place-Fresh key previous q (x ∷ xs) n f = elim (Order-cases (key_of x) key) [
    | inl h ↦
        subst (λ r. q ≢ r.1) (sym (search-smaller key previous x xs h))
          (place-Fresh key x q xs f.0 f.1)
    | inr (inl h) ↦ subst (λ r. q ≢ r.1) (sym (search-same key previous x xs h)) f.0
    | inr (inr h) ↦ subst (λ r. q ≢ r.1) (sym (search-greater key previous x xs h)) n
  ]

  found-Fresh :
      (key previous q : ℕ) (xs : List ℕ)
      → Fresh q xs
      → (search_bucket key_of key previous xs).0 ≡ true
      → q ≢ (search_bucket key_of key previous xs).1
  unfolding search_bucket
  found-Fresh key previous q [] f t = cc
  found-Fresh key previous q (x ∷ xs) f t = elim (Order-cases (key_of x) key) [
    | inl h ↦
        let e = search-smaller key previous x xs h in
        subst (λ r. q ≢ r.1) (sym e) (found-Fresh key x q xs f.1 (sym (ap (λ r. r.0) e) ∙ t))
    | inr (inl h) ↦ subst (λ r. q ≢ r.1) (sym (search-same key previous x xs h)) f.0
    | inr (inr h) ↦
        let e = ap (λ r. r.0) (search-greater key previous x xs h) in
        let clash : false ≡ true = sym e ∙ t in cc
  ]

  -- The insertion behind the place that the search gives, and the removal of the entry that has the
  -- key already
  abbrev pub inserted : ℕ → ℕ → List ℕ → List ℕ
  inserted previous element xs =
      let r = search_bucket key_of (key_of element) previous xs in
      let l = insert_at previous r.1 element xs in if r.0 then remove_from r.1 l else l

  inserted-at :
      (previous element : ℕ) (xs : List ℕ) (r : Bool × ℕ)
      → search_bucket key_of (key_of element) previous xs ≡ r
      → inserted previous element xs
        ≡ (let l = insert_at previous r.1 element xs in if r.0 then remove_from r.1 l else l)
  inserted-at previous element xs r e =
      ap (λ q. let l = insert_at previous q.1 element xs in if q.0 then remove_from q.1 l else l) e

  skip_first :
      (x : ℕ) (b : Bool) (place element : ℕ) (xs : List ℕ)
      → (b ≡ true → x ≢ place)
      → (let l = x ∷ insert_at x place element xs in if b then remove_from place l else l)
        ≡ x ∷ (let l = insert_at x place element xs in if b then remove_from place l else l)
  skip_first x true place element xs n =
      remove_from-there place x (insert_at x place element xs) (n refl)
  skip_first x false place element xs n = refl

  pub inserted-put :
      (previous element : ℕ) (xs : List ℕ)
      → Distinct (previous ∷ xs)
      → inserted previous element xs ≡ put element xs
  unfolding search_bucket put
  inserted-put previous element [] d = insert_at-head previous element []
  inserted-put previous element (x ∷ xs) d =
      let key = key_of element in
      let ahead : x ≢ previous = λ e. d.0.0 (sym e) in
      elim (Order-cases (key_of x) key) [
        | inl h ↦
            let r = search_bucket key_of key x xs in
            let away : r.1 ≢ previous = λ e. place-Fresh key x previous xs d.0.0 d.0.1 (sym e) in
            inserted-at previous element (x ∷ xs) r (search-smaller key previous x xs h)
            ∙ ap (λ l. if r.0 then remove_from r.1 l else l)
                (insert_at-other previous r.1 element (x ∷ xs) away
                  ∙ insert_after-insert_at r.1 element x xs)
            ∙ skip_first x r.0 r.1 element xs (found-Fresh key x x xs d.1.0)
            ∙ ap (λ l. x ∷ l) (inserted-put x element xs d.1)
            ∙ sym (put-smaller element x xs h)
        | inr (inl h) ↦
            inserted-at previous element (x ∷ xs) (true, x) (search-same key previous x xs h)
            ∙ ap (remove_from x)
                (insert_at-other previous x element (x ∷ xs) ahead ∙ insert_after-here element x xs)
            ∙ remove_from-here x (element ∷ xs)
            ∙ sym (put-same element x xs h)
        | inr (inr h) ↦
            inserted-at previous element (x ∷ xs) (false, previous)
              (search-greater key previous x xs h)
            ∙ insert_at-head previous element (x ∷ xs)
            ∙ sym (put-greater element x xs h)
      ]
