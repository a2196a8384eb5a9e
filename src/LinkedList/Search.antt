-- ===== src/LinkedList/Search.antt =====
-- ListSearchForElement on a represented list.
use hall.Prelude.{
  ℕ, zero, suc, ◌<◌, ◌≡◌, ◌≢◌, refl, sym, ◌∙◌, Bool, true, false, Option, some, List, [], ◌∷◌, ◌++◌,
  All, ==_iff, ==-false, length, arith, ◌⊎◌, inl, inr, Bool-cases,
}
use hall.LinkedList.{Memory}
use hall.LinkedList.Chains.{Chain, Fresh, first_of, Chain-first}
use hall.LinkedList.Ring.{Represents}
use hall.LinkedList.Insert.{assert_valid-head}
use hall.LinkedList.Walks.{
  Comparison, smaller, same, greater, CompareFunction, search_loop, list_search_for_element,
}

-- The first entry that compares the same as the element, and NULL when there is none.
unfoldable pub first_same : CompareFunction → ℕ → List ℕ → ℕ
first_same compare element [] = 0
first_same compare element (x ∷ entries) =
    let rest = first_same compare element entries in
    elim (compare x element) [ same ↦ x | _ ↦ rest ]

-- No entry after a greater one compares the same: what an ordered list is for the search.
abbrev pub OrderedFor : CompareFunction → ℕ → List ℕ → Type 0
OrderedFor compare element [] = Unit
OrderedFor compare element (x ∷ entries) =
    (compare x element ≡ greater → All (λ y. compare y element ≢ same) entries)
    × OrderedFor compare element entries

first_same-other :
    (compare : CompareFunction) (element x : ℕ) (entries : List ℕ)
    → compare x element ≢ same
    → first_same compare element (x ∷ entries) ≡ first_same compare element entries
unfolding first_same
first_same-other compare element x entries n = by_result (compare x element) n
  where
    by_result :
        (c : Comparison)
        → c ≢ same
        → elim c [ same ↦ x | _ ↦ first_same compare element entries ]
          ≡ first_same compare element entries
    by_result smaller n = refl
    by_result same n = absurd (n refl)
    by_result greater n = refl

first_same-found :
    (compare : CompareFunction) (element x : ℕ) (entries : List ℕ)
    → compare x element ≡ same
    → first_same compare element (x ∷ entries) ≡ x
unfolding first_same
first_same-found compare element x entries h = rw (first_same, h) refl

first_same-none :
    (compare : CompareFunction) (element : ℕ) (entries : List ℕ)
    → All (λ y. compare y element ≢ same) entries
    → first_same compare element entries ≡ 0
unfolding first_same
first_same-none compare element [] h = refl
first_same-none compare element (x ∷ entries) h =
    first_same-other compare element x entries h.0 ∙ first_same-none compare element entries h.1

different : {c d : Comparison} → c ≡ d → d ≢ same → c ≢ same
different h n k = n (sym h ∙ k)

Comparison-cases : (c : Comparison) → (c ≡ smaller) ⊎ (c ≡ same) ⊎ (c ≡ greater)
Comparison-cases smaller = inl refl
Comparison-cases same = inr (inl refl)
Comparison-cases greater = inr (inr refl)

search_loop-run :
    (fuel : ℕ) (m : Memory) (compare : CompareFunction) (ordered : Bool) (h element : ℕ) (p : ℕ)
    (entries : List ℕ)
    → Chain m p (entries ++ h ∷ [])
    → Fresh h entries
    → (ordered ≡ true → OrderedFor compare element entries)
    → length entries < fuel
    → search_loop fuel m compare ordered h element (first_of entries h)
      ≡ some (first_same compare element entries)
unfolding search_loop first_same
search_loop-run zero m compare ordered h element p entries c ring sorted enough =
    absurd (omega arith)
search_loop-run (suc fuel) m compare ordered h element p [] c ring sorted enough =
    rw ((==_iff h h).1 refl) refl
search_loop-run (suc fuel) m compare ordered h element p (q ∷ entries) c ring sorted enough =
    let rest =
      search_loop-run fuel m compare ordered h element q entries c.1 ring.1 (λ o. (sorted o).1)
        (omega arith) in
    let ahead : q ≢ h = λ e. ring.0 (sym e) in
    let next = Chain-first m q entries h c.1 in
    elim (Comparison-cases (compare q element)) [
      | inl below ↦
          let skip = first_same-other compare element q entries (different below (λ e. cc)) in
          rw (skip, ==-false q h ahead, below, next) rest
      | inr (inl found) ↦
          rw (first_same-found compare element q entries found, ==-false q h ahead, found) refl
      | inr (inr above) ↦
          let skip = first_same-other compare element q entries (different above (λ e. cc)) in
          elim (Bool-cases ordered) [
            | inl stop ↦
                rw
                  (
                    skip,
                    first_same-none compare element entries ((sorted stop).0 above),
                    ==-false q h ahead,
                    above,
                    stop,
                  )
                  refl
            | inr onward ↦
                rw (skip, ==-false q h ahead, above, onward, next) (subst_flag onward rest)
          ]
    ]
  where
    subst_flag :
        {b : Bool} {r : Option ℕ}
        → b ≡ false
        → search_loop fuel m compare b h element (first_of entries h) ≡ r
        → search_loop fuel m compare false h element (first_of entries h) ≡ r
    subst_flag h k = rw h at k

-- ListSearchForElement on a represented list returns the first entry that compares the same as the
-- element and NULL when there is none, whether it may stop at a greater entry or not, when an
-- ordered list has no such entry behind a greater one.
pub list_search_for_element-returns :
    (fuel : ℕ) (m : Memory) (compare : CompareFunction) (ordered : Bool) (h element : ℕ)
    (entries : List ℕ)
    → Represents m h entries
    → h ≢ 0
    → element ≢ 0
    → (ordered ≡ true → OrderedFor compare element entries)
    → length entries < fuel
    → list_search_for_element fuel m compare ordered h element
      ≡ some (first_same compare element entries)
unfolding list_search_for_element
list_search_for_element-returns fuel m compare ordered h element entries r head_ne element_ne sorted
      enough =
    rw
      (
        ==-false h 0 head_ne,
        ==-false element 0 element_ne,
        assert_valid-head m h entries r,
        Chain-first m h entries h r.chain,
      )
      (search_loop-run fuel m compare ordered h element h entries r.chain r.distinct.0 sorted
        enough)
