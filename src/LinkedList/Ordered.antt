-- ===== src/LinkedList/Ordered.antt =====
-- InsertOrderedList on a represented list.
use hall.Prelude.{
  ℕ, zero, suc, ◌<◌, ◌≡◌, ◌≢◌, refl, sym, ap, ◌∙◌, subst, true, false, some, List, [], ◌∷◌, ◌++◌,
  ==_iff, ==-false, length, arith, if◌then◌else◌, inl, inr, Bool-cases, >>=-run,
}
use mathlib.Core.List.{append-nil}
use hall.LinkedList.{Memory, insert_tail_list}
use hall.LinkedList.Chains.{Chain, Fresh, first_of, Chain-first}
use hall.LinkedList.Ring.{Represents, IsEntry, Becomes}
use hall.LinkedList.Insert.{assert_valid-head, insert_tail_list_lem, insert_before}
use hall.LinkedList.Walks.{CompareFunction, is_smaller, place_loop, insert_ordered_list}

-- The entry before the first one that it is smaller than.
unfoldable pub insert_sorted : CompareFunction → ℕ → List ℕ → List ℕ
insert_sorted compare e [] = e ∷ []
insert_sorted compare e (x ∷ entries) =
    let rest = insert_sorted compare e entries in
    if is_smaller (compare e x) then e ∷ (x ∷ entries) else x ∷ rest

-- No entry is smaller than the one before it.
abbrev pub FirstNotBelow : CompareFunction → ℕ → List ℕ → Type 0
FirstNotBelow compare x [] = Unit
FirstNotBelow compare x (y ∷ entries) = is_smaller (compare y x) ≡ false

abbrev pub Ascending : CompareFunction → List ℕ → Type 0
Ascending compare [] = Unit
Ascending compare (x ∷ entries) = FirstNotBelow compare x entries × Ascending compare entries

insert_sorted-smaller :
    (compare : CompareFunction) (e x : ℕ) (entries : List ℕ)
    → is_smaller (compare e x) ≡ true
    → insert_sorted compare e (x ∷ entries) ≡ e ∷ (x ∷ entries)
unfolding insert_sorted
insert_sorted-smaller compare e x entries h =
    ap (λ b. if b then e ∷ (x ∷ entries) else x ∷ insert_sorted compare e entries) h

insert_sorted-onward :
    (compare : CompareFunction) (e x : ℕ) (entries : List ℕ)
    → is_smaller (compare e x) ≡ false
    → insert_sorted compare e (x ∷ entries) ≡ x ∷ insert_sorted compare e entries
unfolding insert_sorted
insert_sorted-onward compare e x entries h =
    ap (λ b. if b then e ∷ (x ∷ entries) else x ∷ insert_sorted compare e entries) h

FirstNotBelow-insert_sorted :
    (compare : CompareFunction) (e x : ℕ) (entries : List ℕ)
    → is_smaller (compare e x) ≡ false
    → FirstNotBelow compare x entries
    → FirstNotBelow compare x (insert_sorted compare e entries)
unfolding insert_sorted
FirstNotBelow-insert_sorted compare e x [] h first = h
FirstNotBelow-insert_sorted compare e x (y ∷ entries) h first =
    elim (Bool-cases (is_smaller (compare e y))) [
      | inl below ↦
          subst (FirstNotBelow compare x) (sym (insert_sorted-smaller compare e y entries below)) h
      | inr above ↦
          subst (FirstNotBelow compare x) (sym (insert_sorted-onward compare e y entries above))
            first
    ]

pub insert_sorted-Ascending :
    (compare : CompareFunction) (e : ℕ) (entries : List ℕ)
    → ((a b : ℕ) → is_smaller (compare a b) ≡ true → is_smaller (compare b a) ≡ false)
    → Ascending compare entries
    → Ascending compare (insert_sorted compare e entries)
unfolding insert_sorted
insert_sorted-Ascending compare e [] asymmetric sorted = (tt, tt)
insert_sorted-Ascending compare e (x ∷ entries) asymmetric sorted =
    elim (Bool-cases (is_smaller (compare e x))) [
      | inl below ↦
          subst (Ascending compare) (sym (insert_sorted-smaller compare e x entries below))
            (asymmetric e x below, sorted)
      | inr above ↦
          subst (Ascending compare) (sym (insert_sorted-onward compare e x entries above)) (
            FirstNotBelow-insert_sorted compare e x entries above sorted.0,
            insert_sorted-Ascending compare e entries asymmetric sorted.1,
          )
    ]

-- Where the loop stops, the sorted insertion puts the entry.
StopsAt : ℕ → Memory → CompareFunction → ℕ → ℕ → List ℕ → Type 0
StopsAt fuel m compare h e entries =
    (xs : List ℕ) × (ys : List ℕ) × (entries ≡ xs ++ ys)
    × (insert_sorted compare e entries ≡ xs ++ e ∷ ys)
    × (place_loop fuel m compare h e (first_of entries h) ≡ some (first_of ys h))

place_loop-StopsAt :
    (fuel : ℕ) (m : Memory) (compare : CompareFunction) (h e p : ℕ) (entries : List ℕ)
    → Chain m p (entries ++ h ∷ [])
    → Fresh h entries
    → length entries < fuel
    → StopsAt fuel m compare h e entries
unfolding StopsAt place_loop insert_sorted
place_loop-StopsAt zero m compare h e p entries c ring enough = absurd (omega arith)
place_loop-StopsAt (suc fuel) m compare h e p [] c ring enough =
    ([], [], refl, refl, rw ((==_iff h h).1 refl) refl)
place_loop-StopsAt (suc fuel) m compare h e p (q ∷ entries) c ring enough =
    let ahead : q ≢ h = λ x. ring.0 (sym x) in
    let next = Chain-first m q entries h c.1 in
    elim (Bool-cases (is_smaller (compare e q))) [
      | inl below ↦ (
        [],
        q ∷ entries,
        refl,
        insert_sorted-smaller compare e q entries below,
        rw (==-false q h ahead, below) refl,
      )
      | inr above ↦
          let (xs, ys, split, result, run) =
            place_loop-StopsAt fuel m compare h e q entries c.1 ring.1 (omega arith) in
          (
            q ∷ xs,
            ys,
            ap (λ l. q ∷ l) split,
            insert_sorted-onward compare e q entries above ∙ ap (λ l. q ∷ l) result,
            rw (==-false q h ahead, above, next) run,
          )
    ]

insert_at :
    (m : Memory) (h e : ℕ) (xs ys : List ℕ)
    → Represents m h (xs ++ ys)
    → Fresh e (h ∷ (xs ++ ys))
    → IsEntry m e
    → (m' : Memory) × (insert_tail_list m (first_of ys h) e ≡ some m')
      × Becomes m h (xs ++ e ∷ ys) m'
insert_at m h e xs [] r fresh mapped =
    insert_tail_list_lem m h xs e (subst (Represents m h) (append-nil xs) r)
      (subst (λ l. Fresh e (h ∷ l)) (append-nil xs) fresh) mapped
insert_at m h e xs (y ∷ ys) r fresh mapped = insert_before m h xs y ys e r fresh mapped

-- In any represented list the call returns and puts a new entry before the first one that it is
-- smaller than.
insert_ordered_list-placed :
    (fuel : ℕ) (m : Memory) (compare : CompareFunction) (h e : ℕ) (entries : List ℕ)
    → Represents m h entries
    → Fresh e (h ∷ entries)
    → IsEntry m e
    → length entries < fuel
    → (m' : Memory) × (insert_ordered_list fuel m compare h e ≡ some m')
      × Represents m' h (insert_sorted compare e entries)
unfolding insert_ordered_list StopsAt
insert_ordered_list-placed fuel m compare h e entries r fresh mapped enough =
    let (xs, ys, split, result, run) =
      place_loop-StopsAt fuel m compare h e h entries r.chain r.distinct.0 enough in
    let (m', insert, becomes) =
      insert_at m h e xs ys (subst (Represents m h) split r)
        (subst (λ l. Fresh e (h ∷ l)) split fresh) mapped in
    (
      m',
      >>=-run _ (assert_valid-head m h entries r)
          (>>=-run _ (Chain-first m h entries h r.chain) (>>=-run _ run insert)),
      subst (Represents m' h) (sym result) becomes.represents,
    )

-- For a represented list in ascending order, and a comparison that calls no two entries smaller than
-- each other, InsertOrderedList of a new entry returns, puts it before the first entry that it is
-- smaller than, and leaves the list in ascending order: fuel for a round per entry and one more is
-- enough.
pub insert_ordered_list-returns :
    (fuel : ℕ) (m : Memory) (compare : CompareFunction) (h e : ℕ) (entries : List ℕ)
    → Represents m h entries
    → Fresh e (h ∷ entries)
    → IsEntry m e
    → length entries < fuel
    → ((a b : ℕ) → is_smaller (compare a b) ≡ true → is_smaller (compare b a) ≡ false)
    → Ascending compare entries
    → (m' : Memory) × (insert_ordered_list fuel m compare h e ≡ some m')
      × Represents m' h (insert_sorted compare e entries)
      × Ascending compare (insert_sorted compare e entries)
insert_ordered_list-returns fuel m compare h e entries r fresh mapped enough asymmetric sorted =
    let (m', run, placed) =
      insert_ordered_list-placed fuel m compare h e entries r fresh mapped enough in
    (m', run, placed, insert_sorted-Ascending compare e entries asymmetric sorted)
