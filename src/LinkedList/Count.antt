-- ===== src/LinkedList/Count.antt =====
-- ListSize and GetListElemByIndex on a represented list.
use hall.Prelude.{
  ℕ, zero, suc, ◌+◌, ◌%◌, ◌<◌, ◌≡◌, refl, sym, ap, ◌∙◌, subst, true, false, some, List, [], ◌∷◌,
  ◌++◌, ◌==◌, ==_iff, ==-false, u32_mod, length, get_or, arith,
}
use hall.LinkedList.{Memory}
use hall.LinkedList.Chains.{Chain, Fresh, first_of, Chain-first}
use hall.LinkedList.Ring.{Represents}
use hall.LinkedList.Insert.{assert_valid-head}
use hall.LinkedList.Walks.{size_loop, list_size, index_loop, get_list_elem_by_index}

size_loop-run :
    (fuel : ℕ) (m : Memory) (h : ℕ) (p : ℕ) (entries : List ℕ) (count : ℕ)
    → Chain m p (entries ++ h ∷ [])
    → Fresh h entries
    → Fresh 0 entries
    → length entries < fuel
    → count < u32_mod
    → size_loop fuel m h (first_of entries h) count ≡ some ((count + length entries) % u32_mod)
unfolding size_loop
size_loop-run zero m h p entries count c ring mapped enough small = absurd (omega arith)
size_loop-run (suc fuel) m h p [] count c ring mapped enough small =
    rw ((==_iff h h).1 refl) (ap some (omega arith))
size_loop-run (suc fuel) m h p (q ∷ entries) count c ring mapped enough small =
    rw
      (
        ==-false q h (λ e. ring.0 (sym e)),
        ==-false q 0 (λ e. mapped.0 (sym e)),
        Chain-first m q entries h c.1,
      )
      (size_loop-run fuel m h q entries ((count + 1) % u32_mod) c.1 ring.1 mapped.1 (omega arith)
          (omega arith)
        ∙ ap some (omega arith))

-- ListSize of a represented list, in which NULL is no entry, returns the number of entries, as the
-- DWORD that it is: fuel for a round per entry and one more is enough.
pub list_size-returns :
    (fuel : ℕ) (m : Memory) (h : ℕ) (entries : List ℕ)
    → Represents m h entries
    → Fresh 0 (h ∷ entries)
    → length entries < fuel
    → list_size fuel m h ≡ some (length entries % u32_mod)
unfolding list_size
list_size-returns fuel m h entries r mapped enough =
    rw
      (
        ==-false h 0 (λ e. mapped.0 (sym e)),
        assert_valid-head m h entries r,
        Chain-first m h entries h r.chain,
      )
      (size_loop-run fuel m h h entries 0 r.chain r.distinct.0 mapped.1 enough (omega arith)
        ∙ ap (λ n. some (n % u32_mod)) (omega arith))

index_loop-run :
    (fuel : ℕ) (m : Memory) (h i : ℕ) (p : ℕ) (entries : List ℕ) (index : ℕ)
    → Chain m p (entries ++ h ∷ [])
    → Fresh h entries
    → Fresh 0 entries
    → length entries < fuel
    → index + length entries < u32_mod
    → index_loop fuel m h (index + i) (first_of entries h) index ≡ some (get_or entries i 0)
unfolding index_loop
index_loop-run zero m h i p entries index c ring mapped enough small = absurd (omega arith)
index_loop-run (suc fuel) m h i p [] index c ring mapped enough small =
    rw ((==_iff h h).1 refl) refl
index_loop-run (suc fuel) m h zero p (q ∷ entries) index c ring mapped enough small =
    let here : (index == index + 0) ≡ true = (==_iff index (index + 0)).1 (omega arith) in
    rw (==-false q h (λ e. ring.0 (sym e)), ==-false q 0 (λ e. mapped.0 (sym e)), here) refl
index_loop-run (suc fuel) m h (suc i) p (q ∷ entries) index c ring mapped enough small =
    let there : (index == index + suc i) ≡ false = ==-false index (index + suc i) (omega arith) in
    let next : (index + 1) % u32_mod ≡ suc index = omega arith in
    let aim : index + suc i ≡ suc index + i = omega arith in
    rw
      (
        ==-false q h (λ e. ring.0 (sym e)),
        ==-false q 0 (λ e. mapped.0 (sym e)),
        there,
        Chain-first m q entries h c.1,
        next,
        aim,
      )
      (index_loop-run fuel m h i q entries (suc index) c.1 ring.1 mapped.1 (omega arith)
        (omega arith))

-- GetListElemByIndex on a represented list of less than 2^32 entries, in which NULL is no entry,
-- returns the entry at the index, and NULL from the end of the list on.
pub get_list_elem_by_index-returns :
    (fuel : ℕ) (m : Memory) (h : ℕ) (entries : List ℕ) (i : ℕ)
    → Represents m h entries
    → Fresh 0 (h ∷ entries)
    → length entries < fuel
    → length entries < u32_mod
    → get_list_elem_by_index fuel m h i ≡ some (get_or entries i 0)
unfolding get_list_elem_by_index
get_list_elem_by_index-returns fuel m h entries i r mapped enough small =
    let start : 0 + i ≡ i = omega arith in
    rw
      (
        ==-false h 0 (λ e. mapped.0 (sym e)),
        assert_valid-head m h entries r,
        Chain-first m h entries h r.chain,
      )
      (subst (λ k. index_loop fuel m h k (first_of entries h) 0 ≡ some (get_or entries i 0)) start
        (index_loop-run fuel m h i h entries 0 r.chain r.distinct.0 mapped.1 enough (omega arith)))
