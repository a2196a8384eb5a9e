-- ===== src/LinkedList/Each.antt =====
-- ForEachElementExecute and the list iterator on a represented list.
use hall.Prelude.{
  ℕ, zero, suc, ◌<◌, ◌≡◌, refl, sym, Bool, false, not, ◌&&◌, Option, none, some, List, [], ◌∷◌,
  ◌++◌, ◌==◌, ==_iff, ==-false, length, arith, if◌then◌else◌, inl, inr, Bool-cases, ◌>>=◌, >>=-run,
}
use hall.LinkedList.{Memory}
use hall.LinkedList.Chains.{Chain, Fresh, first_of, Chain-first}
use hall.LinkedList.Ring.{Represents}
use hall.LinkedList.Insert.{assert_valid-head}
use hall.LinkedList.Walks.{
  for_each_loop, for_each_element_execute, ListIterator, list_iterator_init, list_iterator_next,
}

module _ {ℓ} {S : Type ℓ} (function : ℕ → S → ℕ × S) (succeeded : ℕ → Bool)
    (all_must_succeed : Bool) where
  -- The calls in the order of the entries: up to the first that fails, when all must succeed, and
  -- all of them otherwise; the status is the last call's, or the given one when there is none.
  unfoldable pub visit : List ℕ → ℕ → S → ℕ × S
  visit [] status s = (status, s)
  visit (x ∷ entries) status s =
      let r = function x s in
      let rest = visit entries r.0 r.1 in
      if all_must_succeed && not (succeeded r.0) then r else rest

  for_each_loop-run :
      (fuel : ℕ) (m : Memory) (h p : ℕ) (entries : List ℕ) (status : ℕ) (s : S)
      → Chain m p (entries ++ h ∷ [])
      → Fresh h entries
      → Fresh 0 entries
      → length entries < fuel
      → for_each_loop fuel m function succeeded all_must_succeed h (first_of entries h) status s
        ≡ some (visit entries status s)
  unfolding for_each_loop visit
  for_each_loop-run zero m h p entries status s c ring mapped enough = absurd (omega arith)
  for_each_loop-run (suc fuel) m h p [] status s c ring mapped enough =
      rw ((==_iff h h).1 refl) refl
  for_each_loop-run (suc fuel) m h p (q ∷ entries) status s c ring mapped enough =
      let ahead : (q == h) ≡ false = ==-false q h (λ e. ring.0 (sym e)) in
      let real : (q == 0) ≡ false = ==-false q 0 (λ e. mapped.0 (sym e)) in
      let next = Chain-first m q entries h c.1 in
      let r = function q s in
      let rest = for_each_loop-run fuel m h q entries r.0 r.1 c.1 ring.1 mapped.1 (omega arith) in
      elim (Bool-cases (all_must_succeed && not (succeeded r.0))) [
        | inl stop ↦ rw (ahead, real, stop) refl
        | inr onward ↦ rw (ahead, real, onward, next) rest
      ]

  -- ForEachElementExecute on a represented list, in which NULL is no entry, calls the function on the
  -- entries in order and returns: with AllMustSucceed the status of the first call that fails, and
  -- otherwise the status of the last call, or STATUS_SUCCESS (0) from an empty list.
  pub for_each_element_execute-returns :
      (fuel : ℕ) (m : Memory) (h : ℕ) (entries : List ℕ) (s : S)
      → Represents m h entries
      → Fresh 0 entries
      → length entries < fuel
      → for_each_element_execute fuel m function succeeded all_must_succeed h s
        ≡ some (visit entries 0 s)
  unfolding for_each_element_execute
  for_each_element_execute-returns fuel m h entries s r mapped enough =
      >>=-run _ (assert_valid-head m h entries r) (
        >>=-run _ (Chain-first m h entries h r.chain)
          (for_each_loop-run fuel m h h entries 0 s r.chain r.distinct.0 mapped enough))

-- ListIteratorNext until it returns NULL, with fuel.
unfoldable pub drain : ℕ → Memory → ListIterator → Option (List ℕ)
drain zero m it = none
drain (suc fuel) m it = do
  r ← list_iterator_next m it
  let rest = drain fuel m r.1 >>= λ l. some (r.0 ∷ l) in if r.0 == 0 then some [] else rest

drain-run :
    (fuel : ℕ) (m : Memory) (h p : ℕ) (entries : List ℕ)
    → Chain m p (entries ++ h ∷ [])
    → Fresh h entries
    → Fresh 0 entries
    → length entries < fuel
    → drain fuel m (record { list_head = h; current_entry = first_of entries h }) ≡ some entries
unfolding drain list_iterator_next
drain-run zero m h p entries c ring mapped enough = absurd (omega arith)
drain-run (suc fuel) m h p [] c ring mapped enough = rw ((==_iff h h).1 refl) refl
drain-run (suc fuel) m h p (q ∷ entries) c ring mapped enough =
    rw
      (
        ==-false q h (λ e. ring.0 (sym e)),
        Chain-first m q entries h c.1,
        ==-false q 0 (λ e. mapped.0 (sym e)),
        drain-run fuel m h q entries c.1 ring.1 mapped.1 (omega arith),
      )
      refl

-- An iterator from ListIteratorInit yields the entries of a represented list in their order, one for
-- each call of ListIteratorNext, and then NULL.
pub iterate-returns :
    (fuel : ℕ) (m : Memory) (h : ℕ) (entries : List ℕ)
    → Represents m h entries
    → Fresh 0 entries
    → length entries < fuel
    → (list_iterator_init m h >>= drain fuel m) ≡ some entries
unfolding list_iterator_init
iterate-returns fuel m h entries r mapped enough =
    >>=-run _ (>>=-run _ (Chain-first m h entries h r.chain) refl)
      (drain-run fuel m h h entries r.chain r.distinct.0 mapped enough)
