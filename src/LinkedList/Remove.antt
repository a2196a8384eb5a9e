-- ===== src/LinkedList/Remove.antt =====
-- Removal from a represented list.
use mathlib.Core.List.{append-nil}
use hall.Prelude.{
  ℕ, ◌≡◌, refl, sym, ap, ◌∙◌, subst, Bool, true, false, some, List, [], ◌∷◌, ◌++◌, ◌==◌, ==_iff,
  ==-false, >>=-run,
}
use hall.LinkedList.{
  is_list_empty, initialize_list_head, Memory, update, assert_valid, remove_entry_list,
  remove_head_list, remove_tail_list,
}
use hall.LinkedList.Chains.{
  first_of, Linked, last_of, last_of-Fresh, Chain-join, Chain-transfer, update-same, update-other,
  Fresh-append, last_of-join,
}
use hall.LinkedList.Ring.{
  Represents, Represents-rotate, Represents-last, IsEntry, Becomes, IsEntry-update,
}
use hall.LinkedList.Insert.{assert_valid-head, set_flink-eq, set_blink-eq}

-- Memory with `p` linked to `q`.
abbrev pub joined : Memory → ℕ → ℕ → Memory
joined m p q = record { flink = update m.flink p q; blink = update m.blink q p }

joined-Linked : (m : Memory) (p q : ℕ) → Linked (joined m p q) p q
joined-Linked m p q = record {
  forward = update-same m.flink p q;
  backward = update-same m.blink q p;
}

-- Without its head, a ring of two entries or more goes on at the next entry.
joined-next :
    (m : Memory) (e q : ℕ) (rest : List ℕ)
    → Represents m e (q ∷ rest)
    → Represents (joined m (last_of q rest) q) q rest
joined-next m e q rest r =
    let m' = joined m (last_of q rest) q in
    let (chain, link) = Represents-last m e (q ∷ rest) r in
    record {
      chain =
          Chain-join m' q rest q []
            (Chain-transfer m m' q rest e r.distinct.1 r.distinct.0
              (λ x n k. update-other m.flink (last_of q rest) q x n)
              (λ x n k. update-other m.blink q (last_of q rest) x n) chain.1)
            (joined-Linked m (last_of q rest) q) tt;
      distinct = r.distinct.1;
    }

-- With an entry's neighbours joined, the list has the other entries in their order.
pub joined-Represents :
    (m : Memory) (h : ℕ) (xs : List ℕ) (e : ℕ) (ys : List ℕ)
    → Represents m h (xs ++ e ∷ ys)
    → Represents (joined m (last_of h xs) (first_of ys h)) h (xs ++ ys)
joined-Represents m h xs e [] r =
    subst (Represents (joined m (last_of h xs) h) h) (sym (append-nil xs))
      (joined-next m e h xs (Represents-rotate m h xs e [] r))
joined-Represents m h xs e (y ∷ ys) r =
    let next = joined-next m e y (ys ++ h ∷ xs) (Represents-rotate m h xs e (y ∷ ys) r) in
    Represents-rotate (joined m (last_of h xs) y) y ys h xs
      (subst (λ p. Represents (joined m p y) y (ys ++ h ∷ xs)) (last_of-join y ys h xs) next)

first_of-Linked :
    (m : Memory) (h : ℕ) (entries : List ℕ)
    → Represents m h entries
    → Linked m h (first_of entries h)
first_of-Linked m h [] r = r.chain.0
first_of-Linked m h (q ∷ entries) r = r.chain.0

-- The two neighbours of an entry.
neighbours :
    (m : Memory) (h : ℕ) (xs : List ℕ) (e : ℕ) (ys : List ℕ)
    → Represents m h (xs ++ e ∷ ys)
    → (assert_valid m e ≡ some tt) × Linked m (last_of h xs) e × Linked m e (first_of ys h)
neighbours m h xs e ys r =
    let turned = Represents-rotate m h xs e ys r in
    (
      assert_valid-head m e (ys ++ h ∷ xs) turned,
      subst (λ p. Linked m p e) (last_of-join e ys h xs)
          (Represents-last m e (ys ++ h ∷ xs) turned).1,
      after ys turned,
    )
  where
    after : (ys : List ℕ) → Represents m e (ys ++ h ∷ xs) → Linked m e (first_of ys h)
    after [] t = t.chain.0
    after (y ∷ ys) t = t.chain.0

joined-Becomes :
    (m : Memory) {h : ℕ} (p q : ℕ) {entries : List ℕ}
    → Represents (joined m p q) h entries
    → Becomes m h entries (joined m p q)
joined-Becomes m p q r = record {
  represents = r;
  keeps = λ x mapped. IsEntry-update m p q q p x mapped;
}

abbrev pub is_nil : List ℕ → Bool
is_nil [] = true
is_nil (x ∷ xs) = false

-- The two neighbours are one and the same only when they are the head.
same_neighbour :
    (m : Memory) (h : ℕ) (xs : List ℕ) (e : ℕ) (ys : List ℕ)
    → Represents m h (xs ++ e ∷ ys)
    → (first_of ys h == last_of h xs) ≡ is_nil (xs ++ ys)
same_neighbour m h [] e [] r = (==_iff h h).1 refl
same_neighbour m h (x ∷ xs) e [] r =
    ==-false h (last_of x xs)
      (last_of-Fresh h x xs (Fresh-append h (x ∷ xs) (e ∷ []) r.distinct.0).0)
same_neighbour m h xs e (y ∷ ys) r =
    let turned = (Represents-rotate m h xs e (y ∷ ys) r).distinct.1.0 in
    ==-false y (last_of h xs) (last_of-Fresh y h xs (Fresh-append y ys (h ∷ xs) turned).1)
    ∙ sym (occupied xs)
  where
    occupied : (xs : List ℕ) → is_nil (xs ++ y ∷ ys) ≡ false
    occupied [] = refl
    occupied (x ∷ xs) = refl

-- RemoveEntryList of an entry of a represented list returns, takes the entry out, and says whether
-- the list is empty then.
pub remove_entry_list_lem :
    (m : Memory) (h : ℕ) (xs : List ℕ) (e : ℕ) (ys : List ℕ)
    → Represents m h (xs ++ e ∷ ys)
    → (m' : Memory) × (remove_entry_list m e ≡ some (is_nil (xs ++ ys), m'))
      × Becomes m h (xs ++ ys) m'
unfolding remove_entry_list
remove_entry_list_lem m h xs e ys r =
    let (valid, back, ahead) = neighbours m h xs e ys r in
    let p = last_of h xs in
    let q = first_of ys h in
    (
      joined m p q,
      >>=-run _ valid (
          >>=-run _ ahead.forward (
            >>=-run _ back.backward (
              >>=-run _ (set_flink-eq m p q back.forward) (
                >>=-run _
                  (set_blink-eq (record m { flink = update m.flink p q }) q p ahead.backward)
                  (ap (λ b. some (b, joined m p q)) (same_neighbour m h xs e ys r)))))),
      joined-Becomes m p q (joined-Represents m h xs e ys r),
    )

alone : (m : Memory) (h : ℕ) → Represents (joined m h h) h []
alone m h = record { chain = (joined-Linked m h h, tt); distinct = (tt, tt) }

-- RemoveHeadList returns the first entry and takes it out; of an empty list it returns the head.
pub remove_head_list_lem :
    (m : Memory) (h : ℕ) (e : ℕ) (ys : List ℕ)
    → Represents m h (e ∷ ys)
    → (m' : Memory) × (remove_head_list m h ≡ some (e, m')) × Becomes m h ys m'
unfolding remove_head_list
remove_head_list_lem m h e ys r =
    let (valid, back, ahead) = neighbours m h [] e ys r in
    let q = first_of ys h in
    (
      joined m h q,
      >>=-run _ (assert_valid-head m h (e ∷ ys) r) (
          >>=-run _ back.forward (
            >>=-run _ ahead.forward (
              >>=-run _ (set_flink-eq m h q back.forward) (
                >>=-run _
                  (set_blink-eq (record m { flink = update m.flink h q }) q h ahead.backward)
                  refl)))),
      joined-Becomes m h q (joined-Represents m h [] e ys r),
    )

pub remove_head_list-empty :
    (m : Memory) (h : ℕ)
    → Represents m h []
    → (m' : Memory) × (remove_head_list m h ≡ some (h, m')) × Becomes m h [] m'
unfolding remove_head_list
remove_head_list-empty m h r =
    let link = r.chain.0 in
    (
      joined m h h,
      >>=-run _ (assert_valid-head m h [] r) (
          >>=-run _ link.forward (
            >>=-run _ link.forward (
              >>=-run _ (set_flink-eq m h h link.forward) (
                >>=-run _ (set_blink-eq (record m { flink = update m.flink h h }) h h link.backward)
                  refl)))),
      joined-Becomes m h h (alone m h),
    )

-- RemoveTailList returns the last entry and takes it out; of an empty list it returns the head.
pub remove_tail_list_lem :
    (m : Memory) (h : ℕ) (xs : List ℕ) (e : ℕ)
    → Represents m h (xs ++ e ∷ [])
    → (m' : Memory) × (remove_tail_list m h ≡ some (e, m')) × Becomes m h xs m'
unfolding remove_tail_list
remove_tail_list_lem m h xs e r =
    let (valid, back, ahead) = neighbours m h xs e [] r in
    let p = last_of h xs in
    (
      joined m p h,
      >>=-run _ (assert_valid-head m h (xs ++ e ∷ []) r) (
          >>=-run _ ahead.backward (
            >>=-run _ back.backward (
              >>=-run _ (set_blink-eq m h p ahead.backward) (
                >>=-run _ (set_flink-eq (record m { blink = update m.blink h p }) p h back.forward)
                  refl)))),
      joined-Becomes m p h
          (subst (Represents (joined m p h) h) (append-nil xs) (joined-Represents m h xs e [] r)),
    )

pub remove_tail_list-empty :
    (m : Memory) (h : ℕ)
    → Represents m h []
    → (m' : Memory) × (remove_tail_list m h ≡ some (h, m')) × Becomes m h [] m'
unfolding remove_tail_list
remove_tail_list-empty m h r =
    let link = r.chain.0 in
    (
      joined m h h,
      >>=-run _ (assert_valid-head m h [] r) (
          >>=-run _ link.backward (
            >>=-run _ link.backward (
              >>=-run _ (set_blink-eq m h h link.backward) (
                >>=-run _ (set_flink-eq (record m { blink = update m.blink h h }) h h link.forward)
                  refl)))),
      joined-Becomes m h h (alone m h),
    )

-- IsListEmpty of a represented list.
pub is_list_empty_lem :
    (m : Memory) (h : ℕ) (entries : List ℕ)
    → Represents m h entries
    → is_list_empty m h ≡ some (is_nil entries)
unfolding is_list_empty
is_list_empty_lem m h [] r =
    >>=-run _ (assert_valid-head m h [] r)
      (>>=-run _ (first_of-Linked m h [] r).forward (ap some ((==_iff h h).1 refl)))
is_list_empty_lem m h (q ∷ entries) r = >>=-run _ (assert_valid-head m h (q ∷ entries) r) (
    >>=-run _ (first_of-Linked m h (q ∷ entries) r).forward
      (ap some (==-false q h (λ e. r.distinct.0.0 (sym e)))))

-- InitializeListHead makes an empty list.
pub initialize_list_head_lem :
    (m : Memory) (h : ℕ)
    → IsEntry m h
    → (m' : Memory) × (initialize_list_head m h ≡ some m') × Becomes m h [] m'
unfolding initialize_list_head
initialize_list_head_lem m h mapped = (
  joined m h h,
  >>=-run _ (set_blink-eq m h h mapped.blink_of)
      (set_flink-eq (record m { blink = update m.blink h h }) h h mapped.flink_of),
  joined-Becomes m h h (alone m h),
)
