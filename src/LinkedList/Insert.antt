-- ===== src/LinkedList/Insert.antt =====
-- Insertion into a represented list.
use mathlib.Core.List.{append_assoc}
use hall.Prelude.{ℕ, ◌≡◌, ◌≢◌, refl, sym, ◌∙◌, subst, some, List, [], ◌∷◌, ◌++◌, ==_iff, >>=-run}
use hall.LinkedList.{
  Memory, update, set_flink, set_blink, assert_valid, insert_tail_list, insert_head_list,
}
use hall.LinkedList.Chains.{
  Linked, Chain, Fresh, last_of, last_of-Fresh, Chain-join, Chain-transfer, update-same,
  update-other, Fresh-rotate, last_of-append, Distinct-rotate,
}
use hall.LinkedList.Ring.{
  Represents, Represents-rotate, Represents-last, Represents-first, IsEntry, Becomes,
  IsEntry-update,
}

-- Memory with entry `e` linked in between `p` and `q`.
abbrev pub spliced : Memory → ℕ → ℕ → ℕ → Memory
spliced m e p q = record {
  flink = update (update m.flink e q) p e;
  blink = update (update m.blink e p) q e;
}

spliced-IsEntry : (m : Memory) (e p q x : ℕ) → IsEntry m x → IsEntry (spliced m e p q) x
spliced-IsEntry m e p q x mapped =
    IsEntry-update (record { flink = update m.flink e q; blink = update m.blink e p }) p e q e x
      (IsEntry-update m e q e p x mapped)

-- Entry `e` put before the head becomes the last one.
pub spliced-Represents :
    (m : Memory) (h : ℕ) (entries : List ℕ) (e : ℕ)
    → Represents m h entries
    → Fresh e (h ∷ entries)
    → Represents (spliced m e (last_of h entries) h) h (entries ++ e ∷ [])
spliced-Represents m h entries e r fresh =
    let m' = spliced m e (last_of h entries) h in
    let (chain, link) = Represents-last m h entries r in
    let kept : Chain m' h entries =
      Chain-transfer m m' h entries e r.distinct fresh
        (λ x n k.
          update-other (update m.flink e h) (last_of h entries) e x n
          ∙ update-other m.flink e h x k)
        (λ x n k.
          update-other (update m.blink e (last_of h entries)) h e x n
          ∙ update-other m.blink e (last_of h entries) x k)
        chain in
    let e_last : e ≢ last_of h entries = last_of-Fresh e h entries fresh in
    let to_e : Linked m' (last_of h entries) e = record {
      forward = update-same (update m.flink e h) (last_of h entries) e;
      backward =
          update-other (update m.blink e (last_of h entries)) h e e fresh.0
          ∙ update-same m.blink e (last_of h entries);
    } in
    let to_h : Linked m' e h = record {
      forward =
          update-other (update m.flink e h) (last_of h entries) e e e_last
          ∙ update-same m.flink e h;
      backward = update-same (update m.blink e (last_of h entries)) h e;
    } in
    record {
      chain =
          subst (Chain m' h) (sym (append_assoc entries (e ∷ []) (h ∷ [])))
            (Chain-join m' h entries e (h ∷ []) kept to_e (to_h, tt));
      distinct = Distinct-rotate (e ∷ []) (h ∷ entries) (fresh, r.distinct);
    }

-- The checks of a debug build pass at the head of a represented list.
pub assert_valid-head :
    (m : Memory) (h : ℕ) (entries : List ℕ) → Represents m h entries → assert_valid m h ≡ some tt
unfolding assert_valid
assert_valid-head m h entries r =
    let (q, rest, same, first) = Represents-first m h entries r in
    let (chain, back) = Represents-last m h entries r in
    rw (first.forward, first.backward, back.backward, back.forward, (==_iff h h).1 refl) refl

-- The writes of the two insertions.
pub set_flink-eq :
    (m : Memory) (p v : ℕ) {old : ℕ}
    → m.flink p ≡ some old
    → set_flink m p v ≡ some (record m { flink = update m.flink p v })
unfolding set_flink
set_flink-eq m p v h = rw h refl

pub set_blink-eq :
    (m : Memory) (p v : ℕ) {old : ℕ}
    → m.blink p ≡ some old
    → set_blink m p v ≡ some (record m { blink = update m.blink p v })
unfolding set_blink
set_blink-eq m p v h = rw h refl

insert_tail_list-run :
    (m : Memory) (h : ℕ) (entries : List ℕ) (e : ℕ)
    → Represents m h entries
    → Fresh e (h ∷ entries)
    → IsEntry m e
    → insert_tail_list m h e ≡ some (spliced m e (last_of h entries) h)
unfolding insert_tail_list
insert_tail_list-run m h entries e r fresh mapped =
    let (chain, link) = Represents-last m h entries r in
    let p = last_of h entries in
    let p_ne : p ≢ e = λ x. last_of-Fresh e h entries fresh (sym x) in
    let h_ne : h ≢ e = λ x. fresh.0 (sym x) in
    >>=-run _ (assert_valid-head m h entries r) (
      >>=-run _ link.backward (
        >>=-run _ (set_flink-eq m e h mapped.flink_of) (
          >>=-run _ (set_blink-eq (record m { flink = update m.flink e h }) e p mapped.blink_of) (
            >>=-run _
              (set_flink-eq (record m { flink = update m.flink e h; blink = update m.blink e p }) p
                e (update-other m.flink e h p p_ne ∙ link.forward))
              (set_blink-eq
                (record m { flink = update (update m.flink e h) p e; blink = update m.blink e p }) h
                e (update-other m.blink e p h h_ne ∙ link.backward))))))

-- InsertTailList on a represented list and an entry outside of it returns, and adds the entry as the
-- last one.
pub insert_tail_list_lem :
    (m : Memory) (h : ℕ) (entries : List ℕ) (e : ℕ)
    → Represents m h entries
    → Fresh e (h ∷ entries)
    → IsEntry m e
    → (m' : Memory) × (insert_tail_list m h e ≡ some m') × Becomes m h (entries ++ e ∷ []) m'
insert_tail_list_lem m h entries e r fresh mapped = (
  spliced m e (last_of h entries) h,
  insert_tail_list-run m h entries e r fresh mapped,
  record {
    represents = spliced-Represents m h entries e r fresh;
    keeps = spliced-IsEntry m e (last_of h entries) h;
  },
)

-- With any entry in place of the head, InsertTailList puts the new entry before that entry.
pub insert_before :
    (m : Memory) (h : ℕ) (xs : List ℕ) (p : ℕ) (ys : List ℕ) (e : ℕ)
    → Represents m h (xs ++ p ∷ ys)
    → Fresh e (h ∷ (xs ++ p ∷ ys))
    → IsEntry m e
    → (m' : Memory) × (insert_tail_list m p e ≡ some m') × Becomes m h (xs ++ e ∷ (p ∷ ys)) m'
insert_before m h xs p ys e r fresh mapped =
    let turned = Represents-rotate m h xs p ys r in
    let (m', run, after) =
      insert_tail_list_lem m p (ys ++ h ∷ xs) e turned (Fresh-rotate e (h ∷ xs) (p ∷ ys) fresh)
        mapped in
    let back : Represents m' p (ys ++ h ∷ (xs ++ e ∷ [])) =
      subst (Represents m' p) (append_assoc ys (h ∷ xs) (e ∷ [])) after.represents in
    (
      m',
      run,
      record {
        represents =
            subst (Represents m' h) (append_assoc xs (e ∷ []) (p ∷ ys))
              (Represents-rotate m' p ys h (xs ++ e ∷ []) back);
        keeps = after.keeps;
      },
    )

insert_head_list-run :
    (m : Memory) (h q : ℕ) (e : ℕ)
    → assert_valid m h ≡ some tt
    → Linked m h q
    → h ≢ e
    → q ≢ e
    → IsEntry m e
    → insert_head_list m h e ≡ some (spliced m e h q)
unfolding insert_head_list
insert_head_list-run m h q e valid link h_ne q_ne mapped = >>=-run _ valid (
    >>=-run _ link.forward (
      >>=-run _ (set_flink-eq m e q mapped.flink_of) (
        >>=-run _ (set_blink-eq (record m { flink = update m.flink e q }) e h mapped.blink_of) (
          >>=-run _
            (set_blink-eq (record m { flink = update m.flink e q; blink = update m.blink e h }) q e
              (update-other m.blink e h q q_ne ∙ link.backward))
            (set_flink-eq
              (record m { flink = update m.flink e q; blink = update (update m.blink e h) q e }) h e
              (update-other m.flink e q h h_ne ∙ link.forward))))))

-- InsertHeadList on a represented list and an entry outside of it returns, and adds the entry as the
-- first one.
pub insert_head_list_lem :
    (m : Memory) (h : ℕ) (entries : List ℕ) (e : ℕ)
    → Represents m h entries
    → Fresh e (h ∷ entries)
    → IsEntry m e
    → (m' : Memory) × (insert_head_list m h e ≡ some m') × Becomes m h (e ∷ entries) m'
insert_head_list_lem m h [] e r fresh mapped = (
  spliced m e h h,
  insert_head_list-run m h h e (assert_valid-head m h [] r) r.chain.0 (λ x. fresh.0 (sym x))
      (λ x. fresh.0 (sym x)) mapped,
  record { represents = spliced-Represents m h [] e r fresh; keeps = spliced-IsEntry m e h h },
)
insert_head_list_lem m h (q ∷ entries) e r fresh mapped =
    let m' = spliced m e h q in
    let turned = Represents-rotate m h [] q entries r in
    let after : Represents m' q ((entries ++ h ∷ []) ++ e ∷ []) =
      subst (λ p. Represents (spliced m e p q) q ((entries ++ h ∷ []) ++ e ∷ []))
        (last_of-append q entries h)
        (spliced-Represents m q (entries ++ h ∷ []) e turned
          (Fresh-rotate e (h ∷ []) (q ∷ entries) fresh)) in
    (
      m',
      insert_head_list-run m h q e (assert_valid-head m h (q ∷ entries) r) r.chain.0
          (λ x. fresh.0 (sym x)) (λ x. fresh.1.0 (sym x)) mapped,
      record {
        represents =
            Represents-rotate m' q entries h (e ∷ [])
              (subst (Represents m' q) (append_assoc entries (h ∷ []) (e ∷ [])) after);
        keeps = spliced-IsEntry m e h q;
      },
    )
