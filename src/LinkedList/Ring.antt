-- ===== src/LinkedList/Ring.antt =====
-- The list that the links of memory stand for.
use mathlib.Core.List.{append_assoc}
use hall.Prelude.{ℕ, ◌≡◌, refl, sym, ◌∙◌, subst, Option, some, List, [], ◌∷◌, ◌++◌, ℕ_discrete}
use hall.LinkedList.{Memory, update}
use hall.LinkedList.Chains.{
  Linked, Chain, Distinct, last_of, Chain-append, Chain-join, update-same, update-other,
  Distinct-rotate,
}

-- The circular list with this head and these entries: the abstract view of the links.
pub record Represents (m : Memory) (head : ℕ) (entries : List ℕ) : Type 0 where
  pub chain : Chain m head (entries ++ head ∷ [])
  pub distinct : Distinct (head ∷ entries)

-- There is a LIST_ENTRY at the address.
pub record IsEntry (m : Memory) (e : ℕ) : Type 0 where
  pub next : ℕ
  pub previous : ℕ
  pub flink_of : m.flink e ≡ some next
  pub blink_of : m.blink e ≡ some previous

-- An operation's effect: the list has these entries, and no LIST_ENTRY of memory is lost.
pub record Becomes (m : Memory) (h : ℕ) (entries : List ℕ) (m' : Memory) : Type 0 where
  pub represents : Represents m' h entries
  pub keeps : (x : ℕ) → IsEntry m x → IsEntry m' x

pub Represents-rotate :
    (m : Memory) (h : ℕ) (xs : List ℕ) (q : ℕ) (ys : List ℕ)
    → Represents m h (xs ++ q ∷ ys)
    → Represents m q (ys ++ h ∷ xs)
Represents-rotate m h xs q ys r =
    let whole : Chain m h (xs ++ q ∷ (ys ++ h ∷ [])) =
      subst (Chain m h) (append_assoc xs (q ∷ ys) (h ∷ [])) r.chain in
    let (first, link, second) = Chain-append m h xs q (ys ++ h ∷ []) whole in
    let (third, link', done) = Chain-append m q ys h [] second in
    record {
      chain =
          subst (Chain m q) (sym (append_assoc ys (h ∷ xs) (q ∷ [])))
            (Chain-join m q ys h (xs ++ q ∷ []) third link' (Chain-join m h xs q [] first link tt));
      distinct = Distinct-rotate (h ∷ xs) (q ∷ ys) r.distinct;
    }

-- The neighbours of the head.
pub Represents-last :
    (m : Memory) (h : ℕ) (entries : List ℕ)
    → Represents m h entries
    → Chain m h entries × Linked m (last_of h entries) h
Represents-last m h entries r = let c = Chain-append m h entries h [] r.chain in (c.0, c.1)

pub Represents-first :
    (m : Memory) (h : ℕ) (entries : List ℕ)
    → Represents m h entries
    → (q : ℕ) × (rest : List ℕ) × (entries ++ h ∷ [] ≡ q ∷ rest) × Linked m h q
Represents-first m h [] r = (h, [], refl, r.chain.0)
Represents-first m h (q ∷ entries) r = (q, entries ++ h ∷ [], refl, r.chain.0)

update-defined :
    (field : ℕ → Option ℕ) (p v x : ℕ) {old : ℕ}
    → field x ≡ some old
    → (new : ℕ) × (update field p v x ≡ some new)
update-defined field p v x {old} h = elim (ℕ_discrete x p) [
  | yes here ↦ (v, rw here (update-same field p v))
  | no there ↦ (old, update-other field p v x there ∙ h)
]

pub IsEntry-update :
    (m : Memory) (p v q w x : ℕ)
    → IsEntry m x
    → IsEntry (record { flink = update m.flink p v; blink = update m.blink q w }) x
IsEntry-update m p v q w x mapped =
    let (a, f) = update-defined m.flink p v x mapped.flink_of in
    let (b, g) = update-defined m.blink q w x mapped.blink_of in
    record { next = a; previous = b; flink_of = f; blink_of = g }
