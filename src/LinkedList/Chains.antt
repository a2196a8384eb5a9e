-- ===== src/LinkedList/Chains.antt =====
-- Chains of links in memory, and the sequences of entries they go through.
use mathlib.Core.List.{append_assoc, append-nil}
use hall.Prelude.{
  ℕ, ◌≡◌, ◌≢◌, refl, sym, ap, ◌∙◌, subst, Option, some, List, [], ◌∷◌, ◌++◌, ==_iff, ==-false,
  if◌then◌else◌, All,
}
use hall.LinkedList.{Memory, update}

-- `q` follows `p`.
pub record Linked (m : Memory) (p q : ℕ) : Type 0 where
  pub forward : m.flink p ≡ some q
  pub backward : m.blink q ≡ some p

-- The entries follow `p` one by one.
abbrev pub Chain : Memory → ℕ → List ℕ → Type 0
Chain m p [] = Unit
Chain m p (q ∷ entries) = Linked m p q × Chain m q entries

abbrev pub Fresh : ℕ → List ℕ → Type 0
Fresh p = All (λ q. p ≢ q)

abbrev pub Distinct : List ℕ → Type 0
Distinct [] = Unit
Distinct (p ∷ entries) = Fresh p entries × Distinct entries

-- The last of `p` and the entries that follow it.
abbrev pub last_of : ℕ → List ℕ → ℕ
last_of p [] = p
last_of p (q ∷ entries) = last_of q entries

pub Chain-append :
    (m : Memory) (p : ℕ) (before : List ℕ) (q : ℕ) (after : List ℕ)
    → Chain m p (before ++ q ∷ after)
    → Chain m p before × Linked m (last_of p before) q × Chain m q after
Chain-append m p [] q after c = (tt, c.0, c.1)
Chain-append m p (x ∷ before) q after c =
    let rest = Chain-append m x before q after c.1 in ((c.0, rest.0), rest.1, rest.2)

pub Chain-join :
    (m : Memory) (p : ℕ) (before : List ℕ) (q : ℕ) (after : List ℕ)
    → Chain m p before
    → Linked m (last_of p before) q
    → Chain m q after
    → Chain m p (before ++ q ∷ after)
Chain-join m p [] q after c l d = (l, d)
Chain-join m p (x ∷ before) q after c l d = (c.0, Chain-join m x before q after c.1 l d)

pub last_of-Fresh : (x p : ℕ) (entries : List ℕ) → Fresh x (p ∷ entries) → x ≢ last_of p entries
last_of-Fresh x p [] f = f.0
last_of-Fresh x p (q ∷ entries) f = last_of-Fresh x q entries f.1

pub update-same : (field : ℕ → Option ℕ) (p v : ℕ) → update field p v p ≡ some v
update-same field p v = ap (λ b. if b then some v else field p) ((==_iff p p).1 refl)

pub update-other : (field : ℕ → Option ℕ) (p v q : ℕ) → q ≢ p → update field p v q ≡ field q
update-other field p v q n = ap (λ b. if b then some v else field q) (==-false q p n)

-- All but the last of `p` and the entries that follow it.
abbrev pub front_of : ℕ → List ℕ → List ℕ
front_of p [] = []
front_of p (q ∷ entries) = p ∷ front_of q entries

front_of-All :
    (Q : ℕ → Type 0) (p : ℕ) (entries : List ℕ) (e : ℕ)
    → Distinct (p ∷ entries)
    → Fresh e (p ∷ entries)
    → ((x : ℕ) → x ≢ last_of p entries → x ≢ e → Q x)
    → All Q (front_of p entries)
front_of-All Q p [] e d g h = tt
front_of-All Q p (q ∷ entries) e d g h =
    (h p (last_of-Fresh p q entries d.0) (λ x. g.0 (sym x)), front_of-All Q q entries e d.1 g.1 h)

entries-All :
    (Q : ℕ → Type 0) (p : ℕ) (entries : List ℕ) (e : ℕ)
    → Fresh p entries
    → Fresh e entries
    → ((x : ℕ) → x ≢ p → x ≢ e → Q x)
    → All Q entries
entries-All Q p [] e d g h = tt
entries-All Q p (q ∷ entries) e d g h =
    (h q (λ x. d.0 (sym x)) (λ x. g.0 (sym x)), entries-All Q p entries e d.1 g.1 h)

Chain-same :
    (m m' : Memory) (p : ℕ) (entries : List ℕ)
    → All (λ x. m'.flink x ≡ m.flink x) (front_of p entries)
    → All (λ x. m'.blink x ≡ m.blink x) entries
    → Chain m p entries
    → Chain m' p entries
Chain-same m m' p [] f b c = tt
Chain-same m m' p (q ∷ entries) f b c = (
  record { forward = f.0 ∙ c.0.forward; backward = b.0 ∙ c.0.backward },
  Chain-same m m' q entries f.1 b.1 c.1,
)

-- A chain does not read the forward link of its last entry, nor the backward link of `p`, nor any
-- link of an entry `e` outside of it.
pub Chain-transfer :
    (m m' : Memory) (p : ℕ) (entries : List ℕ) (e : ℕ)
    → Distinct (p ∷ entries)
    → Fresh e (p ∷ entries)
    → ((x : ℕ) → x ≢ last_of p entries → x ≢ e → m'.flink x ≡ m.flink x)
    → ((x : ℕ) → x ≢ p → x ≢ e → m'.blink x ≡ m.blink x)
    → Chain m p entries
    → Chain m' p entries
Chain-transfer m m' p entries e d g f b =
    Chain-same m m' p entries (front_of-All (λ x. m'.flink x ≡ m.flink x) p entries e d g f)
      (entries-All (λ x. m'.blink x ≡ m.blink x) p entries e d.0 g.1 b)

pub Fresh-append : (p : ℕ) (xs ys : List ℕ) → Fresh p (xs ++ ys) → Fresh p xs × Fresh p ys
Fresh-append p [] ys f = (tt, f)
Fresh-append p (x ∷ xs) ys f = let r = Fresh-append p xs ys f.1 in ((f.0, r.0), r.1)

pub Fresh-join : (p : ℕ) (xs ys : List ℕ) → Fresh p xs → Fresh p ys → Fresh p (xs ++ ys)
Fresh-join p [] ys f g = g
Fresh-join p (x ∷ xs) ys f g = (f.0, Fresh-join p xs ys f.1 g)

pub Fresh-rotate : (p : ℕ) (xs ys : List ℕ) → Fresh p (xs ++ ys) → Fresh p (ys ++ xs)
Fresh-rotate p xs ys f = let parts = Fresh-append p xs ys f in Fresh-join p ys xs parts.1 parts.0

-- To move one entry from the front of a list to any later place.
Distinct-move : (p : ℕ) (xs ys : List ℕ) → Distinct (p ∷ (xs ++ ys)) → Distinct (xs ++ p ∷ ys)
Distinct-move p [] ys d = d
Distinct-move p (x ∷ xs) ys d =
    let f = Fresh-append x xs ys d.1.0 in
    (Fresh-join x xs (p ∷ ys) f.0 ((λ e. d.0.0 (sym e)), f.1), Distinct-move p xs ys (d.0.1, d.1.1))

-- A ring may be entered at any of its entries.
pub Distinct-rotate : (xs ys : List ℕ) → Distinct (xs ++ ys) → Distinct (ys ++ xs)
Distinct-rotate [] ys d = subst Distinct (sym (append-nil ys)) d
Distinct-rotate (x ∷ xs) ys d =
    let last : Distinct ((xs ++ ys) ++ x ∷ []) =
      Distinct-move x (xs ++ ys) []
        (subst (λ l. Distinct (x ∷ l)) (sym (append-nil (xs ++ ys))) d) in
    subst Distinct (append_assoc ys (x ∷ []) xs)
      (Distinct-rotate xs (ys ++ x ∷ []) (subst Distinct (append_assoc xs ys (x ∷ [])) last))

pub last_of-append : (p : ℕ) (xs : List ℕ) (q : ℕ) → last_of p (xs ++ q ∷ []) ≡ q
last_of-append p [] q = refl
last_of-append p (x ∷ xs) q = last_of-append x xs q

pub last_of-join :
    (p : ℕ) (xs : List ℕ) (q : ℕ) (ys : List ℕ) → last_of p (xs ++ q ∷ ys) ≡ last_of q ys
last_of-join p [] q ys = refl
last_of-join p (x ∷ xs) q ys = last_of-join x xs q ys

-- The first of the entries, or the head that follows them.
abbrev pub first_of : List ℕ → ℕ → ℕ
first_of [] h = h
first_of (q ∷ entries) h = q

pub Chain-first :
    (m : Memory) (p : ℕ) (entries : List ℕ) (h : ℕ)
    → Chain m p (entries ++ h ∷ [])
    → m.flink p ≡ some (first_of entries h)
Chain-first m p [] h c = c.0.forward
Chain-first m p (q ∷ entries) h c = c.0.forward
