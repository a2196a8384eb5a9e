-- ===== src/LinkedList/Refine.antt =====
-- The lists as an abstract type: a sequence of entries, and what each operation does to it.
use hall.Prelude.{
  not_both, is_in, ℕ, ◌≡◌, inl, inr, refl, sym, ap, ◌∙◌, subst, Bool, false, Option, none, some,
  List, [], ◌∷◌, ◌++◌, ◌==◌, ==_iff, if◌then◌else◌, if-cases, some_inj, ◌>>=◌, >>=-run, >>=-eq-some,
  All,
}
use hall.LinkedList.{
  Memory, is_list_empty, remove_entry_list, remove_head_list, remove_tail_list, insert_head_list,
  insert_tail_list,
}
use hall.LinkedList.Chains.{Fresh, last_of, front_of}
use hall.LinkedList.Ring.{Represents, IsEntry, Becomes}
use hall.LinkedList.Insert.{insert_tail_list_lem, insert_head_list_lem}
use hall.LinkedList.Remove.{
  is_list_empty_lem, is_nil, remove_entry_list_lem, remove_head_list_lem, remove_head_list-empty,
  remove_tail_list_lem, remove_tail_list-empty,
}

-- The calls on a list, and what they return.
pub data Command : Type 0 where
  insert_head : (entry : ℕ) → Command
  insert_tail : (entry : ℕ) → Command
  remove_head : Command
  remove_tail : Command
  remove_entry : (entry : ℕ) → Command
  ask_empty : Command

pub data Reply : Type 0 where
  done : Reply
  removed : (entry : ℕ) → Reply
  emptied : (is_empty : Bool) → Reply

-- On memory.
unfoldable pub perform : Memory → ℕ → Command → Option (Reply × Memory)
perform m head (insert_head e) = do m' ← insert_head_list m head e; some (done, m')
perform m head (insert_tail e) = do m' ← insert_tail_list m head e; some (done, m')
perform m head remove_head = do r ← remove_head_list m head; some (removed r.0, r.1)
perform m head remove_tail = do r ← remove_tail_list m head; some (removed r.0, r.1)
perform m head (remove_entry e) = do r ← remove_entry_list m e; some (emptied r.0, r.1)
perform m head ask_empty = do empty ← is_list_empty m head; some (emptied empty, m)

unfoldable pub perform_all : Memory → ℕ → List Command → Option (List Reply × Memory)
perform_all m head [] = some ([], m)
perform_all m head (c ∷ commands) = do
  r ← perform m head c
  rest ← perform_all r.1 head commands
  some (r.0 ∷ rest.0, rest.1)

-- On sequences: an entry is inserted once, and removed when it is there.
abbrev pub without : ℕ → List ℕ → Option (List ℕ)
without e [] = none
without e (x ∷ xs) =
    let rest = without e xs in if e == x then some xs else rest >>= λ l. some (x ∷ l)

unfoldable pub respond : ℕ → List ℕ → Command → Option (Reply × List ℕ)
respond head entries (insert_head e) =
    if is_in e (head ∷ entries) then none else some (done, e ∷ entries)
respond head entries (insert_tail e) =
    if is_in e (head ∷ entries) then none else some (done, entries ++ e ∷ [])
respond head [] remove_head = some (removed head, [])
respond head (q ∷ entries) remove_head = some (removed q, entries)
respond head [] remove_tail = some (removed head, [])
respond head (q ∷ entries) remove_tail = some (removed (last_of q entries), front_of q entries)
respond head entries (remove_entry e) =
    without e entries >>= λ rest. some (emptied (is_nil rest), rest)
respond head entries ask_empty = some (emptied (is_nil entries), entries)

unfoldable pub respond_all : ℕ → List ℕ → List Command → Option (List Reply × List ℕ)
respond_all head entries [] = some ([], entries)
respond_all head entries (c ∷ commands) = do
  r ← respond head entries c
  rest ← respond_all head r.1 commands
  some (r.0 ∷ rest.0, rest.1)

-- The entry that a call inserts is a LIST_ENTRY of memory.
abbrev pub IsMapped : Memory → Command → Type 0
IsMapped m (insert_head e) = IsEntry m e
IsMapped m (insert_tail e) = IsEntry m e
IsMapped m c = Unit

not_in-Fresh : (e : ℕ) (entries : List ℕ) → is_in e entries ≡ false → Fresh e entries
not_in-Fresh e [] h = tt
not_in-Fresh e (x ∷ xs) h = elim (if-cases (e == x) h) [
  | inl (same, k) ↦ cc
  | inr (other, k) ↦ ((λ eq. not_both ((==_iff e x).1 eq) other), not_in-Fresh e xs k)
]

without-split :
    (e : ℕ) (entries rest : List ℕ)
    → without e entries ≡ some rest
    → (xs : List ℕ) × (ys : List ℕ) × (entries ≡ xs ++ e ∷ ys) × (xs ++ ys ≡ rest)
without-split e [] rest h = cc
without-split e (x ∷ entries) rest h = elim (if-cases (e == x) h) [
  | inl (same, k) ↦ ([], entries, ap (λ z. z ∷ entries) (sym ((==_iff e x).0 same)), some_inj k)
  | inr (other, k) ↦
      let (l, at, result) = >>=-eq-some (without e entries) (λ l. some (x ∷ l)) k in
      let (xs, ys, split, joined) = without-split e entries l at in
      (x ∷ xs, ys, ap (λ z. x ∷ z) split, ap (λ z. x ∷ z) joined ∙ some_inj result)
]

front-last : (p : ℕ) (entries : List ℕ) → p ∷ entries ≡ front_of p entries ++ last_of p entries ∷ []
front-last p [] = refl
front-last p (q ∷ entries) = ap (λ l. p ∷ l) (front-last q entries)

-- A call that the sequence allows does to memory what it does to the sequence.
Simulates : Memory → ℕ → Command → Reply → List ℕ → Type 0
Simulates m head c reply entries =
    (m' : Memory) × (perform m head c ≡ some (reply, m')) × Becomes m head entries m'

answered :
    (m : Memory) (h : ℕ) (c : Command) {reply reply' : Reply} {after after' : List ℕ}
    → Simulates m h c reply after
    → ◌≡◌ {A = Option (Reply × List ℕ)} (some (reply, after)) (some (reply', after'))
    → Simulates m h c reply' after'
answered m h c s same = subst (λ p. Simulates m h c p.0 p.1) (some_inj same) s

simulate :
    (m : Memory) (h : ℕ) (entries : List ℕ) (c : Command)
    → Represents m h entries
    → IsMapped m c
    → (reply : Reply) (after : List ℕ) → respond h entries c ≡ some (reply, after)
    → Simulates m h c reply after
unfolding respond perform Simulates
simulate m h entries (insert_head x) r mapped reply after k =
    elim (if-cases (is_in x (h ∷ entries)) k) [
      | inl (there, n) ↦ cc
      | inr (absent, n) ↦
          let (m', run, becomes) =
            insert_head_list_lem m h entries x r (not_in-Fresh x (h ∷ entries) absent) mapped in
          answered m h (insert_head x) (m', >>=-run _ run refl, becomes) n
    ]
simulate m h entries (insert_tail x) r mapped reply after k =
    elim (if-cases (is_in x (h ∷ entries)) k) [
      | inl (there, n) ↦ cc
      | inr (absent, n) ↦
          let (m', run, becomes) =
            insert_tail_list_lem m h entries x r (not_in-Fresh x (h ∷ entries) absent) mapped in
          answered m h (insert_tail x) (m', >>=-run _ run refl, becomes) n
    ]
simulate m h [] remove_head r mapped reply after k =
    let (m', run, becomes) = remove_head_list-empty m h r in
    answered m h remove_head (m', >>=-run _ run refl, becomes) k
simulate m h (q ∷ entries) remove_head r mapped reply after k =
    let (m', run, becomes) = remove_head_list_lem m h q entries r in
    answered m h remove_head (m', >>=-run _ run refl, becomes) k
simulate m h [] remove_tail r mapped reply after k =
    let (m', run, becomes) = remove_tail_list-empty m h r in
    answered m h remove_tail (m', >>=-run _ run refl, becomes) k
simulate m h (q ∷ entries) remove_tail r mapped reply after k =
    let (m', run, becomes) =
      remove_tail_list_lem m h (front_of q entries) (last_of q entries)
        (subst (Represents m h) (front-last q entries) r) in
    answered m h remove_tail (m', >>=-run _ run refl, becomes) k
simulate m h entries (remove_entry e) r mapped reply after k =
    let (rest, at, result) =
      >>=-eq-some (without e entries) (λ rest. some (emptied (is_nil rest), rest)) k in
    let (xs, ys, split, joined) = without-split e entries rest at in
    let (m', run, becomes) = remove_entry_list_lem m h xs e ys (subst (Represents m h) split r) in
    answered m h (remove_entry e)
      (subst (λ l. Simulates m h (remove_entry e) (emptied (is_nil l)) l) joined
        (m', >>=-run _ run refl, becomes))
      result
simulate m h entries ask_empty r mapped reply after k =
    answered m h ask_empty
      (
        m,
        >>=-run _ (is_list_empty_lem m h entries r) refl,
        record { represents = r; keeps = λ x e. e },
      )
      k

IsMapped-keeps :
    (m m' : Memory)
    → ((x : ℕ) → IsEntry m x → IsEntry m' x)
    → (c : Command) → IsMapped m c
    → IsMapped m' c
IsMapped-keeps m m' keeps (insert_head e) h = keeps e h
IsMapped-keeps m m' keeps (insert_tail e) h = keeps e h
IsMapped-keeps m m' keeps remove_head h = tt
IsMapped-keeps m m' keeps remove_tail h = tt
IsMapped-keeps m m' keeps (remove_entry e) h = tt
IsMapped-keeps m m' keeps ask_empty h = tt

All-IsMapped-keeps :
    (m m' : Memory)
    → ((x : ℕ) → IsEntry m x → IsEntry m' x)
    → (commands : List Command) → All (IsMapped m) commands
    → All (IsMapped m') commands
All-IsMapped-keeps m m' keeps [] h = tt
All-IsMapped-keeps m m' keeps (c ∷ commands) h =
    (IsMapped-keeps m m' keeps c h.0, All-IsMapped-keeps m m' keeps commands h.1)

Finishes : Memory → ℕ → List Command → List Reply → List ℕ → Type 0
Finishes m h commands replies after =
    (m' : Memory) × (perform_all m h commands ≡ some (replies, m')) × Represents m' h after

-- Whatever calls of InsertHeadList, InsertTailList, RemoveHeadList, RemoveTailList,
-- RemoveEntryList and IsListEmpty a sequence of entries allows (no entry is inserted while it is in the list, only
-- entries in the list are removed by address, inserted entries lie in mapped memory), the code on
-- memory that represents the sequence returns from all of them with the same replies, among them the
-- removed entries in order and the head itself from an empty list, and leaves memory that represents
-- the resulting sequence.
pub perform_all-refines :
    (m : Memory) (h : ℕ) (entries : List ℕ) (commands : List Command) (replies : List Reply)
    (after : List ℕ)
    → Represents m h entries
    → All (IsMapped m) commands
    → respond_all h entries commands ≡ some (replies, after)
    → (m' : Memory) × (perform_all m h commands ≡ some (replies, m')) × Represents m' h after
unfolding respond_all perform_all Simulates Finishes
perform_all-refines m h entries [] replies after r mapped k =
    subst (λ p. Finishes m h [] p.0 p.1) (some_inj k) (m, refl, r)
perform_all-refines m h entries (c ∷ commands) replies after r mapped k =
    let ((reply, middle), here, k') = >>=-eq-some (respond h entries c) _ k in
    let ((others, last), there, end) = >>=-eq-some (respond_all h middle commands) _ k' in
    let (m1, run, becomes) = simulate m h entries c r mapped.0 reply middle here in
    let (m2, runs, final) =
      perform_all-refines m1 h middle commands others last becomes.represents
        (All-IsMapped-keeps m m1 becomes.keeps commands mapped.1) there in
    subst (λ p. Finishes m h (c ∷ commands) p.0 p.1) (some_inj end)
      (m2, >>=-run _ run (>>=-run _ runs refl), final)
