-- ===== src/RefCount.antt =====
-- CommonLib/src/ref_cnt.c: reference counts. The count changes by one interlocked instruction in each
-- call, and the rest of a call looks at the value that it got, so that calls that overlap are calls in
-- the order of these instructions.
mod Tests
use hall.Prelude.{
  ℕ, zero, suc, ◌+◌, ◌-◌, ◌%◌, ◌<◌, ◌≤◌, ◌≡◌, ◌≢◌, ◌⊎◌, inl, inr, refl, sym, ap, ◌∙◌, subst, Bool,
  true, false, not, Option, none, some, List, [], ◌∷◌, ◌==◌, ==_iff, ==-false, if◌then◌else◌, ltb,
  leb, lt→ltb, le→leb, arith, ◌>>=◌, ◌>>◌, assert, add32, sub32, max_dword, length, ℕ_discrete,
  >>=-run, some_inj,
}

-- REF_COUNT, and how often its FreeFunction, which is not NULL, has been called
pub record RefCount : Type 0 where
  pub reference_count : ℕ
  pub frees : ℕ

-- RfcPreInit
abbrev pub rfc_pre_init : RefCount
rfc_pre_init = record { reference_count = 0; frees = 0 }

-- RfcInit
unfoldable pub rfc_init : RefCount → RefCount
rfc_init r = record r { reference_count = 1 }

-- RfcReference
unfoldable pub rfc_reference : RefCount → Option (ℕ × RefCount)
rfc_reference r =
    let new_ref_count = add32 r.reference_count 1 in
    assert (ltb new_ref_count max_dword)
    >> assert (leb 1 new_ref_count)
    >> some (new_ref_count, record r { reference_count = new_ref_count })

-- RfcDereference
unfoldable pub rfc_dereference : RefCount → Option (ℕ × RefCount)
rfc_dereference r =
    let new_ref_count = sub32 r.reference_count 1 in
    let counted = record r { reference_count = new_ref_count } in
    let freed = record counted { frees = r.frees + 1 } in
    assert (not (new_ref_count == max_dword))
    >> some (new_ref_count, if new_ref_count == 0 then freed else counted)

-- The calls on an object
pub data Use : Type 0 where
  reference : Use
  dereference : Use

unfoldable pub use_all : RefCount → List Use → Option RefCount
use_all r [] = some r
use_all r (reference ∷ uses) = do a ← rfc_reference r; use_all a.1 uses
use_all r (dereference ∷ uses) = do a ← rfc_dereference r; use_all a.1 uses

-- How many references are held after the calls: each call needs one to be held.
abbrev pub held_after : ℕ → List Use → Option ℕ
held_after held [] = some held
held_after zero (u ∷ uses) = none
held_after (suc held) (reference ∷ uses) = held_after (suc (suc held)) uses
held_after (suc held) (dereference ∷ uses) = held_after held uses

-- The object is freed once, when no reference is held.
abbrev pub frees_of : ℕ → ℕ
frees_of zero = 1
frees_of (suc held) = 0

Counts : RefCount → ℕ → Type 0
Counts r held = (r.reference_count ≡ held) × (r.frees ≡ frees_of held)

reference-Counts :
    (r : RefCount) (held : ℕ)
    → Counts r (suc held)
    → suc (suc held) < max_dword
    → (a : ℕ × RefCount) × (rfc_reference r ≡ some a) × Counts a.1 (suc (suc held))
unfolding rfc_reference Counts
reference-Counts r held (count, frees) small =
    let next : add32 r.reference_count 1 ≡ suc (suc held) = omega (arith, count, small) in
    (
      (add32 r.reference_count 1, record r { reference_count = add32 r.reference_count 1 }),
      rw
          (
            lt→ltb (add32 r.reference_count 1) max_dword (omega (arith, next, small)),
            le→leb 1 (add32 r.reference_count 1) (omega (arith, next)),
          )
          refl,
      (next, frees),
    )

dereference-Counts :
    (r : RefCount) (held : ℕ)
    → Counts r (suc held)
    → suc held < max_dword
    → (a : ℕ × RefCount) × (rfc_dereference r ≡ some a) × Counts a.1 held
unfolding rfc_dereference Counts
dereference-Counts r zero (count, frees) small =
    let next : sub32 r.reference_count 1 ≡ 0 = omega (arith, count) in
    (
      (0, record { reference_count = 0; frees = r.frees + 1 }),
      rw next refl,
      (refl, omega (arith, frees)),
    )
dereference-Counts r (suc held) (count, frees) small =
    let next : sub32 r.reference_count 1 ≡ suc held = omega (arith, count, small) in
    (
      (sub32 r.reference_count 1, record r { reference_count = sub32 r.reference_count 1 }),
      rw
          (
            ==-false (sub32 r.reference_count 1) max_dword (omega (arith, next, small)),
            ==-false (sub32 r.reference_count 1) 0 (omega (arith, next)),
          )
          refl,
      (next, frees),
    )

use_all-Counts :
    (r : RefCount) (held : ℕ) (uses : List Use) (last : ℕ)
    → Counts r held
    → held + length uses < max_dword
    → held_after held uses ≡ some last
    → (r' : RefCount) × (use_all r uses ≡ some r') × Counts r' last
unfolding use_all
use_all-Counts r held [] last counts small h = (r, refl, subst (Counts r) (some_inj h) counts)
use_all-Counts r zero (u ∷ uses) last counts small h = cc
use_all-Counts r (suc held) (reference ∷ uses) last counts small h =
    let (a, run, next) = reference-Counts r held counts (omega arith) in
    let (r', rest, end) = use_all-Counts a.1 (suc (suc held)) uses last next (omega arith) h in
    (r', >>=-run _ run rest, end)
use_all-Counts r (suc held) (dereference ∷ uses) last counts small h =
    let (a, run, next) = dereference-Counts r held counts (omega arith) in
    let (r', rest, end) = use_all-Counts a.1 held uses last next (omega arith) h in
    (r', >>=-run _ run rest, end)

-- From RfcInit on, whatever calls of RfcReference and RfcDereference are made, as long as each is
-- made with a reference held and there are less than 2^32 - 2 of them: every call returns, the count
-- is the number of references held, and FreeFunction has been called once when none is held any
-- more, and not before.
pub use_all_lem :
    (uses : List Use) (last : ℕ)
    → 1 + length uses < max_dword
    → held_after 1 uses ≡ some last
    → (r : RefCount) × (use_all (rfc_init rfc_pre_init) uses ≡ some r)
      × (r.reference_count ≡ last)
      × (r.frees ≡ frees_of last)
unfolding rfc_init Counts
use_all_lem uses last small h =
    let (r, run, counts) =
      use_all-Counts (rfc_init rfc_pre_init) 1 uses last (refl, refl) small h in
    (r, run, counts.0, counts.1)
