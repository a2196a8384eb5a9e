-- ===== src/Bitmap/Scan.antt =====
-- BitmapScanFromTo: the search for a run of equal bits returns the first run, and MAX_DWORD only
-- where there is none.
use hall.Prelude.{
  subst, sym, ℕ, zero, suc, ◌+◌, ◌-◌, ◌*◌, ◌≤◌, ◌<◌, ◌≡◌, ◌≢◌, refl, ◌∙◌, ◌⊎◌, inl, inr, Bool, true,
  false, Option, some, List, arith, bool_eq, Bool-cases, length, add32, max_dword, u32_mod, dec_lt,
}
use hall.Bitmap.{Bitmap, get_bit, all_have, scan_loop, scan_internal}
use hall.Bitmap.Bits.{bit, IsValid, get_bit-eq}

-- The `count` bits from `i` on all have the value `on`.
abbrev pub Run : List ℕ → ℕ → Bool → ℕ → Type 0
Run buffer count on i = (k : ℕ) → k < count → bit buffer (i + k) ≡ on

-- Where a run is broken.
abbrev Miss : List ℕ → ℕ → Bool → ℕ → ℕ → Type 0
Miss buffer i on j left = (k : ℕ) × (j ≤ k) × (k < j + left) × (bit buffer (i + k) ≢ on)

bool_eq_ne : (a b : Bool) → bool_eq a b ≡ false → b ≢ a
bool_eq_ne a b h = ground arith

bool_eq_same : (a b : Bool) → bool_eq a b ≡ true → b ≡ a
bool_eq_same a b h = ground arith

all_have-zero :
    (buffer : List ℕ) (i : ℕ) (on : Bool) (j : ℕ) → all_have buffer i on j zero ≡ some true
unfolding all_have
all_have-zero buffer i on j = refl

module _ (buffer : List ℕ) (i : ℕ) (on : Bool) (j left : ℕ) {b : Bool}
    (read : get_bit buffer (add32 i j) ≡ some b) where
  all_have-same :
      bool_eq on b ≡ true → all_have buffer i on j (suc left) ≡ all_have buffer i on (j + 1) left
  unfolding all_have
  all_have-same h = ground (arith, read)

  all_have-differ : bool_eq on b ≡ false → all_have buffer i on j (suc left) ≡ some false
  unfolding all_have
  all_have-differ h = ground (arith, read)

all_have_lem :
    (buffer : List ℕ) (i : ℕ) (on : Bool) (j left : ℕ)
    → i + j + left ≤ 8 * length buffer
    → i + j + left < u32_mod
    → ((all_have buffer i on j left ≡ some true)
        × ((k : ℕ) → j ≤ k → k < j + left → bit buffer (i + k) ≡ on))
      ⊎ ((all_have buffer i on j left ≡ some false) × Miss buffer i on j left)
all_have_lem buffer i on j zero room small =
    inl (all_have-zero buffer i on j, λ k lo hi. absurd (omega arith))
all_have_lem buffer i on j (suc left) room small =
    let e : add32 i j ≡ i + j = omega arith in
    let read : get_bit buffer (add32 i j) ≡ some (bit buffer (i + j)) =
      rw e (get_bit-eq buffer (i + j) (omega arith)) in
    elim (Bool-cases (bool_eq on (bit buffer (i + j)))) [
      | inr differ ↦ inr (
        all_have-differ buffer i on j left read differ,
        (j, omega arith, omega arith, bool_eq_ne on _ differ),
      )
      | inl same ↦ elim (all_have_lem buffer i on (j + 1) left (omega arith) (omega arith)) [
        | inl (run, rest) ↦ inl (
          all_have-same buffer i on j left read same ∙ run,
          λ k lo hi. elim (dec_lt j k) [
            | yes above ↦ rest k (omega arith) (omega arith)
            | no here ↦ let at : k ≡ j = omega arith in rw at (bool_eq_same on _ same)
          ],
        )
        | inr (run, (k, lo, hi, miss)) ↦
            inr (
              all_have-same buffer i on j left read same ∙ run,
              (k, omega arith, omega arith, miss),
            )
      ]
    ]

-- `r` is the first index from `lo` on, and below `hi`, at which a run starts.
pub record IsFirst (buffer : List ℕ) (count : ℕ) (on : Bool) (lo hi r : ℕ) : Type 0 where
  pub above : lo ≤ r
  pub below : r < hi
  pub run : Run buffer count on r
  pub first : (k : ℕ) → lo ≤ k → k < r → ¬ Run buffer count on k

abbrev pub NoRun : List ℕ → ℕ → Bool → ℕ → ℕ → Type 0
NoRun buffer count on lo hi = (k : ℕ) → lo ≤ k → k < hi → ¬ Run buffer count on k

-- What a scan over the starts lo ≤ k < hi returns.
abbrev pub Scanned : Option ℕ → List ℕ → ℕ → Bool → ℕ → ℕ → Type 0
Scanned result buffer count on lo hi =
    ((r : ℕ) × (result ≡ some r) × IsFirst buffer count on lo hi r)
    ⊎ ((result ≡ some max_dword) × NoRun buffer count on lo hi)

module _ (buffer : List ℕ) (count : ℕ) (on : Bool) where
  not_here : (i : ℕ) → Miss buffer i on 0 count → ¬ Run buffer count on i
  not_here i (k, lo, hi, miss) run = miss (run k (omega arith))

  pub scan_loop_lem :
      (i left : ℕ)
      → i + left + count ≤ 8 * length buffer + 1
      → i + left + count ≤ u32_mod
      → Scanned (scan_loop buffer count on i left) buffer count on i (i + left)
  unfolding scan_loop
  scan_loop_lem i zero room small = inr (refl, λ k lo hi. absurd (omega arith))
  scan_loop_lem i (suc left) room small =
      elim (all_have_lem buffer i on 0 count (omega arith) (omega arith)) [
        | inl (run, all) ↦ inl (
          i,
          rw run,
          record {
            above = omega arith;
            below = omega arith;
            run = λ k h. all k (omega arith) (omega arith);
            first = λ k lo hi. absurd (omega arith);
          },
        )
        | inr (run, miss) ↦ rw run (elim (scan_loop_lem (i + 1) left (omega arith) (omega arith)) [
          | inl (r, run', found) ↦ inl (
            r,
            run',
            record {
              above = omega (arith, found.above);
              below = omega (arith, found.below);
              run = found.run;
              first = λ k lo hi. elim (dec_lt i k) [
                | yes above ↦ found.first k (omega arith) hi
                | no here ↦ let at : k ≡ i = omega arith in rw at (not_here i miss)
              ];
            },
          )
          | inr (run', nothing) ↦ inr (
            run',
            λ k lo hi. elim (dec_lt i k) [
              | yes above ↦ nothing k (omega arith) (omega arith)
              | no here ↦ let at : k ≡ i = omega arith in rw at (not_here i miss)
            ],
          )
        ])
      ]

-- BitmapScanFromTo on a valid bitmap, with a start that is at most the end and an end inside the
-- bitmap, returns: either the first index in [index, first_invalid - count] from which `count` bits
-- have the value, or MAX_DWORD and then no such index exists.
pub scan_internal_lem :
    (bm : Bitmap) (index first_invalid count : ℕ) (on : Bool)
    → IsValid bm
    → 0 < count
    → index ≤ first_invalid
    → first_invalid ≤ bm.bit_count
    → Scanned
        (scan_internal bm index first_invalid count on)
        bm.buffer
        count
        on
        index
        (first_invalid + 1 - count)
unfolding scan_internal
scan_internal_lem bm index first_invalid count on v some_bits order inside =
    elim (dec_lt (first_invalid - index) count) [
      | yes few ↦ inr (ground arith, λ k lo hi. absurd (omega arith))
      | no enough ↦
          let end : index + (first_invalid - count + 1 - index) ≡ first_invalid + 1 - count =
            omega arith in
          let loop : Scanned
              (scan_loop bm.buffer count on index (first_invalid - count + 1 - index)) bm.buffer
              count on index (first_invalid + 1 - count) =
            rw (← end) (
              scan_loop_lem bm.buffer count on index (first_invalid - count + 1 - index)
                (omega (arith, v.room)) (omega (arith, v.small))) in
          let passes : scan_internal bm index first_invalid count on
              ≡ scan_loop bm.buffer count on index (first_invalid - count + 1 - index) =
            ground arith in
          subst (λ t. Scanned t bm.buffer count on index (first_invalid + 1 - count)) (sym passes)
            loop
    ]
