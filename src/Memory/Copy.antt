-- ===== src/Memory/Copy.antt =====
-- cl_memmove, cl_memcmp and cl_memscan of CommonLib/src/cl_memory.c, for pointers that are not NULL. The
-- two buffers of cl_memmove are ranges of one memory, which may overlap.
use hall.Prelude.{
  ℕ, zero, suc, ◌+◌, ◌<◌, ◌≤◌, ◌≡◌, ◌≢◌, ◌⊎◌, inl, inr, refl, ap, ◌∙◌, Option, none, some, List, [],
  ◌∷◌, ◌==◌, if◌then◌else◌, ◌>>=◌, >>=-run, get_elem?, get_or, set, length, length-set,
  get_elem?-eq-get_or, get_or-set_self, get_or-set_ne, arith,
}
use hall.LinkedList.Walks.{Comparison, same}
use hall.Memory.Compare.{compare_numbers}

-- The loop of cl_memmove: a byte at a time, from the first on.
unfoldable pub memmove : ℕ → List ℕ → ℕ → ℕ → Option (List ℕ)
memmove zero memory dst src = some memory
memmove (suc count) memory dst src = do
  byte ← get_elem? memory src
  old ← get_elem? memory dst
  memmove count (set memory dst byte) (dst + 1) (src + 1)

-- cl_memcmp
unfoldable pub memcmp : List ℕ → List ℕ → ℕ → Option Comparison
memcmp p1 p2 zero = some same
memcmp (a ∷ p1) (b ∷ p2) (suc size) =
    let rest = memcmp p1 p2 size in if a == b then rest else some (compare_numbers a b)
memcmp [] p2 (suc size) = none
memcmp (a ∷ p1) [] (suc size) = none

-- The loop of cl_memscan, at byte `i` with `rounds` left.
unfoldable pub memscan_from : ℕ → ℕ → List ℕ → ℕ → Option ℕ
memscan_from zero i buffer value = some i
memscan_from (suc rounds) i [] value = none
memscan_from (suc rounds) i (b ∷ buffer) value =
    let rest = memscan_from rounds (i + 1) buffer value in if b == value then rest else some i

-- cl_memscan
unfoldable pub memscan : List ℕ → ℕ → ℕ → Option ℕ
memscan buffer size value = memscan_from size 0 buffer value

-- What a copy does: the destination has the bytes that the source had, and the rest is as it was.
record Copied (memory memory' : List ℕ) (dst src count : ℕ) : Type 0 where
  moved : (i : ℕ) → i < count → get_or memory' (dst + i) 0 ≡ get_or memory (src + i) 0
  kept : (j : ℕ) → (j < dst) ⊎ (dst + count ≤ j) → get_or memory' j 0 ≡ get_or memory j 0

-- cl_memmove to a destination that does not begin behind the source returns, the destination has the
-- bytes that the source had before, and the rest of the memory is as it was, also when the two
-- overlap.
memmove_lem :
    (count : ℕ) (memory : List ℕ) (dst src : ℕ)
    → dst ≤ src
    → src + count ≤ length memory
    → (memory' : List ℕ) × (memmove count memory dst src ≡ some memory')
      × Copied memory memory' dst src count
unfolding memmove
memmove_lem zero memory dst src before inside =
    (memory, refl, record { moved = λ i h. absurd (omega arith); kept = λ j h. refl })
memmove_lem (suc count) memory dst src before inside =
    let byte = get_or memory src 0 in
    let memory1 = set memory dst byte in
    let size : length memory1 ≡ length memory = length-set memory dst byte in
    let (memory', run, copied) =
      memmove_lem count memory1 (dst + 1) (src + 1) (omega arith) (omega (arith, size)) in
    (
      memory',
      >>=-run _ (get_elem?-eq-get_or memory src 0 (omega arith))
          (>>=-run _ (get_elem?-eq-get_or memory dst 0 (omega arith)) run),
      record {
        moved = λ i h. moved_at i h copied;
        kept = λ j h. copied.kept j (outside j h) ∙ get_or-set_ne memory dst j byte 0 (apart j h);
      },
    )
  where
    outside : (j : ℕ) → (j < dst) ⊎ (dst + suc count ≤ j) → (j < dst + 1) ⊎ (dst + 1 + count ≤ j)
    outside j (inl h) = inl (omega arith)
    outside j (inr h) = inr (omega arith)

    apart : (j : ℕ) → (j < dst) ⊎ (dst + suc count ≤ j) → dst ≢ j
    apart j (inl h) = omega arith
    apart j (inr h) = omega arith

    moved_at :
        {memory' : List ℕ} (i : ℕ)
        → i < suc count
        → Copied (set memory dst (get_or memory src 0)) memory' (dst + 1) (src + 1) count
        → get_or memory' (dst + i) 0 ≡ get_or memory (src + i) 0
    moved_at {memory'} zero h copied =
        ap (λ k. get_or memory' k 0) (omega arith)
        ∙ copied.kept dst (inl (omega arith))
        ∙ get_or-set_self memory dst (get_or memory src 0) 0 (omega arith)
        ∙ ap (λ k. get_or memory k 0) (omega arith)
    moved_at {memory'} (suc i) h copied =
        ap (λ k. get_or memory' k 0) (omega arith)
        ∙ copied.moved i (omega arith)
        ∙ get_or-set_ne memory dst (src + 1 + i) (get_or memory src 0) 0 (omega arith)
        ∙ ap (λ k. get_or memory k 0) (omega arith)

-- To a destination that begins inside the source it copies bytes that it has already overwritten.
overlap_test : memmove 3 (1 ∷ (2 ∷ (3 ∷ (4 ∷ [])))) 1 0 ≡ some (1 ∷ (1 ∷ (1 ∷ (1 ∷ []))))
unfolding memmove
overlap_test = refl

scan_test : memscan (7 ∷ (7 ∷ (8 ∷ []))) 3 7 ≡ some 2
unfolding memscan memscan_from
scan_test = refl
