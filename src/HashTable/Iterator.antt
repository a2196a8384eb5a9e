-- ===== src/HashTable/Iterator.antt =====
-- The iterator of a table, and the functions that hash a key.
use native.Mathlib.Nat.{mod-lt}
use hall.Prelude.{
  u64_mod, max_qword, ◌/◌, ℕ, zero, suc, ◌+◌, ◌-◌, ◌*◌, ◌%◌, ◌<◌, ◌≡◌, refl, ap, ◌∙◌, Option, none,
  some, List, [], ◌∷◌, if◌then◌else◌, ltb, lt→ltb, ltb-not, arith, ◌>>=◌,
}
use hall.HashTable.{
  HashTable, hash_func_universal, hash_universal_a, hash_universal_b, hash_universal_p,
}

-- HASH_ITERATOR, with the entries of its bucket that are still to come
pub record HashIterator : Type 0 where
  pub key_index : ℕ
  pub current : List ℕ

-- ListIteratorInit on `TableData->Entries[index]`, which has MaxKeys entries
abbrev pub bucket_iterator : HashTable → ℕ → Option HashIterator
bucket_iterator t index =
    if ltb index t.max_keys
    then some (record { key_index = index; current = t.buckets index })
    else none

-- HashTableIteratorInit
unfoldable pub hash_table_iterator_init : HashTable → Option HashIterator
hash_table_iterator_init t = bucket_iterator t 0

-- The loop of HashTableIteratorNext, for the given number of rounds
unfoldable pub iterator_loop : ℕ → HashTable → HashIterator → Option (ℕ × HashIterator)
iterator_loop zero t it = some (0, it)
iterator_loop (suc rounds) t it = elim it.current [
  | e ∷ rest ↦ some (e, record { key_index = it.key_index; current = rest })
  | [] ↦ bucket_iterator t (it.key_index + 1) >>= iterator_loop rounds t
]

-- HashTableIteratorNext
unfoldable pub hash_table_iterator_next : HashTable → HashIterator → Option (ℕ × HashIterator)
hash_table_iterator_next t it = iterator_loop (t.max_keys - it.key_index) t it

-- No entry is to come.
abbrev pub IsExhausted : HashTable → HashIterator → Type 0
IsExhausted t it =
    (it.current ≡ []) × ((i : ℕ) → it.key_index < i → i < t.max_keys → t.buckets i ≡ [])

loop-exhausted :
    (rounds : ℕ) (t : HashTable) (it : HashIterator)
    → it.key_index + suc rounds ≡ t.max_keys
    → IsExhausted t it
    → iterator_loop (suc rounds) t it ≡ none
unfolding iterator_loop
loop-exhausted zero t it h (empty, later) =
    rw (iterator_loop, empty, ltb-not (it.key_index + 1) t.max_keys (omega (arith, h))) refl
loop-exhausted (suc rounds) t it h (empty, later) =
    let inside : it.key_index + 1 < t.max_keys = omega (arith, h) in
    let next : HashIterator = record {
      key_index = it.key_index + 1;
      current = t.buckets (it.key_index + 1);
    } in
    rw (iterator_loop, empty, lt→ltb (it.key_index + 1) t.max_keys inside)
      (loop-exhausted rounds t next (omega (arith, h)) (
        later (it.key_index + 1) (omega arith) inside,
        (λ i above below. later i (omega (arith, above)) below),
      ))

-- When no entry is to come, HashTableIteratorNext does not return NULL: behind the last bucket it
-- sets up an iterator on the list head that follows the table, and reads outside of the table.
pub iterator_past_end :
    (t : HashTable) (it : HashIterator)
    → it.key_index < t.max_keys
    → IsExhausted t it
    → hash_table_iterator_next t it ≡ none
unfolding hash_table_iterator_next
iterator_past_end t it inside exhausted =
    let rounds : t.max_keys - it.key_index ≡ suc (t.max_keys - it.key_index - 1) =
      omega (arith, inside) in
    rw rounds
      (loop-exhausted (t.max_keys - it.key_index - 1) t it (omega (arith, inside)) exhausted)

-- HashFuncUniversal does not overflow, whatever the key, and gives a bucket of the table.
pub hash_func_universal_lem :
    (max_keys key : ℕ)
    → 0 < max_keys
    → (i : ℕ) × (hash_func_universal max_keys key ≡ some i)
      × (i
          ≡ (hash_universal_a * (key % hash_universal_p) + hash_universal_b)
            % hash_universal_p
            % max_keys)
      × (i < max_keys)
unfolding hash_func_universal
hash_func_universal_lem max_keys key positive =
    let small : key % 10007 < 10007 = omega arith in
    let fits : (1701 * (key % 10007) + 59) % 0x1_0000_0000_0000_0000 ≡ 1701 * (key % 10007) + 59 =
      omega (arith, small) in
    (
      (1701 * (key % 10007) + 59) % 10007 % max_keys,
      ap (λ b. if b then some ((1701 * (key % 10007) + 59) % u64_mod % 10007 % max_keys) else none)
            (lt→ltb (key % 10007) (max_qword / 1701 - 59) (omega (arith, small)))
          ∙ ap (λ n. some (n % 10007 % max_keys)) fits,
      refl,
      mod-lt ((1701 * (key % 10007) + 59) % 10007) positive,
    )
