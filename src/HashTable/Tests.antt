-- ===== src/HashTable/Tests.antt =====
-- A table of two buckets whose entries are keyed by a part of their addresses.
use hall.Prelude.{
  ℕ, ◌%◌, ◌≡◌, refl, Bool, true, false, Option, none, some, List, [], ◌∷◌, ◌==◌, if◌then◌else◌,
  arith, sub32, ◌≢◌, ◌⊎◌,
}
use hall.Memory.Compare.{rmemcmp, rmemcmp_loop}
use hall.LinkedList.Walks.{greater}
use hall.HashTable.{
  HashTable, is_linked, hash_table_insert, hash_table_lookup, hash_table_remove,
  search_key_in_bucket, search_bucket, insert_after, remove_from,
}
use hall.HashTable.Buckets.{Ascends}
use hall.HashTable.Lookup.{Ordered}
use hall.HashTable.Removal.{hash_table_remove_lem}
use hall.HashTable.Iterator.{HashIterator, hash_table_iterator_next, iterator_past_end}

abbrev key_of : ℕ → ℕ
key_of e = e % 100

abbrev hash_func : ℕ → ℕ
hash_func key = key % 2

abbrev three : HashTable
three = record {
  max_keys = 2;
  number_of_elements = 3;
  table_data = 4096;
  buckets = λ i. if i == 0 then 502 ∷ (506 ∷ []) else (if i == 1 then 605 ∷ [] else []);
}

three-Ordered : Ordered key_of hash_func three
three-Ordered i = by_index (i == 0) (i == 1)
  where
    by_index :
        (a b : Bool) → Ascends key_of (if a then 502 ∷ (506 ∷ []) else (if b then 605 ∷ [] else []))
    by_index true b = ((omega arith, tt), (tt, tt))
    by_index false true = (tt, tt)
    by_index false false = tt

hash_table_remove_example :
    (entry : ℕ) × (t' : HashTable) × (hash_table_lookup key_of hash_func three 6 ≡ some entry)
    × (hash_table_remove key_of hash_func three 6 ≡ some (entry, t'))
    × ((k : ℕ)
        → hash_table_lookup key_of hash_func t' k
          ≡ (if 6 == k then some 0 else hash_table_lookup key_of hash_func three k))
    × Ordered key_of hash_func t'
    × (((entry ≡ 0) × (t' ≡ three)) ⊎ ((entry ≢ 0) × (t'.number_of_elements ≡ sub32 3 1)))
hash_table_remove_example =
    hash_table_remove_lem key_of hash_func three 6 three-Ordered (omega arith)

lookup_test : hash_table_lookup key_of hash_func three 6 ≡ some 506
unfolding hash_table_lookup search_key_in_bucket search_bucket
lookup_test = refl

-- HashTableInsert of an entry that its bucket has already
insert_again_test : hash_table_insert key_of hash_func three 506 ≡ none
unfolding hash_table_insert is_linked
insert_again_test = refl

replaced : Option (ℕ × HashTable) → List ℕ
replaced (some r) = r.1.buckets 0
replaced none = []

replace_test : replaced (hash_table_insert key_of hash_func three 902) ≡ 902 ∷ (506 ∷ [])
unfolding replaced hash_table_insert is_linked search_key_in_bucket search_bucket insert_after
    remove_from
replace_test = refl

abbrev at_end : HashIterator
at_end = record { key_index = 1; current = [] }

iterator_past_end_example : hash_table_iterator_next three at_end ≡ none
iterator_past_end_example =
    iterator_past_end three at_end (omega arith)
      (refl, (λ i above below. absurd (omega (arith, above, below))))

rmemcmp_test : rmemcmp (1 ∷ (2 ∷ [])) (2 ∷ (1 ∷ [])) 2 ≡ some greater
unfolding rmemcmp rmemcmp_loop
rmemcmp_test = refl
