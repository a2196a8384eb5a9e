-- ===== src/HashTable.antt =====
-- CommonLib/src/hash_table.c: a table of buckets, each of which is a list in the order of the keys. A
-- bucket is the sequence of entries that its links represent (LinkedList). A key is the number that
-- its bytes denote in little-endian order, by which cl_rmemcmp compares keys (Memory.Compare).
pub mod Buckets
pub mod Keys
pub mod Lookup
pub mod Tables
pub mod Removal
pub mod Iterator
mod Tests
use hall.Prelude.{
  ℕ, zero, suc, ◌+◌, ◌-◌, ◌*◌, ◌/◌, ◌%◌, ◌≡◌, Bool, true, false, Option, none, some, List, [], ◌∷◌,
  ◌==◌, ◌&&◌, not, ltb, if◌then◌else◌, ◌>>=◌, ◌>>◌, assert, assign, add32, sub32, max_dword,
  u64_mod, max_qword,
}
use hall.LinkedList.Walks.{Comparison, smaller, same, greater}
use hall.Memory.Compare.{compare_numbers}

-- HASH_TABLE: `table_data` is the address of the first bucket's head.
pub record HashTable : Type 0 where
  pub max_keys : ℕ
  pub number_of_elements : ℕ
  pub table_data : ℕ
  pub buckets : ℕ → List ℕ

-- `&HashTable->TableData->Entries[index]`: a HASH_ENTRY has two pointers.
abbrev pub bucket_head : HashTable → ℕ → ℕ
bucket_head t index = t.table_data + 16 * index

-- HashTablePreinit and HashTableInit
unfoldable pub hash_table_init : ℕ → ℕ → Option HashTable
hash_table_init max_keys table_data =
    if ltb 0 max_keys && ltb max_keys (max_dword / 16)
    then some (record {
      max_keys = max_keys;
      number_of_elements = 0;
      table_data = table_data;
      buckets = λ index. [];
    })
    else none

-- HashTableSize
unfoldable pub hash_table_size : HashTable → ℕ
hash_table_size t = t.number_of_elements

-- Whether the element is one of the entries.
unfoldable pub is_linked : ℕ → List ℕ → Bool
is_linked element [] = false
is_linked element (x ∷ entries) =
    let rest = is_linked element entries in if x == element then true else rest

-- InsertHeadList with the entry `place` of the list, or its head, in place of a head, for an element
-- that is in no list: HashTableInsert below uses it for no other
unfoldable pub insert_after : ℕ → ℕ → List ℕ → List ℕ
insert_after place element [] = []
insert_after place element (x ∷ entries) =
    let rest = insert_after place element entries in
    if x == place then x ∷ (element ∷ entries) else x ∷ rest

abbrev pub insert_at : ℕ → ℕ → ℕ → List ℕ → List ℕ
insert_at head place element entries =
    if place == head then element ∷ entries else insert_after place element entries

-- RemoveEntryList
unfoldable pub remove_from : ℕ → List ℕ → List ℕ
remove_from entry [] = []
remove_from entry (x ∷ entries) =
    let rest = remove_from entry entries in if x == entry then entries else x ∷ rest

-- The key of each entry
module _ (key_of : ℕ → ℕ) where
  -- ListSearchForElement in an ordered list with _HashTableSearchElem, which notes the entry that it
  -- looks at: the entry with the key, or the one to insert behind.
  unfoldable pub search_bucket : ℕ → ℕ → List ℕ → Bool × ℕ
  search_bucket key previous [] = (false, previous)
  search_bucket key previous (e ∷ entries) =
      let rest = search_bucket key e entries in
      elim (compare_numbers (key_of e) key) [
        | same ↦ (true, e)
        | greater ↦ (false, previous)
        | smaller ↦ rest
      ]

  -- _HashTableSearchKeyInBucket
  unfoldable pub search_key_in_bucket : HashTable → ℕ → ℕ → Bool × ℕ
  search_key_in_bucket t index key = search_bucket key (bucket_head t index) (t.buckets index)

-- The key of each entry, and the hash function of the table
module _ (key_of : ℕ → ℕ) (hash_func : ℕ → ℕ) where
  -- HashTableInsert: the entry that had the key before, or NULL. A NULL element and an index outside
  -- of the table fail an assertion. InsertHeadList of the head of the bucket, or of an element that
  -- is in the bucket already, breaks the links of the list, which is not an operation on sequences.
  unfoldable pub hash_table_insert : HashTable → ℕ → Option (ℕ × HashTable)
  hash_table_insert t element =
      let key = key_of element in
      let index = hash_func key in
      let found = search_key_in_bucket key_of t index key in
      let linked = is_linked element (bucket_head t index ∷ t.buckets index) in
      let inserted = insert_at (bucket_head t index) found.1 element (t.buckets index) in
      let replaced = record t { buckets = assign t.buckets index (remove_from found.1 inserted) } in
      let added = record t {
        buckets = assign t.buckets index inserted;
        number_of_elements = add32 t.number_of_elements 1;
      } in
      if not (element == 0) && ltb index t.max_keys && not linked
      then (if found.0 then some (found.1, replaced) else some (0, added))
      else none

  -- HashTableLookup, which does not check the index: `none` is a read outside of the table.
  unfoldable pub hash_table_lookup : HashTable → ℕ → Option ℕ
  hash_table_lookup t key =
      let index = hash_func key in
      let found = search_key_in_bucket key_of t index key in
      if ltb index t.max_keys then some (if found.0 then found.1 else 0) else none

  -- HashTableRemoveEntry: the entry is in the bucket of its key.
  unfoldable pub hash_table_remove_entry : HashTable → ℕ → HashTable
  hash_table_remove_entry t element =
      let index = hash_func (key_of element) in
      record t {
        buckets = assign t.buckets index (remove_from element (t.buckets index));
        number_of_elements = sub32 t.number_of_elements 1;
      }

  -- HashTableRemove
  unfoldable pub hash_table_remove : HashTable → ℕ → Option (ℕ × HashTable)
  hash_table_remove t key = do
    entry ← hash_table_lookup t key
    some (if entry == 0 then (0, t) else (entry, hash_table_remove_entry t entry))

-- HashFuncGenericIncremental on a key of at most eight bytes
unfoldable pub hash_func_generic_incremental : ℕ → ℕ → ℕ
hash_func_generic_incremental max_keys key = key % max_keys

abbrev pub hash_universal_a : ℕ
hash_universal_a = 1701

abbrev pub hash_universal_b : ℕ
hash_universal_b = 59

abbrev pub hash_universal_p : ℕ
hash_universal_p = 10007

-- HashFuncUniversal on a key of at most eight bytes
unfoldable pub hash_func_universal : ℕ → ℕ → Option ℕ
hash_func_universal max_keys key =
    let result = key % hash_universal_p in
    if ltb result (max_qword / hash_universal_a - hash_universal_b)
    then some
        (((hash_universal_a * result + hash_universal_b) % u64_mod) % hash_universal_p % max_keys)
    else none
