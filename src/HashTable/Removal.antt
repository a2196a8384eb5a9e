-- ===== src/HashTable/Removal.antt =====
-- Removal from the table.
use hall.Prelude.{
  ℕ, ◌<◌, ◌⊎◌, inl, inr, some, >>=-run, ◌≡◌, ◌≢◌, refl, sym, ap, ◌∙◌, ◌==◌, ==_iff, ==-false,
  if◌then◌else◌, ℕ_discrete, assign, sub32,
}
use hall.HashTable.{
  HashTable, remove_from, hash_table_lookup, hash_table_remove, hash_table_remove_entry,
}
use hall.HashTable.Buckets.{find}
use hall.HashTable.Keys.{find-key, find-remove_from, remove_from-Ascends}
use hall.HashTable.Lookup.{
  Ordered, entry_of, lookup-inside, lookup-changed, find-assign, Ordered-assign,
}

module _ (key_of : ℕ → ℕ) (hash_func : ℕ → ℕ) where
  -- The table without the entry of a bucket
  abbrev without : HashTable → ℕ → ℕ → HashTable
  without t index entry = record t {
    buckets = assign t.buckets index (remove_from entry (t.buckets index));
    number_of_elements = sub32 t.number_of_elements 1;
  }

  -- What HashTableRemove returns when the table has the key.
  remove-found :
      (t : HashTable) (key entry : ℕ)
      → hash_table_lookup key_of hash_func t key ≡ some entry
      → entry ≢ 0
      → key_of entry ≡ key
      → hash_table_remove key_of hash_func t key ≡ some (entry, without t (hash_func key) entry)
  unfolding hash_table_remove hash_table_remove_entry
  remove-found t key entry at n owned = >>=-run _ at (
      ap
        (λ b.
          some (if b then (0, t) else (entry, hash_table_remove_entry key_of hash_func t entry)))
        (==-false entry 0 n)
      ∙ ap (λ i. some (entry, without t i entry)) (ap hash_func owned))

  remove-missing :
      (t : HashTable) (key : ℕ)
      → hash_table_lookup key_of hash_func t key ≡ some 0
      → hash_table_remove key_of hash_func t key ≡ some (0, t)
  unfolding hash_table_remove
  remove-missing t key at = >>=-run _ at refl

  remove-entry_of :
      (t : HashTable) (key k : ℕ)
      → Ordered key_of hash_func t
      → entry_of key_of hash_func t key ≢ 0
      → entry_of key_of hash_func (without t (hash_func key) (entry_of key_of hash_func t key)) k
        ≡ (if key == k then 0 else entry_of key_of hash_func t k)
  remove-entry_of t key k sorted there =
      let index = hash_func key in
      let b = t.buckets index in
      let entry = find key_of key b in
      find-assign key_of hash_func t.buckets index (remove_from entry b) k
        (λ k. if key == k then 0 else entry_of key_of hash_func t k)
        (λ e.
          find-remove_from key_of k key b (sorted index) there
          ∙ ap (λ i. if key == k then 0 else find key_of k (t.buckets i)) (sym e))
        (λ n. sym (
          ap (λ c. if c then 0 else entry_of key_of hash_func t k)
            (==-false key k (λ e. n (ap hash_func (sym e))))))

  unchanged :
      (t : HashTable) (key k : ℕ)
      → entry_of key_of hash_func t key ≡ 0
      → entry_of key_of hash_func t k ≡ (if key == k then 0 else entry_of key_of hash_func t k)
  unchanged t key k missing = elim (ℕ_discrete key k) [
    | yes e ↦
        ap (entry_of key_of hash_func t) (sym e)
        ∙ missing
        ∙ sym (ap (λ b. if b then 0 else entry_of key_of hash_func t k) ((==_iff key k).1 e))
    | no n ↦ sym (ap (λ b. if b then 0 else entry_of key_of hash_func t k) (==-false key k n))
  ]

  -- HashTableRemove of a key whose hash is below the number of buckets, from a table whose buckets
  -- are in the order of their keys, returns what a lookup of the key gives: the entry, or NULL. Then
  -- a lookup of that key gives NULL, a lookup of any other key gives what it gave before, and the
  -- buckets are in order. When it returns NULL, the table is as it was; otherwise the number of
  -- elements is one less, as a DWORD.
  pub hash_table_remove_lem :
      (t : HashTable) (key : ℕ)
      → Ordered key_of hash_func t
      → hash_func key < t.max_keys
      → (entry : ℕ) × (t' : HashTable) × (hash_table_lookup key_of hash_func t key ≡ some entry)
        × (hash_table_remove key_of hash_func t key ≡ some (entry, t'))
        × ((k : ℕ)
            → hash_table_lookup key_of hash_func t' k
              ≡ (if key == k then some 0 else hash_table_lookup key_of hash_func t k))
        × Ordered key_of hash_func t'
        × (((entry ≡ 0) × (t' ≡ t))
            ⊎ ((entry ≢ 0) × (t'.number_of_elements ≡ sub32 t.number_of_elements 1)))
  hash_table_remove_lem t key sorted inside =
      let index = hash_func key in
      let entry = entry_of key_of hash_func t key in
      let at = lookup-inside key_of hash_func t key sorted inside in
      elim (ℕ_discrete entry 0) [
        | yes missing ↦
            let nothing = at ∙ ap some missing in
            (
              0,
              t,
              nothing,
              remove-missing t key nothing,
              (λ k.
                  lookup-changed key_of hash_func t t key k 0 sorted sorted refl inside
                    (unchanged t key k missing)),
              sorted,
              inl (refl, refl),
            )
        | no there ↦
            let t' = without t index entry in
            let ordered : Ordered key_of hash_func t' =
              Ordered-assign key_of hash_func t index (remove_from entry (t.buckets index)) sorted
                (remove_from-Ascends key_of entry (t.buckets index) (sorted index)) in
            (
              entry,
              t',
              at,
              remove-found t key entry at there (find-key key_of key (t.buckets index) there),
              (λ k.
                  lookup-changed key_of hash_func t t' key k 0 sorted ordered refl inside
                    (remove-entry_of t key k sorted there)),
              ordered,
              inr (there, refl),
            )
      ]
