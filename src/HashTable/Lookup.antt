-- ===== src/HashTable/Lookup.antt =====
-- What HashTableLookup gives, and how a change of one bucket changes it.
use hall.Prelude.{
  ℕ, ◌<◌, ◌≡◌, ◌≢◌, sym, ap, ◌∙◌, none, some, List, ◌==◌, ==-false, ==_iff, ltb, subst,
  if◌then◌else◌, ℕ_discrete, lt→ltb, assign, assign-same, assign-other, assign-all,
}
use hall.HashTable.{HashTable, bucket_head, search_key_in_bucket, hash_table_lookup}
use hall.HashTable.Buckets.{Ascends, find}
use hall.HashTable.Keys.{search-find}

module _ (key_of : ℕ → ℕ) (hash_func : ℕ → ℕ) where
  -- Every bucket is in the order of the keys.
  abbrev pub Ordered : HashTable → Type 0
  Ordered t = (index : ℕ) → Ascends key_of (t.buckets index)

  -- The entry with a key, where the index of its bucket is in the table
  abbrev pub entry_of : HashTable → ℕ → ℕ
  entry_of t key = find key_of key (t.buckets (hash_func key))

  pub lookup-find :
      (t : HashTable) (key : ℕ)
      → Ordered t
      → hash_table_lookup key_of hash_func t key
        ≡ (if ltb (hash_func key) t.max_keys then some (entry_of t key) else none)
  unfolding hash_table_lookup search_key_in_bucket
  lookup-find t key sorted =
      ap (λ e. if ltb (hash_func key) t.max_keys then some e else none)
        (search-find key_of key (bucket_head t (hash_func key)) (t.buckets (hash_func key))
          (sorted (hash_func key)))

  pub lookup-inside :
      (t : HashTable) (key : ℕ)
      → Ordered t
      → hash_func key < t.max_keys
      → hash_table_lookup key_of hash_func t key ≡ some (entry_of t key)
  lookup-inside t key sorted inside =
      lookup-find t key sorted
      ∙ ap (λ b. if b then some (entry_of t key) else none)
          (lt→ltb (hash_func key) t.max_keys inside)

  -- A change of what one key gives is the same change of the lookups.
  pub lookup-changed :
      (t t' : HashTable) (key k e : ℕ)
      → Ordered t
      → Ordered t'
      → t'.max_keys ≡ t.max_keys
      → hash_func key < t.max_keys
      → entry_of t' k ≡ (if key == k then e else entry_of t k)
      → hash_table_lookup key_of hash_func t' k
        ≡ (if key == k then some e else hash_table_lookup key_of hash_func t k)
  lookup-changed t t' key k e sorted sorted' same inside change = elim (ℕ_discrete key k) [
    | yes at ↦
        let here : hash_func k < t'.max_keys =
          subst (λ n. hash_func k < n) (sym same)
            (subst (λ x. hash_func x < t.max_keys) at inside) in
        lookup-inside t' k sorted' here
        ∙ ap some (change ∙ ap (λ b. if b then e else entry_of t k) ((==_iff key k).1 at))
        ∙ sym (
            ap (λ b. if b then some e else hash_table_lookup key_of hash_func t k)
              ((==_iff key k).1 at))
    | no away ↦
        lookup-find t' k sorted'
        ∙ ap (λ n. if ltb (hash_func k) n then some (entry_of t' k) else none) same
        ∙ ap (λ x. if ltb (hash_func k) t.max_keys then some x else none)
            (change ∙ ap (λ b. if b then e else entry_of t k) (==-false key k away))
        ∙ sym (lookup-find t k sorted)
        ∙ sym (
            ap (λ b. if b then some e else hash_table_lookup key_of hash_func t k)
              (==-false key k away))
  ]

  -- A lookup after a bucket has changed, from what the change does to that bucket.
  pub find-assign :
      (buckets : ℕ → List ℕ) (index : ℕ) (l : List ℕ) (k : ℕ) (q : ℕ → ℕ)
      → (hash_func k ≡ index → find key_of k l ≡ q k)
      → (hash_func k ≢ index → find key_of k (buckets (hash_func k)) ≡ q k)
      → find key_of k (assign buckets index l (hash_func k)) ≡ q k
  find-assign buckets index l k q here there = elim (ℕ_discrete (hash_func k) index) [
    | yes e ↦
        ap (find key_of k) (ap (assign buckets index l) e ∙ assign-same buckets index l) ∙ here e
    | no n ↦ ap (find key_of k) (assign-other buckets index l (hash_func k) n) ∙ there n
  ]

  pub Ordered-assign :
      (t : HashTable) (index : ℕ) (l : List ℕ)
      → Ordered t
      → Ascends key_of l
      → (i : ℕ) → Ascends key_of (assign t.buckets index l i)
  Ordered-assign t index l sorted h =
      assign-all (λ i b. Ascends key_of b) t.buckets index l h (λ i n. sorted i)
