-- ===== src/HashTable/Tables.antt =====
-- Insertion into the table.
use hall.Prelude.{ℕ, Option, some, ◌∷◌}
use hall.LinkedList.Chains.{Fresh}
use hall.HashTable.{HashTable, bucket_head}

abbrev answer : ℕ → HashTable → Option (ℕ × HashTable)
answer e t = some (e, t)

module _ (key_of : ℕ → ℕ) (hash_func : ℕ → ℕ) where
  -- The element is no head and no entry of the table.
  abbrev pub IsNew : HashTable → ℕ → Type 0
  IsNew t element = (i : ℕ) → Fresh element (bucket_head t i ∷ t.buckets i)
