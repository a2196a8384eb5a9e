-- ===== src/LinkedList.antt =====
-- CommonLib/src/list.c: circular doubly linked lists through entries in memory.
-- Memory is a map from addresses to the two fields of the LIST_ENTRY there; an access where there is
-- none has no meaning in C and returns `none`, as the failed ASSERT of a debug build does. NULL is 0.
pub mod Walks
pub mod Chains
pub mod Ring
pub mod Insert
pub mod Remove
pub mod Refine
pub mod Count
pub mod Each
pub mod Ordered
pub mod Tests
pub mod Search
use hall.Prelude.{
  ℕ, zero, suc, ◌+◌, ◌%◌, Bool, true, false, not, ◌&&◌, ◌||◌, Option, none, some, List, [], ◌∷◌,
  ◌==◌, if◌then◌else◌, ◌>>=◌, ◌>>◌, assert, u32_mod, max_dword,
}

-- The fields of the LIST_ENTRY at each address.
pub record Memory : Type 0 where
  pub flink : ℕ → Option ℕ
  pub blink : ℕ → Option ℕ

abbrev pub update : (ℕ → Option ℕ) → ℕ → ℕ → ℕ → Option ℕ
update field p v q = if q == p then some v else field q

-- `p->Flink = v` and `p->Blink = v`
unfoldable pub set_flink : Memory → ℕ → ℕ → Option Memory
set_flink m p v = do old ← m.flink p; some (record m { flink = update m.flink p v })

unfoldable pub set_blink : Memory → ℕ → ℕ → Option Memory
set_blink m p v = do old ← m.blink p; some (record m { blink = update m.blink p v })

-- _ValidateListEntry
unfoldable pub validate_list_entry : Memory → ℕ → Option Bool
validate_list_entry m entry = do
  next ← m.flink entry
  back ← m.blink next
  previous ← m.blink entry
  forth ← m.flink previous
  some (back == entry && forth == entry)

-- `ASSERT(_ValidateListEntry(Entry))`
unfoldable pub assert_valid : Memory → ℕ → Option (Unit {0})
unfolding validate_list_entry
assert_valid m entry = do valid ← validate_list_entry m entry; assert valid

-- InitializeListHead
unfoldable pub initialize_list_head : Memory → ℕ → Option Memory
initialize_list_head m head = do m1 ← set_blink m head head; set_flink m1 head head

-- IsListEmpty
unfoldable pub is_list_empty : Memory → ℕ → Option Bool
is_list_empty m head = do assert_valid m head; next ← m.flink head; some (next == head)

-- RemoveEntryList: whether the list is empty afterwards.
unfoldable pub remove_entry_list : Memory → ℕ → Option (Bool × Memory)
remove_entry_list m entry = do
  assert_valid m entry
  next ← m.flink entry
  previous ← m.blink entry
  m1 ← set_flink m previous next
  m2 ← set_blink m1 next previous
  some (next == previous, m2)

-- RemoveHeadList
unfoldable pub remove_head_list : Memory → ℕ → Option (ℕ × Memory)
remove_head_list m head = do
  assert_valid m head
  entry ← m.flink head
  next ← m.flink entry
  m1 ← set_flink m head next
  m2 ← set_blink m1 next head
  some (entry, m2)

-- RemoveTailList
unfoldable pub remove_tail_list : Memory → ℕ → Option (ℕ × Memory)
remove_tail_list m head = do
  assert_valid m head
  entry ← m.blink head
  previous ← m.blink entry
  m1 ← set_blink m head previous
  m2 ← set_flink m1 previous head
  some (entry, m2)

-- InsertTailList
unfoldable pub insert_tail_list : Memory → ℕ → ℕ → Option Memory
insert_tail_list m head entry = do
  assert_valid m head
  previous ← m.blink head
  m1 ← set_flink m entry head
  m2 ← set_blink m1 entry previous
  m3 ← set_flink m2 previous entry
  set_blink m3 head entry

-- InsertHeadList
unfoldable pub insert_head_list : Memory → ℕ → ℕ → Option Memory
insert_head_list m head entry = do
  assert_valid m head
  next ← m.flink head
  m1 ← set_flink m entry next
  m2 ← set_blink m1 entry head
  m3 ← set_blink m2 next entry
  set_flink m3 head entry
