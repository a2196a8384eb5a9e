-- ===== src/LinkedList/Walks.antt =====
-- The functions of CommonLib/src/list.c that walk a list. A loop has fuel, of which a round for each
-- entry and one more are enough.
use hall.Prelude.{
  ℕ, zero, suc, ◌+◌, ◌%◌, Bool, true, false, not, ◌&&◌, ◌||◌, Option, none, some, ◌==◌,
  if◌then◌else◌, ◌>>=◌, ◌>>◌, assert, u32_mod, max_dword,
}
use hall.LinkedList.{Memory, assert_valid, insert_tail_list}

-- The sign of the INT64 that a FUNC_CompareFunction returns.
pub data Comparison : Type 0 where
  smaller : Comparison
  same : Comparison
  greater : Comparison

abbrev pub CompareFunction : Type 0
CompareFunction = ℕ → ℕ → Comparison

abbrev pub is_smaller : Comparison → Bool
is_smaller c = elim c [ smaller ↦ true | _ ↦ false ]

-- The loop of InsertOrderedList, with fuel: where it stops.
unfoldable pub place_loop : ℕ → Memory → CompareFunction → ℕ → ℕ → ℕ → Option ℕ
place_loop zero m compare head entry current = none
place_loop (suc fuel) m compare head entry current =
    let onward = m.flink current >>= place_loop fuel m compare head entry in
    if current == head || is_smaller (compare entry current) then some current else onward

-- InsertOrderedList
unfoldable pub insert_ordered_list : ℕ → Memory → CompareFunction → ℕ → ℕ → Option Memory
insert_ordered_list fuel m compare head entry = do
  assert_valid m head
  first ← m.flink head
  place ← place_loop fuel m compare head entry first
  insert_tail_list m place entry

-- The loop of GetListElemByIndex, with fuel.
unfoldable pub index_loop : ℕ → Memory → ℕ → ℕ → ℕ → ℕ → Option ℕ
index_loop zero m head list_index current index = none
index_loop (suc fuel) m head list_index current index =
    let onward =
      m.flink current >>= λ next. index_loop fuel m head list_index next ((index + 1) % u32_mod) in
    let inside =
      assert (not (current == 0)) >> (if index == list_index then some current else onward) in
    if current == head then some 0 else inside

-- GetListElemByIndex
unfoldable pub get_list_elem_by_index : ℕ → Memory → ℕ → ℕ → Option ℕ
get_list_elem_by_index fuel m head list_index =
    let walk =
      assert_valid m head
      >> (m.flink head >>= λ first. index_loop fuel m head list_index first 0) in
    if head == 0 then some 0 else walk

-- The loop of ListSize, with fuel.
unfoldable pub size_loop : ℕ → Memory → ℕ → ℕ → ℕ → Option ℕ
size_loop zero m head current count = none
size_loop (suc fuel) m head current count =
    let onward = m.flink current >>= λ next. size_loop fuel m head next ((count + 1) % u32_mod) in
    if current == head then some count else assert (not (current == 0)) >> onward

-- ListSize
unfoldable pub list_size : ℕ → Memory → ℕ → Option ℕ
list_size fuel m head =
    let walk = assert_valid m head >> (m.flink head >>= λ first. size_loop fuel m head first 0) in
    if head == 0 then some max_dword else walk

-- The loop of ForEachElementExecute, with fuel, for a callback that acts on a state of its own and
-- leaves the list alone; `succeeded` is SUCCEEDED.
unfoldable pub for_each_loop {ℓ} :
    {S : Type ℓ} → ℕ → Memory → (ℕ → S → ℕ × S) → (ℕ → Bool) → Bool → ℕ → ℕ → ℕ → S → Option (ℕ × S)
for_each_loop zero m function succeeded all_must_succeed head current status s = none
for_each_loop (suc fuel) m function succeeded all_must_succeed head current status s =
    let r = function current s in
    let onward = m.flink current >>= λ next.
    for_each_loop fuel m function succeeded all_must_succeed head next r.0 r.1 in
    let inside = if all_must_succeed && not (succeeded r.0) then some r else onward in
    if current == head then some (status, s) else assert (not (current == 0)) >> inside

-- ForEachElementExecute, for a list head and a function that are not NULL
unfoldable pub for_each_element_execute {ℓ} :
    {S : Type ℓ} → ℕ → Memory → (ℕ → S → ℕ × S) → (ℕ → Bool) → Bool → ℕ → S → Option (ℕ × S)
for_each_element_execute fuel m function succeeded all_must_succeed head s = do
  assert_valid m head
  first ← m.flink head
  for_each_loop fuel m function succeeded all_must_succeed head first 0 s

-- The loop of ListSearchForElement, with fuel.
unfoldable pub search_loop : ℕ → Memory → CompareFunction → Bool → ℕ → ℕ → ℕ → Option ℕ
search_loop zero m compare is_list_ordered head element current = none
search_loop (suc fuel) m compare is_list_ordered head element current =
    let onward = m.flink current >>= search_loop fuel m compare is_list_ordered head element in
    let inside : Option ℕ = elim (compare current element) [
      | same ↦ some current
      | greater ↦ if is_list_ordered then some 0 else onward
      | smaller ↦ onward
    ] in
    if current == head then some 0 else inside

-- ListSearchForElement, for a compare function that is not NULL
unfoldable pub list_search_for_element : ℕ → Memory → CompareFunction → Bool → ℕ → ℕ → Option ℕ
list_search_for_element fuel m compare is_list_ordered head element =
    let walk =
      assert_valid m head
      >> (m.flink head >>= search_loop fuel m compare is_list_ordered head element) in
    if head == 0 || element == 0 then some 0 else walk

-- LIST_ITERATOR
pub record ListIterator : Type 0 where
  pub list_head : ℕ
  pub current_entry : ℕ

-- ListIteratorInit
unfoldable pub list_iterator_init : Memory → ℕ → Option ListIterator
list_iterator_init m list = do
  first ← m.flink list
  some (record { list_head = list; current_entry = first })

-- ListIteratorNext: the entry, 0 at the end, and the iterator.
unfoldable pub list_iterator_next : Memory → ListIterator → Option (ℕ × ListIterator)
list_iterator_next m it =
    let advance = m.flink it.current_entry >>= λ next.
    some (it.current_entry, record it { current_entry = next }) in
    if it.current_entry == it.list_head then some (0, it) else advance
