-- ===== src/LinkedList/Tests.antt =====
-- A list of three entries in memory, and a fourth entry that is in no list.
use hall.Prelude.{
  ℕ, ◌≡◌, refl, Bool, true, false, Option, none, some, List, [], ◌∷◌, ◌==◌, if◌then◌else◌, ltb,
  arith, ◌>>=◌, ◌+◌,
}
use hall.LinkedList.{Memory}
use hall.LinkedList.Chains.{Linked, Fresh}
use hall.LinkedList.Ring.{Represents, IsEntry}
use hall.LinkedList.Walks.{
  smaller, same, greater, CompareFunction, is_smaller, list_size, get_list_elem_by_index,
  list_search_for_element, insert_ordered_list, for_each_element_execute, list_iterator_init,
}
use hall.LinkedList.Refine.{
  Command, Reply, insert_head, remove_head, remove_tail, remove_entry, ask_empty, done, removed,
  emptied, perform_all, respond, respond_all, perform_all-refines,
}
use hall.LinkedList.Count.{list_size-returns, get_list_elem_by_index-returns}
use hall.LinkedList.Search.{first_same, list_search_for_element-returns, OrderedFor}
use hall.LinkedList.Ordered.{insert_sorted, insert_ordered_list-returns, Ascending}
use hall.LinkedList.Each.{visit, drain, for_each_element_execute-returns, iterate-returns}

abbrev cell : List (ℕ × ℕ) → ℕ → Option ℕ
cell [] p = none
cell ((q, v) ∷ cells) p = if p == q then some v else cell cells p

abbrev three : Memory
three = record {
  flink = cell ((16, 32) ∷ (32, 48) ∷ (48, 64) ∷ (64, 16) ∷ (80, 0) ∷ []);
  blink = cell ((16, 64) ∷ (32, 16) ∷ (48, 32) ∷ (64, 48) ∷ (80, 0) ∷ []);
}

abbrev entries : List ℕ
entries = 32 ∷ 48 ∷ 64 ∷ []

link : (p q : ℕ) → three.flink p ≡ some q → three.blink q ≡ some p → Linked three p q
link p q f b = record { forward = f; backward = b }

three-Represents : Represents three 16 entries
three-Represents = record {
  chain = (
    link 16 32 refl refl,
    (link 32 48 refl refl, (link 48 64 refl refl, (link 64 16 refl refl, tt))),
  );
  distinct = (
    (omega arith, (omega arith, (omega arith, tt))),
    ((omega arith, (omega arith, tt)), ((omega arith, tt), (tt, tt))),
  );
}

spare-IsEntry : IsEntry three 80
spare-IsEntry = record { next = 0; previous = 0; flink_of = refl; blink_of = refl }

abbrev commands : List Command
commands =
    insert_head 80
    ∷ remove_tail
    ∷ remove_entry 48
    ∷ remove_head
    ∷ remove_entry 32
    ∷ remove_head
    ∷ ask_empty
    ∷ []

abbrev replies : List Reply
replies =
    done ∷ removed 64 ∷ emptied false ∷ removed 80 ∷ emptied true ∷ removed 16 ∷ emptied true ∷ []

run_of_commands : respond_all 16 entries commands ≡ some (replies, [])
unfolding respond_all respond
run_of_commands = refl

perform_all-refines_example :
    (m' : Memory) × (perform_all three 16 commands ≡ some (replies, m')) × Represents m' 16 []
perform_all-refines_example =
    perform_all-refines three 16 entries commands replies [] three-Represents
      (spare-IsEntry, (tt, (tt, (tt, (tt, (tt, (tt, tt))))))) run_of_commands

mapped : Fresh 0 (16 ∷ entries)
mapped = (omega arith, (omega arith, (omega arith, (omega arith, tt))))

list_size-returns_example : list_size 4 three 16 ≡ some 3
list_size-returns_example =
    list_size-returns 4 three 16 entries three-Represents mapped (omega arith)

index_run : get_list_elem_by_index 4 three 16 1 ≡ some 48
index_run =
    get_list_elem_by_index-returns 4 three 16 entries 1 three-Represents mapped (omega arith)
      (omega arith)

-- Entries compared by their addresses.
abbrev by_address : CompareFunction
by_address p q = if ltb p q then smaller else if p == q then same else greater

by_address_ordered : OrderedFor by_address 48 entries
by_address_ordered = ((λ e. absurd cc), ((λ e. absurd cc), ((λ e. tt), tt)))

list_search_for_element-returns_example :
    list_search_for_element 4 three by_address true 16 48 ≡ some (first_same by_address 48 entries)
list_search_for_element-returns_example =
    list_search_for_element-returns 4 three by_address true 16 48 entries three-Represents
      (omega arith) (omega arith) (λ o. by_address_ordered) (omega arith)

by_address_asymmetric :
    (a b : ℕ) → is_smaller (by_address a b) ≡ true → is_smaller (by_address b a) ≡ false
by_address_asymmetric a b h = ground arith

spare-Fresh : Fresh 80 (16 ∷ entries)
spare-Fresh = (omega arith, (omega arith, (omega arith, (omega arith, tt))))

insert_ordered_list-returns_example :
    (m' : Memory) × (insert_ordered_list 4 three by_address 16 80 ≡ some m')
    × Represents m' 16 (insert_sorted by_address 80 entries)
    × Ascending by_address (insert_sorted by_address 80 entries)
insert_ordered_list-returns_example =
    insert_ordered_list-returns 4 three by_address 16 80 entries three-Represents spare-Fresh
      spare-IsEntry (omega arith) by_address_asymmetric (refl, (refl, (tt, tt)))

-- A callback that adds the addresses up and fails on one of them.
abbrev add_up : ℕ → ℕ → ℕ × ℕ
add_up p s = (if p == 48 then 1 else 0, p + s)

abbrev is_success : ℕ → Bool
is_success status = status == 0

for_each_element_execute-returns_example :
    for_each_element_execute 4 three add_up is_success true 16 0
    ≡ some (visit add_up is_success true entries 0 0)
for_each_element_execute-returns_example =
    for_each_element_execute-returns add_up is_success true 4 three 16 entries 0 three-Represents
      mapped.1 (omega arith)

visit_stops : visit add_up is_success true entries 0 0 ≡ (1, 80)
unfolding visit
visit_stops = refl

iterator_run : (list_iterator_init three 16 >>= drain 4 three) ≡ some entries
iterator_run = iterate-returns 4 three 16 entries three-Represents mapped.1 (omega arith)
