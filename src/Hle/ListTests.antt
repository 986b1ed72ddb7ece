-- ===== src/Hle/ListTests.antt =====
-- Runs of the list and its allocators, and the theorems at them.
use htmsql.Prelude.{◌≡◌, refl, true, some, List, [], ◌∷◌, arith, if◌then◌else◌, ◌==◌}
use htmsql.Hle.Run.{Returns, is_item}
use htmsql.Hle.Nodes.{Nodes, among, erase}
use htmsql.Hle.Chain.{nil, cons}
use htmsql.Hle.ItemList
use htmsql.Hle.ItemList.{ItemList, new_list, insert, remove, contains, destroy}
use htmsql.Hle.ItemList.Links.{handle, IsList}
use htmsql.Hle.ItemList.Refinement.{
  Call, inserts, removes, asks_for, asks_size, done, yes_no, count, specified, specified_all,
  called_all, StandsFor, Agrees, called_all-Agrees,
}
use htmsql.Hle.Above.{above, above-unused}
use htmsql.Hle.ItemList.Clear.{Freed, destroy-Freed}
use htmsql.Hle.ItemList.PreAllocator.{
  PreAllocator, free_mark, pre_create_list_item, Created, pre_create_list_item-Created,
}

abbrev empty_heap : ItemList.Heap
empty_heap = record { live = []; item_data = λ p. 0; prev = λ p. 0; next = λ p. 0 }

new_list-StandsFor : StandsFor empty_heap new_list []
unfolding new_list
new_list-StandsFor = ([], record { fields = refl; chain = nil }, refl)

abbrev list_calls : List Call
list_calls = inserts 5 ∷ inserts 7 ∷ inserts 5 ∷ removes 5 ∷ asks_for 7 ∷ asks_size ∷ removes 9 ∷ []

called_all-Agrees_example :
    Returns
      (Agrees (specified_all list_calls []))
      (called_all above 10 list_calls new_list empty_heap)
called_all-Agrees_example =
    called_all-Agrees above above-unused 10 list_calls [] new_list-StandsFor (omega arith)

specified_list :
    specified_all list_calls []
    ≡ (done ∷ done ∷ done ∷ done ∷ yes_no true ∷ count 2 ∷ done ∷ [], 7 ∷ 5 ∷ [])
unfolding specified_all specified among erase
specified_list = refl

-- A list of two items in a heap with a third address in use.
abbrev two_heap : ItemList.Heap
two_heap = record {
  live = 3 ∷ 1 ∷ 2 ∷ [];
  item_data = λ p. if p == 1 then 5 else 6;
  prev = λ p. if p == 2 then 1 else 0;
  next = λ p. if p == 1 then 2 else 0;
}

abbrev two_nodes : Nodes
two_nodes = (1, 5) ∷ (2, 6) ∷ []

two_heap-IsList : IsList two_heap (handle two_nodes) two_nodes
unfolding is_item
two_heap-IsList = record {
  fields = refl;
  chain =
      cons {p = 1} {v = 5} (record { live = refl; item_data = refl; prev = refl; next = refl }) refl
        (cons {p = 2} {v = 6} (record { live = refl; item_data = refl; prev = refl; next = refl })
          refl nil);
}

destroy-Freed_example :
    Returns
      (λ l' g. IsList g l' [] × Freed two_heap two_nodes g)
      (destroy 3 (handle two_nodes) two_heap)
destroy-Freed_example = destroy-Freed 3 two_heap-IsList (omega arith)

-- Three slots, of which slot 1 is free.
abbrev one_free : PreAllocator
one_free = record {
  slot_data = λ i. if i == 1 then free_mark else 7;
  slot_prev = λ i. 0;
  slot_next = λ i. 0;
  last_allocation_slot = some 2;
}

pre_create_list_item-Created_example :
    Created 3 4 0 0 one_free (pre_create_list_item 3 3 4 0 0 one_free)
pre_create_list_item-Created_example =
    pre_create_list_item-Created 3 2 3 4 0 0 one_free refl (omega arith) (omega arith)
