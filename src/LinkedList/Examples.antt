-- ===== src/LinkedList/Examples.antt =====
-- 392/lab 3/linked_list.h: an insertion, and its theorems there.
use cs.Prelude.{ℕ, List, ◌++◌, ◌≡◌, refl, true, false, none, some, [], ◌∷◌, arith}
use cs.Prelude.Int.{ℤ, pos, leb_ℤ}
use cs.Quicksort.Compare.{compare_int}
use cs.LinkedList.{Heap, LinkedList, create_node, insert_in_order, write}
use cs.LinkedList.Shape.{IsList}
use cs.LinkedList.Insert.{inserted, insert_in_order-IsList}
use cs.LinkedList.Order.{SortedData, insert_in_order-SortedData}

-- 3 at address 10, before 7 at address 20; the new node, with 5, is at address 30.
abbrev heap : Heap ℤ
heap =
    write 10 (record { data_of = pos 3; next = some 20; prev = none })
      (write 20 (record { data_of = pos 7; next = none; prev = some 10 })
        (λ a. create_node (pos 5)))

abbrev two_nodes : LinkedList
two_nodes = record { head = some 10; tail = some 20; num_nodes = 2 }

two_nodes-IsList : IsList heap two_nodes (10 ∷ 20 ∷ [])
two_nodes-IsList = record {
  linked = (refl, refl, (refl, refl, refl));
  tail = refl;
  size = refl;
  distinct = omega arith;
}

order_of_three : inserted compare_int heap (pos 5) 30 (10 ∷ 20 ∷ []) ≡ 10 ∷ 30 ∷ 20 ∷ []
order_of_three = refl

insert_in_order-IsList_example :
    IsList
      (insert_in_order compare_int two_nodes 30 heap).1
      (insert_in_order compare_int two_nodes 30 heap).0
      (10 ∷ 30 ∷ 20 ∷ [])
insert_in_order-IsList_example =
    insert_in_order-IsList compare_int heap two_nodes 30 (10 ∷ 20 ∷ []) two_nodes-IsList
      (omega arith)

total : (a b : ℤ) → leb_ℤ (compare_int a b) (pos 0) ≡ false → leb_ℤ (compare_int b a) (pos 0) ≡ true
total a b h = ground arith

insert_in_order-SortedData_example :
    (front : List ℕ) × (back : List ℕ) × (◌≡◌ {A = List ℕ} (10 ∷ 20 ∷ []) (front ++ back))
    × IsList
        (insert_in_order compare_int two_nodes 30 heap).1
        (insert_in_order compare_int two_nodes 30 heap).0
        (front ++ 30 ∷ back)
    × SortedData compare_int (insert_in_order compare_int two_nodes 30 heap).1 (front ++ 30 ∷ back)
insert_in_order-SortedData_example =
    insert_in_order-SortedData compare_int total heap two_nodes 30 (10 ∷ 20 ∷ []) two_nodes-IsList
      (omega arith) (refl, tt)
