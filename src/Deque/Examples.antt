-- ===== src/Deque/Examples.antt =====
-- 392/LinkedList/main.c: its three insertions, and the theorems about the list that they make.
use cs.Prelude.{◌≡◌, refl, true, false, some, List, [], ◌∷◌, Bytes, bytes, arith}
use cs.LinkedList.{Heap, LinkedList, create_node}
use cs.Deque.{create_linked_list, insert_word, print_list, pop_all, print_rest}
use cs.Deque.Drain.{Holds, placed, insert_word-Holds, pop_all-values}

-- Before the first allocation.
abbrev heap0 : Heap Bytes
heap0 k = create_node []

abbrev first : LinkedList × Heap Bytes
first = insert_word create_linked_list 16 (bytes "hello") true heap0

abbrev second : LinkedList × Heap Bytes
second = insert_word first.0 48 (bytes "CS392") true first.1

abbrev third : LinkedList × Heap Bytes
third = insert_word second.0 32 (bytes "Dr. B") false second.1

nothing-Holds : Holds heap0 create_linked_list [] []
nothing-Holds = record {
  shape = record { linked = refl; tail = refl; size = refl; distinct = tt };
  data_in = refl;
}

first-Holds : Holds first.1 first.0 (16 ∷ []) (bytes "hello" ∷ [])
first-Holds =
    insert_word-Holds heap0 create_linked_list 16 [] [] (bytes "hello") true nothing-Holds tt

second-Holds : Holds second.1 second.0 (16 ∷ 48 ∷ []) (bytes "hello" ∷ bytes "CS392" ∷ [])
second-Holds =
    insert_word-Holds first.1 first.0 48 (16 ∷ []) (bytes "hello" ∷ []) (bytes "CS392") true
      first-Holds (ground arith, tt)

insert_word-Holds_example :
    Holds third.1 third.0
      (placed false 32 (16 ∷ 48 ∷ []))
      (placed false (bytes "Dr. B") (bytes "hello" ∷ bytes "CS392" ∷ []))
insert_word-Holds_example =
    insert_word-Holds second.1 second.0 32 (16 ∷ 48 ∷ []) (bytes "hello" ∷ bytes "CS392" ∷ [])
      (bytes "Dr. B") false second-Holds (ground arith, (ground arith, tt))

abbrev words : List Bytes
words = bytes "Dr. B" ∷ bytes "hello" ∷ bytes "CS392" ∷ []

third-Holds : Holds third.1 third.0 (32 ∷ 16 ∷ 48 ∷ []) words
third-Holds =
    insert_word-Holds second.1 second.0 32 (16 ∷ 48 ∷ []) (bytes "hello" ∷ bytes "CS392" ∷ [])
      (bytes "Dr. B") false second-Holds (ground arith, (ground arith, tt))

pop_all-values_example : pop_all 3 third.0 third.1 ≡ some (words, create_linked_list)
pop_all-values_example =
    pop_all-values 3 third.1 third.0 (32 ∷ 16 ∷ 48 ∷ []) words third-Holds (omega arith)

printed : print_list (λ w. w) third.0 third.1 ≡ bytes "[Dr. B, hello, CS392]\n"
unfolding print_rest
printed = refl
