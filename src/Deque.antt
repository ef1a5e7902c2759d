-- ===== src/Deque.antt =====
-- 392/LinkedList/linked_list.h and main.c: a doubly linked list that grows at both ends and shrinks at the
-- front, on the heap of nodes of LinkedList.
pub mod Ends
pub mod Drain
mod Examples
use cs.Prelude.{
  ℕ, zero, suc, ◌+◌, ◌-◌, ◌≡◌, Bool, true, false, Option, none, some, List, [], ◌∷◌, ◌++◌, Bytes,
  bytes, ◌==◌, if◌then◌else◌,
}
use cs.LinkedList.{Pointer, Node, Heap, LinkedList, write, create_node, set_prev, set_next}

abbrev pub create_linked_list : LinkedList
create_linked_list = record { head = none; tail = none; num_nodes = 0 }

module _ {D : Type 0} where
  -- `push_back` and `push_front` by their test of `list->head`, the first argument.
  abbrev pub attach_back : Pointer → LinkedList → ℕ → Heap D → LinkedList × Heap D
  attach_back none list n h =
      (record { head = some n; tail = some n; num_nodes = list.num_nodes + 1 }, h)
  attach_back (some a) list n h = (
    record list { tail = some n; num_nodes = list.num_nodes + 1 },
    set_prev (some n) list.tail (set_next list.tail (some n) h),
  )

  abbrev pub push_back : LinkedList → ℕ → Heap D → LinkedList × Heap D
  push_back list n h = attach_back list.head list n h

  abbrev pub attach_front : Pointer → LinkedList → ℕ → Heap D → LinkedList × Heap D
  attach_front none list n h =
      (record { head = some n; tail = some n; num_nodes = list.num_nodes + 1 }, h)
  attach_front (some a) list n h = (
    record list { head = some n; num_nodes = list.num_nodes + 1 },
    set_next (some n) (some a) (set_prev (some a) (some n) h),
  )

  abbrev pub push_front : LinkedList → ℕ → Heap D → LinkedList × Heap D
  push_front list n h = attach_front list.head list n h

  -- The list without its first node `cur`, whose `next` is the first argument.
  abbrev pub unlink_front : Pointer → LinkedList → ℕ → Heap D → LinkedList × Heap D
  unlink_front none list cur h =
      (record { head = none; tail = none; num_nodes = list.num_nodes - 1 }, h)
  unlink_front (some b) list cur h = (
    record list { head = some b; num_nodes = list.num_nodes - 1 },
    set_next (some cur) none (set_prev (some b) none h),
  )

  -- `pop_front` where `list->head` is `cur`; on an empty list it answers NULL.
  abbrev pub pop_node : LinkedList → ℕ → Heap D → LinkedList × Heap D
  pop_node list cur h = unlink_front (h cur).next list cur h

  abbrev pub pop_front : LinkedList → Heap D → Option (ℕ × LinkedList × Heap D)
  pop_front list h = elim list.head as (λ x. Option (ℕ × LinkedList × Heap D)) [
    | none ↦ none
    | some cur ↦ let (list', h') = pop_node list cur h in some (cur, list', h')
  ]

  -- The `for` of `print_list` from `cur` on. `fuel` is at least the number of nodes left.
  unfoldable pub print_rest : (D → Bytes) → Heap D → ℕ → Pointer → Bytes
  print_rest print_function h zero cur = []
  print_rest print_function h (suc fuel) none = []
  print_rest print_function h (suc fuel) (some a) =
      bytes ", " ++ print_function (h a).data_of ++ print_rest print_function h fuel (h a).next

  abbrev pub print_list : (D → Bytes) → LinkedList → Heap D → Bytes
  print_list print_function list h =
      bytes "["
      ++ elim list.head as (λ x. Bytes) [
        | none ↦ []
        | some a ↦
            print_function (h a).data_of ++ print_rest print_function h list.num_nodes (h a).next
      ]
      ++ bytes "]\n"

  -- `insert_word`, where `malloc` gives the address `n`.
  abbrev pub insert_word : LinkedList → ℕ → D → Bool → Heap D → LinkedList × Heap D
  insert_word list n word at_end h =
      let h1 = write n (create_node word) h in
      if at_end then push_back list n h1 else push_front list n h1

  -- The `while` of `main`: the values popped, oldest first, and the list at the end. `fuel` is at least
  -- `num_nodes`. The source reads `front->data` without a test for NULL.
  unfoldable pub pop_all : ℕ → LinkedList → Heap D → Option (List D × LinkedList)
  pop_all zero list h = some ([], list)
  pop_all (suc fuel) list h =
      if list.num_nodes == 0
      then some ([], list)
      else elim (pop_front list h) as (λ x. Option (List D × LinkedList)) [
        | none ↦ none
        | some (a, list', h') ↦
            elim (pop_all fuel list' h') as (λ x. Option (List D × LinkedList)) [
              | none ↦ none
              | some (values, end) ↦ some ((h' a).data_of ∷ values, end)
            ]
      ]
