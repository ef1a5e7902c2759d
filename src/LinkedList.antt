-- ===== src/LinkedList.antt =====
-- 392/lab 3: linked_list.h and node.h, a doubly linked list on a heap of nodes.
pub mod Shape
pub mod Link
pub mod Insert
pub mod Order
mod Examples
use cs.Prelude.{
  ℕ, zero, suc, ◌+◌, ◌≤◌, ◌<◌, ◌≡◌, Bool, true, false, Option, none, some, List, [], ◌∷◌, ◌==◌,
  if◌then◌else◌,
}
use cs.Prelude.Int.{ℤ, pos, leb_ℤ}

-- A pointer is an address or NULL.
abbrev pub Pointer : Type 0
Pointer = Option ℕ

-- struct node
pub record Node (D : Type 0) : Type 0 where
  pub data_of : D
  pub next : Pointer
  pub prev : Pointer

abbrev pub Heap : Type 0 → Type 0
Heap D = ℕ → Node D

-- struct linked_list
pub record LinkedList : Type 0 where
  pub head : Pointer
  pub tail : Pointer
  pub num_nodes : ℕ

module _ {D : Type 0} where
  abbrev pub write : ℕ → Node D → Heap D → Heap D
  write a v h k = if k == a then v else h k

  abbrev pub create_node : D → Node D
  create_node d = record { data_of = d; next = none; prev = none }

  -- `p->prev = q` and `q->next = p`, where the pointer written through is not NULL.
  abbrev pub set_prev : Pointer → Pointer → Heap D → Heap D
  set_prev none q h = h
  set_prev (some a) q h = write a (record (h a) { prev = q }) h

  abbrev pub set_next : Pointer → Pointer → Heap D → Heap D
  set_next none p h = h
  set_next (some a) p h = write a (record (h a) { next = p }) h

  -- The `while` of `insert_in_order`, from `p` and `q` on: where it stops. `fuel` is at least the number
  -- of nodes from `p` on.
  unfoldable pub find_place : (D → D → ℤ) → Heap D → D → ℕ → Pointer → Pointer → Pointer × Pointer
  find_place cmp h d zero p q = (p, q)
  find_place cmp h d (suc fuel) none q = (none, q)
  find_place cmp h d (suc fuel) (some a) q =
      let further = find_place cmp h d fuel (h a).next (some a) in
      if leb_ℤ (cmp (h a).data_of d) (pos 0) then further else (some a, q)

  -- `insert_in_order` behind the loop.
  abbrev pub link : LinkedList → ℕ → Pointer → Pointer → Heap D → LinkedList × Heap D
  link list n p q h = (
    record {
      head = elim q as (λ x. Pointer) [ none ↦ some n | some a ↦ list.head ];
      tail = elim p as (λ x. Pointer) [ none ↦ some n | some a ↦ list.tail ];
      num_nodes = list.num_nodes + 1;
    },
    set_next q (some n) (set_prev p (some n) (write n (record (h n) { next = p; prev = q }) h)),
  )

  unfoldable pub insert_in_order : (D → D → ℤ) → LinkedList → ℕ → Heap D → LinkedList × Heap D
  insert_in_order cmp list n h =
      let (p, q) = find_place cmp h (h n).data_of (list.num_nodes + 1) list.head none in
      link list n p q h
