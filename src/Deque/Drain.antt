-- ===== src/Deque/Drain.antt =====
-- 392/LinkedList/linked_list.h and main.c: the list as a sequence of values.
use cs.Prelude.{
  ℕ, zero, suc, ◌≤◌, ◌≡◌, refl, sym, ◌∙◌, ap, Bool, true, false, Option, none, some, List, [], ◌∷◌,
  ◌++◌, map, Bytes, bytes, arith, length, ◌==◌, if◌then◌else◌, Bool-cases, inl, inr,
}
use mathlib.Core.Path.{ap₂}
use cs.LinkedList.{Pointer, Node, Heap, LinkedList, write, create_node, set_prev, set_next}
use cs.LinkedList.Shape.{Absent, Segment, IsList, write-other, write_self, Segment-write}
use cs.Deque.{
  create_linked_list, push_back, attach_back, push_front, attach_front, pop_node, unlink_front,
  print_rest, print_list, insert_word, pop_all,
}
use cs.Deque.Ends.{push_back-IsList, push_front-IsList, pop_node-IsList}

-- The addresses, and the values, after `insert_word`.
abbrev pub placed {ℓ} : {A : Type ℓ} → Bool → A → List A → List A
placed at_end a rest = if at_end then rest ++ a ∷ [] else a ∷ rest

-- The values with ", " before each.
abbrev pub commas {ℓ} : {A : Type ℓ} → (A → Bytes) → List A → Bytes
commas f [] = []
commas f (d ∷ ds) = bytes ", " ++ f d ++ commas f ds

abbrev pub joined {ℓ} : {A : Type ℓ} → (A → Bytes) → List A → Bytes
joined f [] = []
joined f (d ∷ ds) = f d ++ commas f ds

module _ {D : Type 0} where
  abbrev pub values : Heap D → List ℕ → List D
  values h xs = map (λ x. (h x).data_of) xs

  -- Two heaps with the same data.
  SameData : Heap D → Heap D → Type 0
  SameData h h' = (k : ℕ) → (h' k).data_of ≡ (h k).data_of

  SameData-values : (h h' : Heap D) (xs : List ℕ) → SameData h h' → values h' xs ≡ values h xs
  unfolding SameData
  SameData-values h h' [] e = refl
  SameData-values h h' (x ∷ xs) e = rw (e x, SameData-values h h' xs e) refl

  SameData-write :
      (h : Heap D) (n : ℕ) (v : Node D) → v.data_of ≡ (h n).data_of → SameData h (write n v h)
  unfolding SameData
  SameData-write h n v e k = elim (Bool-cases (k == n)) [
    | inl at ↦ ground (arith, e)
    | inr off ↦ ground arith
  ]

  SameData-set_prev : (h : Heap D) (p v : Pointer) → SameData h (set_prev p v h)
  unfolding SameData
  SameData-set_prev h none v k = refl
  SameData-set_prev h (some a) v k = SameData-write h a (record (h a) { prev = v }) refl k

  SameData-set_next : (h : Heap D) (p v : Pointer) → SameData h (set_next p v h)
  unfolding SameData
  SameData-set_next h none v k = refl
  SameData-set_next h (some a) v k = SameData-write h a (record (h a) { next = v }) refl k

  attach_back-SameData :
      (p : Pointer) (list : LinkedList) (n : ℕ) (h : Heap D) → SameData h (attach_back p list n h).1
  unfolding SameData
  attach_back-SameData none list n h k = refl
  attach_back-SameData (some a) list n h k =
      SameData-set_prev (set_next list.tail (some n) h) (some n) list.tail k
      ∙ SameData-set_next h list.tail (some n) k

  attach_front-SameData :
      (p : Pointer) (list : LinkedList) (n : ℕ) (h : Heap D)
      → SameData h (attach_front p list n h).1
  unfolding SameData
  attach_front-SameData none list n h k = refl
  attach_front-SameData (some a) list n h k =
      SameData-set_next (set_prev (some a) (some n) h) (some n) (some a) k
      ∙ SameData-set_prev h (some a) (some n) k

  unlink_front-SameData :
      (p : Pointer) (list : LinkedList) (n : ℕ) (h : Heap D)
      → SameData h (unlink_front p list n h).1
  unfolding SameData
  unlink_front-SameData none list n h k = refl
  unlink_front-SameData (some a) list n h k =
      SameData-set_next (set_prev (some a) none h) (some n) none k
      ∙ SameData-set_prev h (some a) none k

  -- The list holds the values `ds`, from the head to the tail.
  pub record Holds (h : Heap D) (list : LinkedList) (xs : List ℕ) (ds : List D) : Type 0 where
    pub shape : IsList h list xs
    pub data_in : values h xs ≡ ds

  created :
      (h : Heap D) (list : LinkedList) (n : ℕ) (xs : List ℕ) (ds : List D) (d : D)
      → Holds h list xs ds
      → Absent n xs
      → Holds (write n (create_node d) h) list xs ds
  created h list n xs ds d g a = record {
    shape = record {
      linked = Segment-write h n (create_node d) none list.head xs none a g.shape.linked;
      tail = g.shape.tail;
      size = g.shape.size;
      distinct = g.shape.distinct;
    };
    data_in = same xs a ∙ g.data_in;
  }
    where
      same : (ys : List ℕ) → Absent n ys → values (write n (create_node d) h) ys ≡ values h ys
      same [] b = refl
      same (y ∷ ys) b = rw (write-other h n (create_node d) y b.0, same ys b.1) refl

  values-append : (h : Heap D) (xs ys : List ℕ) → values h (xs ++ ys) ≡ values h xs ++ values h ys
  values-append h [] ys = refl
  values-append h (x ∷ xs) ys = ap (◌∷◌ (h x).data_of) (values-append h xs ys)

  -- `insert_word` of a word at a new address adds it behind the others or before them.
  pub insert_word-Holds :
      (h : Heap D) (list : LinkedList) (n : ℕ) (xs : List ℕ) (ds : List D) (word : D)
      (at_end : Bool)
      → Holds h list xs ds
      → Absent n xs
      → Holds
          (insert_word list n word at_end h).1
          (insert_word list n word at_end h).0
          (placed at_end n xs)
          (placed at_end word ds)
  insert_word-Holds h list n xs ds word true g a =
      let c = created h list n xs ds word g a in
      let h1 : Heap D = write n (create_node word) h in
      let self : h1 n ≡ create_node word = write_self h n (create_node word) in
      record {
        shape =
            push_back-IsList h1 list n xs c.shape (ap (λ m. m.next) self, ap (λ m. m.prev) self) a;
        data_in =
            SameData-values h1 (push_back list n h1).1 (xs ++ n ∷ [])
              (attach_back-SameData list.head list n h1)
            ∙ values-append h1 xs (n ∷ [])
            ∙ ap₂ (λ us vs. us ++ vs ∷ []) c.data_in (ap (λ m. m.data_of) self);
      }
  insert_word-Holds h list n xs ds word false g a =
      let c = created h list n xs ds word g a in
      let h1 : Heap D = write n (create_node word) h in
      let self : h1 n ≡ create_node word = write_self h n (create_node word) in
      record {
        shape =
            push_front-IsList h1 list n xs c.shape (ap (λ m. m.next) self, ap (λ m. m.prev) self) a;
        data_in =
            SameData-values h1 (push_front list n h1).1 (n ∷ xs)
              (attach_front-SameData list.head list n h1)
            ∙ ap₂ (λ us v. v ∷ us) c.data_in (ap (λ m. m.data_of) self);
      }

  IsList-empty : (h : Heap D) (list : LinkedList) → IsList h list [] → list ≡ create_linked_list
  IsList-empty h list is = ground (arith, is.linked, is.tail, is.size)

  -- The loop of `main` pops the values from the head to the tail, however the list came about, and leaves
  -- the empty list; it never reads through NULL.
  pub pop_all-values :
      (fuel : ℕ) (h : Heap D) (list : LinkedList) (xs : List ℕ) (ds : List D)
      → Holds h list xs ds
      → length xs ≤ fuel
      → pop_all fuel list h ≡ some (ds, create_linked_list)
  unfolding pop_all
  pop_all-values zero h list [] ds g l =
      ap₂ (λ ds' e. some (ds', e)) g.data_in (IsList-empty h list g.shape)
  pop_all-values (suc fuel) h list [] ds g l =
      rw (ap (λ k. k == 0) g.shape.size)
        (ap₂ (λ ds' e. some (ds', e)) g.data_in (IsList-empty h list g.shape))
  pop_all-values zero h list (x ∷ xs) ds g l = absurd (omega arith)
  pop_all-values (suc fuel) h list (x ∷ xs) ds g l =
      let (list', h') = pop_node list x h in
      let (shape, fresh, same) = pop_node-IsList h list x xs g.shape in
      let rest =
        pop_all-values fuel h' list' xs (values h' xs) (record { shape = shape; data_in = refl })
          (omega arith) in
      let data_out =
        ap₂ ◌∷◌ same (SameData-values h h' xs (unlink_front-SameData (h x).next list x h))
        ∙ g.data_in in
      let busy : (list.num_nodes == 0) ≡ false = ground (arith, g.shape.size) in
      rw (busy, g.shape.linked.0, rest)
        (ap {A = List D} {B = Option (List D × LinkedList)} (λ us. some (us, create_linked_list))
          data_out)

  print_rest-commas :
      (f : D → Bytes) (h : Heap D) (fuel : ℕ) (q p : Pointer) (xs : List ℕ)
      → Segment h q p xs none
      → length xs ≤ fuel
      → print_rest f h fuel p ≡ commas f (values h xs)
  unfolding print_rest
  print_rest-commas f h zero q p [] s l = refl
  print_rest-commas f h (suc fuel) q p [] s l = rw s refl
  print_rest-commas f h zero q p (x ∷ xs) s l = absurd (omega arith)
  print_rest-commas f h (suc fuel) q p (x ∷ xs) s l = rw s.0 (
      ap (λ t. bytes ", " ++ f (h x).data_of ++ t)
        (print_rest-commas f h fuel (some x) (h x).next xs s.2 (omega arith)))

  -- `print_list` prints the values from the head to the tail in brackets, with ", " between them.
  pub print_list-joined :
      (f : D → Bytes) (h : Heap D) (list : LinkedList) (xs : List ℕ) (ds : List D)
      → Holds h list xs ds
      → print_list f list h ≡ bytes "[" ++ joined f ds ++ bytes "]\n"
  print_list-joined f h list [] ds g = rw (g.shape.linked, sym g.data_in) refl
  print_list-joined f h list (x ∷ xs) ds g =
      rw
        (
          g.shape.linked.0,
          print_rest-commas f h list.num_nodes (some x) (h x).next xs g.shape.linked.2
              (omega (arith, g.shape.size)),
          sym g.data_in,
        )
        refl
