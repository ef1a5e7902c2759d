-- ===== src/LinkedList/Order.antt =====
-- 392/lab 3/linked_list.h: the order of the data in a list.
use cs.Prelude.{
  ℕ, ◌≡◌, refl, sym, ◌∙◌, ap, Bool, true, false, none, some, List, [], ◌∷◌, arith, ◌==◌, Bool-cases,
  inl, inr, ◌+◌, ◌++◌, subst,
}
use cs.Prelude.Int.{ℤ, pos, leb_ℤ}
use cs.LinkedList.{
  Pointer, Node, Heap, LinkedList, write, set_prev, set_next, find_place, insert_in_order,
}
use cs.LinkedList.Shape.{IsList, Absent}
use cs.LinkedList.Insert.{inserted, insert_in_order-IsList}

module _ {D : Type 0} where
  write-data :
      (h : Heap D) (x : ℕ) (v : Node D) (a : ℕ)
      → v.data_of ≡ (h x).data_of
      → (write x v h a).data_of ≡ (h a).data_of
  write-data h x v a e = elim (Bool-cases (a == x)) [
    | inl at ↦ let here : a ≡ x = ground arith in rw at (e ∙ ap (λ k. (h k).data_of) (sym here))
    | inr off ↦ rw off refl
  ]

  set_prev-data : (p v : Pointer) (h : Heap D) (a : ℕ) → (set_prev p v h a).data_of ≡ (h a).data_of
  set_prev-data none v h a = refl
  set_prev-data (some x) v h a = write-data h x (record (h x) { prev = v }) a refl

  set_next-data : (p v : Pointer) (h : Heap D) (a : ℕ) → (set_next p v h a).data_of ≡ (h a).data_of
  set_next-data none v h a = refl
  set_next-data (some x) v h a = write-data h x (record (h x) { next = v }) a refl

module _ {D : Type 0} (cmp : D → D → ℤ) where
  abbrev not_greater : Heap D → ℕ → ℕ → Bool
  not_greater h x y = leb_ℤ (cmp (h x).data_of (h y).data_of) (pos 0)

  abbrev pub SortedData : Heap D → List ℕ → Type 0
  SortedData h [] = Unit
  SortedData h (x ∷ []) = Unit
  SortedData h (x ∷ y ∷ xs) = (not_greater h x y ≡ true) × SortedData h (y ∷ xs)

  SortedData-same :
      (h k : Heap D) (xs : List ℕ)
      → ((a : ℕ) → (k a).data_of ≡ (h a).data_of)
      → SortedData h xs
      → SortedData k xs
  SortedData-same h k [] e s = tt
  SortedData-same h k (x ∷ []) e s = tt
  SortedData-same h k (x ∷ y ∷ xs) e s = (rw (e x, e y) s.0, SortedData-same h k (y ∷ xs) e s.1)

  insert_in_order-data :
      (list : LinkedList) (n : ℕ) (h : Heap D) (a : ℕ)
      → ((insert_in_order cmp list n h).1 a).data_of ≡ (h a).data_of
  unfolding insert_in_order
  insert_in_order-data list n h a =
      let (p, q) = find_place cmp h (h n).data_of (list.num_nodes + 1) list.head none in
      let node : Node D = record (h n) { next = p; prev = q } in
      set_next-data q (some n) (set_prev p (some n) (write n node h)) a
      ∙ set_prev-data p (some n) (write n node h) a
      ∙ write-data h n node a refl

  -- Where the new node goes.
  inserted-split :
      (h : Heap D) (d : D) (n : ℕ) (xs : List ℕ)
      → (front : List ℕ) × (back : List ℕ) × (xs ≡ front ++ back)
        × (inserted cmp h d n xs ≡ front ++ n ∷ back)
  inserted-split h d n [] = ([], [], refl, refl)
  inserted-split h d n (x ∷ xs) = elim (Bool-cases (leb_ℤ (cmp (h x).data_of d) (pos 0))) [
    | inl before ↦
        let (front, back, whole, place) = inserted-split h d n xs in
        (x ∷ front, back, ap (◌∷◌ x) whole, rw before (ap (◌∷◌ x) place))
    | inr behind ↦ ([], x ∷ xs, refl, rw behind refl)
  ]

  module _
      (total : (a b : D) → leb_ℤ (cmp a b) (pos 0) ≡ false → leb_ℤ (cmp b a) (pos 0) ≡ true) where
    inserted-SortedData :
        (h : Heap D) (n : ℕ) (xs : List ℕ)
        → SortedData h xs
        → SortedData h (inserted cmp h (h n).data_of n xs)
    inserted-SortedData h n [] s = tt
    inserted-SortedData h n (x ∷ []) s = elim (Bool-cases (not_greater h x n)) [
      | inl before ↦ rw before (before, tt)
      | inr behind ↦ rw behind (total _ _ behind, tt)
    ]
    inserted-SortedData h n (x ∷ y ∷ xs) s = elim (Bool-cases (not_greater h x n)) [
      | inr behind ↦ rw behind (total _ _ behind, s)
      | inl before ↦
          let rest = inserted-SortedData h n (y ∷ xs) s.1 in
          elim (Bool-cases (not_greater h y n)) [
            | inl further ↦ rw (before, further) (s.0, rw further at rest)
            | inr here ↦ rw (before, here) (before, rw here at rest)
          ]
    ]

    -- With a comparator that puts any two data in one order or the other: on a list that is linked both
    -- ways from head to tail, with the right count and its data in non-decreasing order, and a node at a
    -- new address, `insert_in_order` leaves a list that is linked in the same way through all its nodes
    -- and the new one, whose data are in non-decreasing order. The nodes before the new one and those
    -- behind it keep their order.
    pub insert_in_order-SortedData :
        (h : Heap D) (list : LinkedList) (n : ℕ) (xs : List ℕ)
        → IsList h list xs
        → Absent n xs
        → SortedData h xs
        → (front : List ℕ) × (back : List ℕ) × (xs ≡ front ++ back)
          × IsList
              (insert_in_order cmp list n h).1
              (insert_in_order cmp list n h).0
              (front ++ n ∷ back)
          × SortedData (insert_in_order cmp list n h).1 (front ++ n ∷ back)
    insert_in_order-SortedData h list n xs is a s =
        let d = (h n).data_of in
        let t = insert_in_order cmp list n h in
        let (front, back, whole, place) = inserted-split h d n xs in
        (
          front,
          back,
          whole,
          subst (IsList t.1 t.0) place (insert_in_order-IsList cmp h list n xs is a),
          subst (SortedData t.1) place (
              SortedData-same h t.1 (inserted cmp h d n xs) (insert_in_order-data list n h)
                (inserted-SortedData h n xs s)),
        )
