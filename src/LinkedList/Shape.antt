-- ===== src/LinkedList/Shape.antt =====
-- 392/lab 3/linked_list.h: the shape of a list in the heap.
use cs.Prelude.{
  subst, ℕ, ◌≡◌, ◌≢◌, refl, sym, ◌∙◌, ap, none, some, List, [], ◌∷◌, ◌++◌, All, length, ==_refl,
  ==_ne,
}
use cs.LinkedList.{Pointer, Node, Heap, LinkedList, write, set_prev, set_next}

abbrev pub last_of : Pointer → List ℕ → Pointer
last_of q [] = q
last_of q (x ∷ xs) = last_of (some x) xs

abbrev pub Absent : ℕ → List ℕ → Type 0
Absent n = All (λ x. x ≢ n)

abbrev pub NoDup : List ℕ → Type 0
NoDup [] = Unit
NoDup (x ∷ xs) = Absent x xs × NoDup xs

pub last_of-some :
    (y : ℕ) (ys : List ℕ)
    → (l : ℕ) × (last_of (some y) ys ≡ some l) × ((P : ℕ → Type 0) → All P (y ∷ ys) → P l)
last_of-some y [] = (y, refl, λ P a. a.0)
last_of-some y (z ∷ ys) = let (l, e, f) = last_of-some z ys in (l, e, λ P a. f P a.1)

module _ {D : Type 0} where
  -- The nodes from `p` on are those at the addresses `xs`, linked both ways, after the node `q`, and
  -- before the pointer `end`.
  abbrev pub Segment : Heap D → Pointer → Pointer → List ℕ → Pointer → Type 0
  Segment h q p [] end = p ≡ end
  Segment h q p (x ∷ xs) end =
      (p ≡ some x) × ((h x).prev ≡ q) × Segment h (some x) (h x).next xs end

  -- A list whose nodes are at the addresses `xs`, from the head to the tail.
  pub record IsList (h : Heap D) (list : LinkedList) (xs : List ℕ) : Type 0 where
    pub linked : Segment h none list.head xs none
    pub tail : list.tail ≡ last_of none xs
    pub size : list.num_nodes ≡ length xs
    pub distinct : NoDup xs

  pub write-other : (h : Heap D) (n : ℕ) (v : Node D) (x : ℕ) → x ≢ n → write n v h x ≡ h x
  write-other h n v x a = rw (==_ne x n a) refl

  pub write_self : (h : Heap D) (n : ℕ) (v : Node D) → write n v h n ≡ v
  write_self h n v = rw (==_refl n) refl

  pub Segment-write :
      (h : Heap D) (n : ℕ) (v : Node D) (q p : Pointer) (xs : List ℕ) (end : Pointer)
      → Absent n xs
      → Segment h q p xs end
      → Segment (write n v h) q p xs end
  Segment-write h n v q p [] end a s = s
  Segment-write h n v q p (x ∷ xs) end a s =
      rw (write-other h n v x a.0)
        (s.0, s.1, Segment-write h n v (some x) (h x).next xs end a.1 s.2)

  pub Segment-append :
      (h : Heap D) (q p r : Pointer) (xs ys : List ℕ) (end : Pointer)
      → Segment h q p xs r
      → Segment h (last_of q xs) r ys end
      → Segment h q p (xs ++ ys) end
  Segment-append h q p r [] ys end s t = rw s t
  Segment-append h q p r (x ∷ xs) ys end s t =
      (s.0, s.1, Segment-append h (some x) (h x).next r xs ys end s.2 t)

  -- The first node of a segment gets a new node before it.
  pub Segment-set_prev :
      (h : Heap D) (q p v : Pointer) (xs : List ℕ)
      → NoDup xs
      → Segment h q p xs none
      → Segment (set_prev p v h) v p xs none
  Segment-set_prev h q p v [] d s = s
  Segment-set_prev h q p v (x ∷ xs) d s =
      subst (λ r. Segment (set_prev r v h) v r (x ∷ xs) none) (sym s.0)
        (
          refl,
          ap (λ m. m.prev) self,
          subst (λ m. Segment (write x new h) (some x) m.next xs none) (sym self)
              (Segment-write h x new (some x) (h x).next xs none d.0 s.2),
        )
    where
      new : Node D
      new = record (h x) { prev = v }

      self : write x new h x ≡ new
      self = write_self h x new

  -- The last node of a segment gets a new node behind it.
  pub Segment-set_next :
      (h : Heap D) (q p v : Pointer) (y : ℕ) (ys : List ℕ) (end : Pointer)
      → NoDup (y ∷ ys)
      → Segment h q p (y ∷ ys) end
      → Segment (set_next (last_of (some y) ys) v h) q p (y ∷ ys) v
  Segment-set_next h q p v y [] end d s = (
    s.0,
    rw (write_self h y (record (h y) { next = v })) s.1,
    rw (write_self h y (record (h y) { next = v })) refl,
  )
  Segment-set_next h q p v y (z ∷ ys) end d s =
      let (l, e, inside) = last_of-some z ys in
      let off : y ≢ l = λ at. inside (λ x. x ≢ y) d.0 (sym at) in
      let rest = Segment-set_next h (some y) (h y).next v z ys end d.1 s.2 in
      let new : Node D = record (h l) { next = v } in
      let other : write l new h y ≡ h y = write-other h l new y off in
      let rest' = subst (λ r. Segment (set_next r v h) (some y) (h y).next (z ∷ ys) v) e rest in
      subst (λ r. Segment (set_next r v h) q p (y ∷ z ∷ ys) v) (sym e)
        (s.0, ap (λ m. m.prev) other ∙ s.1, (ap (λ m. m.next) other ∙ rest'.0, rest'.1, rest'.2))
