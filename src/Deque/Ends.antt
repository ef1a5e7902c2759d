-- ===== src/Deque/Ends.antt =====
-- 392/LinkedList/linked_list.h: what the operations do at the two ends.
use cs.Prelude.{
  subst, ℕ, ◌+◌, ◌≡◌, ◌≢◌, refl, sym, ◌∙◌, ap, none, some, List, [], ◌∷◌, ◌++◌, arith,
  length-append,
}
use cs.LinkedList.{Pointer, Node, Heap, LinkedList, write, set_prev, set_next}
use cs.LinkedList.Shape.{
  last_of, Absent, NoDup, last_of-some, Segment, IsList, write-other, write_self, Segment-write,
  Segment-append, Segment-set_prev, Segment-set_next,
}
use cs.Deque.{attach_back, push_back, attach_front, push_front, unlink_front, pop_node}

last_of_snoc : (q : Pointer) (xs : List ℕ) (n : ℕ) → last_of q (xs ++ n ∷ []) ≡ some n
last_of_snoc q [] n = refl
last_of_snoc q (x ∷ xs) n = last_of_snoc (some x) xs n

Absent-snoc : (n x : ℕ) (xs : List ℕ) → x ≢ n → Absent x xs → Absent x (xs ++ n ∷ [])
Absent-snoc n x [] e a = ((λ at. e (sym at)), tt)
Absent-snoc n x (y ∷ xs) e a = (a.0, Absent-snoc n x xs e a.1)

NoDup-snoc : (n : ℕ) (xs : List ℕ) → Absent n xs → NoDup xs → NoDup (xs ++ n ∷ [])
NoDup-snoc n [] a d = (tt, tt)
NoDup-snoc n (x ∷ xs) a d = (Absent-snoc n x xs a.0 d.0, NoDup-snoc n xs a.1 d.1)

module _ {D : Type 0} where
  -- A node that is linked to nothing.
  abbrev pub IsFresh : Heap D → ℕ → Type 0
  IsFresh h n = ((h n).next ≡ none) × ((h n).prev ≡ none)

  set_next-other :
      (h : Heap D) (n : ℕ) (v : Pointer) (y : ℕ) (ys : List ℕ)
      → Absent n (y ∷ ys)
      → set_next (last_of (some y) ys) v h n ≡ h n
  set_next-other h n v y ys a =
      let (l, e, inside) = last_of-some y ys in
      ap (λ m. set_next m v h n) e
      ∙ write-other h l (record (h l) { next = v }) n (λ at. inside (λ x. x ≢ n) a (sym at))

  one_node :
      (h : Heap D) (list : LinkedList) (n : ℕ)
      → IsFresh h n
      → list.num_nodes ≡ 0
      → IsList h (record { head = some n; tail = some n; num_nodes = list.num_nodes + 1 }) (n ∷ [])
  one_node h list n f e = record {
    linked = (refl, f.1, f.0);
    tail = refl;
    size = omega (arith, e);
    distinct = (tt, tt);
  }

  -- `push_back` puts an unlinked node at a new address behind the last node, and the list stays linked both
  -- ways, with its tail and its count.
  pub push_back-IsList :
      (h : Heap D) (list : LinkedList) (n : ℕ) (xs : List ℕ)
      → IsList h list xs
      → IsFresh h n
      → Absent n xs
      → IsList (push_back list n h).1 (push_back list n h).0 (xs ++ n ∷ [])
  push_back-IsList h list n [] is f a =
      subst (λ p. IsList (attach_back p list n h).1 (attach_back p list n h).0 (n ∷ []))
        (sym is.linked) (one_node h list n f is.size)
  push_back-IsList h list n (y ∷ ys) is f a =
      subst (λ p. IsList (attach_back p list n h).1 (attach_back p list n h).0 (y ∷ ys ++ n ∷ []))
        (sym is.linked.0)
        (record {
          linked =
              subst
                (λ t.
                  Segment (set_prev (some n) t (set_next t (some n) h)) none list.head
                    (y ∷ ys ++ n ∷ []) none)
                (sym is.tail) linked;
          tail = sym (last_of_snoc none (y ∷ ys) n);
          size = omega (arith, is.size, length-append (y ∷ ys) (n ∷ []));
          distinct = NoDup-snoc n (y ∷ ys) a is.distinct;
        })
    where
      last : Pointer
      last = last_of (some y) ys

      h1 : Heap D
      h1 = set_next last (some n) h

      at_n : h1 n ≡ h n
      at_n = set_next-other h n (some n) y ys a

      h2 : Heap D
      h2 = set_prev (some n) last h1

      linked : Segment h2 none list.head (y ∷ ys ++ n ∷ []) none
      linked =
          Segment-append h2 none list.head (some n) (y ∷ ys) (n ∷ []) none
            (Segment-write h1 n (record (h1 n) { prev = last }) none list.head (y ∷ ys) (some n) a
              (Segment-set_next h none list.head (some n) y ys none is.distinct is.linked))
            (
              refl,
              ap (λ m. m.prev) (write_self h1 n (record (h1 n) { prev = last })),
              ap (λ m. m.next) (write_self h1 n (record (h1 n) { prev = last }))
                  ∙ ap (λ m. m.next) at_n
                  ∙ f.0,
            )

  -- `push_front` puts an unlinked node at a new address before the first node, and the list stays linked
  -- both ways, with its tail and its count.
  pub push_front-IsList :
      (h : Heap D) (list : LinkedList) (n : ℕ) (xs : List ℕ)
      → IsList h list xs
      → IsFresh h n
      → Absent n xs
      → IsList (push_front list n h).1 (push_front list n h).0 (n ∷ xs)
  push_front-IsList h list n [] is f a =
      subst (λ p. IsList (attach_front p list n h).1 (attach_front p list n h).0 (n ∷ []))
        (sym is.linked) (one_node h list n f is.size)
  push_front-IsList h list n (y ∷ ys) is f a =
      subst (λ p. IsList (attach_front p list n h).1 (attach_front p list n h).0 (n ∷ y ∷ ys))
        (sym is.linked.0)
        (record {
          linked = (
            refl,
            ap (λ m. m.prev) at_n ∙ ap (λ m. m.prev) before ∙ f.1,
            subst (λ m. Segment h2 (some n) m (y ∷ ys) none) (sym (ap (λ m. m.next) at_n)) behind,
          );
          tail = is.tail;
          size = omega (arith, is.size);
          distinct = (a, is.distinct);
        })
    where
      h1 : Heap D
      h1 = set_prev (some y) (some n) h

      new : Node D
      new = record (h1 n) { next = some y }

      h2 : Heap D
      h2 = write n new h1

      at_n : h2 n ≡ new
      at_n = write_self h1 n new

      before : h1 n ≡ h n
      before = write-other h y (record (h y) { prev = some n }) n (λ e. a.0 (sym e))

      behind : Segment h2 (some n) (some y) (y ∷ ys) none
      behind = Segment-write h1 n new (some n) (some y) (y ∷ ys) none a (
          Segment-set_prev h none (some y) (some n) (y ∷ ys) is.distinct
            (refl, is.linked.1, is.linked.2))

  -- `pop_front` takes the first node off a list that is linked both ways: the rest is such a list, and the
  -- node is linked to nothing and has its data.
  pub pop_node-IsList :
      (h : Heap D) (list : LinkedList) (x : ℕ) (xs : List ℕ)
      → IsList h list (x ∷ xs)
      → IsList (pop_node list x h).1 (pop_node list x h).0 xs
        × IsFresh (pop_node list x h).1 x
        × (((pop_node list x h).1 x).data_of ≡ (h x).data_of)
  pop_node-IsList h list x [] is =
      subst
        (λ p.
          IsList (unlink_front p list x h).1 (unlink_front p list x h).0 []
          × IsFresh (unlink_front p list x h).1 x
          × (((unlink_front p list x h).1 x).data_of ≡ (h x).data_of))
        (sym is.linked.2)
        (
          record { linked = refl; tail = refl; size = omega (arith, is.size); distinct = tt },
          (is.linked.2, is.linked.1),
          refl,
        )
  pop_node-IsList h list x (y ∷ ys) is =
      subst
        (λ p.
          IsList (unlink_front p list x h).1 (unlink_front p list x h).0 (y ∷ ys)
          × IsFresh (unlink_front p list x h).1 x
          × (((unlink_front p list x h).1 x).data_of ≡ (h x).data_of))
        (sym is.linked.2.0)
        (
          record {
            linked = rest;
            tail = is.tail;
            size = omega (arith, is.size);
            distinct = is.distinct.1;
          },
          (ap (λ m. m.next) at_x, ap (λ m. m.prev) at_x ∙ ap (λ m. m.prev) before ∙ is.linked.1),
          ap (λ m. m.data_of) at_x ∙ ap (λ m. m.data_of) before,
        )
    where
      h1 : Heap D
      h1 = set_prev (some y) none h

      new : Node D
      new = record (h1 x) { next = none }

      h2 : Heap D
      h2 = write x new h1

      at_x : h2 x ≡ new
      at_x = write_self h1 x new

      before : h1 x ≡ h x
      before = write-other h y (record (h y) { prev = none }) x (λ e. is.distinct.0.0 (sym e))

      rest : Segment h2 none (some y) (y ∷ ys) none
      rest = Segment-write h1 x new none (some y) (y ∷ ys) none is.distinct.0 (
          Segment-set_prev h (some x) (some y) none (y ∷ ys) is.distinct.1
            (refl, is.linked.2.1, is.linked.2.2))
