-- ===== src/LinkedList/Insert.antt =====
-- 392/lab 3/linked_list.h: what `insert_in_order` does.
use cs.Prelude.{
  length-append, subst, ℕ, zero, suc, ◌+◌, ◌<◌, ◌≡◌, ◌≢◌, refl, sym, ◌∙◌, ap, none, some, List, [],
  ◌∷◌, ◌++◌, arith, length, if◌then◌else◌, Bool-cases, inl, inr,
}
use cs.Prelude.Int.{ℤ, pos, leb_ℤ}
use cs.LinkedList.{
  Pointer, Node, Heap, LinkedList, write, set_prev, set_next, find_place, link, insert_in_order,
}
use cs.LinkedList.Link.{
  All-front, All-back, NoDup-back, NoDup-apart, frame_prev, set_prev-other, join,
}
use cs.LinkedList.Shape.{
  last_of, Absent, NoDup, Segment, IsList, write_self, Segment-write, Segment-set_prev,
}

module _ {D : Type 0} (cmp : D → D → ℤ) where
  -- The new address `n` behind the addresses whose data are not greater than `d`, from the head on.
  abbrev pub inserted : Heap D → D → ℕ → List ℕ → List ℕ
  inserted h d n [] = n ∷ []
  inserted h d n (x ∷ xs) =
      if leb_ℤ (cmp (h x).data_of d) (pos 0) then x ∷ inserted h d n xs else n ∷ x ∷ xs

  -- Where the loop stops: between the nodes `front` and `back`.
  record Place (h : Heap D) (d : D) (n : ℕ) (q p : Pointer) (xs : List ℕ) (r : Pointer × Pointer)
      : Type 0 where
    front : List ℕ
    back : List ℕ
    split : xs ≡ front ++ back
    result : inserted h d n xs ≡ front ++ n ∷ back
    before : Segment h q p front r.0
    behind : Segment h r.1 r.0 back none
    last : r.1 ≡ last_of q front

  find_place-Place :
      (h : Heap D) (d : D) (n fuel : ℕ) (q p : Pointer) (xs : List ℕ)
      → length xs < fuel
      → Segment h q p xs none
      → Place h d n q p xs (find_place cmp h d fuel p q)
  unfolding find_place
  find_place-Place h d n zero q p xs l s = absurd (omega arith)
  find_place-Place h d n (suc fuel) q p [] l s =
      subst (λ r. Place h d n q r [] (find_place cmp h d (suc fuel) r q)) (sym s)
        (record {
          front = [];
          back = [];
          split = refl;
          result = refl;
          before = refl;
          behind = refl;
          last = refl;
        })
  find_place-Place h d n (suc fuel) q p (x ∷ xs) l s =
      subst (λ r. Place h d n q r (x ∷ xs) (find_place cmp h d (suc fuel) r q)) (sym s.0)
        (elim (Bool-cases (leb_ℤ (cmp (h x).data_of d) (pos 0))) [
          | inl further ↦
              let rest = find_place-Place h d n fuel (some x) (h x).next xs (omega arith) s.2 in
              rw further (record {
                front = x ∷ rest.front;
                back = rest.back;
                split = ap (◌∷◌ x) rest.split;
                result = rw further (ap (◌∷◌ x) rest.result);
                before = (refl, s.1, rest.before);
                behind = rest.behind;
                last = rest.last;
              })
          | inr here ↦ rw here (record {
            front = [];
            back = x ∷ xs;
            split = refl;
            result = rw here refl;
            before = refl;
            behind = (refl, s.1, s.2);
            last = refl;
          })
        ])

  NoDup-insert :
      (n : ℕ) (xs ys : List ℕ) → Absent n (xs ++ ys) → NoDup (xs ++ ys) → NoDup (xs ++ n ∷ ys)
  NoDup-insert n [] ys a d = (a, d)
  NoDup-insert n (x ∷ xs) ys a d = (Absent-insert xs d.0, NoDup-insert n xs ys a.1 d.1)
    where
      Absent-insert : (zs : List ℕ) → Absent x (zs ++ ys) → Absent x (zs ++ n ∷ ys)
      Absent-insert [] b = ((λ e. a.0 (sym e)), b)
      Absent-insert (z ∷ zs) b = (b.0, Absent-insert zs b.1)

  last_of-append :
      (q : Pointer) (xs : List ℕ) (y : ℕ) (ys : List ℕ)
      → last_of q (xs ++ y ∷ ys) ≡ last_of (some y) ys
  last_of-append q [] y ys = refl
  last_of-append q (x ∷ xs) y ys = last_of-append (some x) xs y ys

  -- The heap after the new node has been written.
  abbrev noded : ℕ → Pointer → Pointer → Heap D → Heap D
  noded n p q h = write n (record (h n) { next = p; prev = q }) h

  tail_after :
      (h : Heap D) (q p t : Pointer) (front : List ℕ) (n : ℕ) (back : List ℕ)
      → Segment h q p back none
      → t ≡ last_of none (front ++ back)
      → elim p as (λ x. Pointer) [ none ↦ some n | some a ↦ t ] ≡ last_of none (front ++ n ∷ back)
  tail_after h q p t front n [] s e =
      ap (λ m. elim m as (λ x. Pointer) [ none ↦ some n | some a ↦ t ]) s
      ∙ sym (last_of-append none front n [])
  tail_after h q p t front n (z ∷ zs) s e =
      ap (λ m. elim m as (λ x. Pointer) [ none ↦ some n | some a ↦ t ]) s.0
      ∙ e
      ∙ last_of-append none front z zs
      ∙ sym (last_of-append none front n (z ∷ zs))

  link-IsList :
      (h : Heap D) (list : LinkedList) (n : ℕ) (p q : Pointer) (front back : List ℕ)
      → IsList h list (front ++ back)
      → Absent n (front ++ back)
      → Segment h none list.head front p
      → Segment h q p back none
      → q ≡ last_of none front
      → IsList (link list n p q h).1 (link list n p q h).0 (front ++ n ∷ back)
  link-IsList h list n p q front back is a s t e = record {
    linked =
        subst
          (λ m.
            Segment (set_next m (some n) h2) none
              (elim m as (λ x. Pointer) [ none ↦ some n | some a ↦ list.head ]) (front ++ n ∷ back)
              none)
          (sym e)
          (join h2 n p list.head front back is.distinct absent_front (ap (λ m. m.next) at_n)
            (ap (λ m. m.prev) at_n ∙ e) front2 back2);
    tail = tail_after h q p list.tail front n back t is.tail;
    size = omega (arith, is.size, length-append front back, length-append front (n ∷ back));
    distinct = NoDup-insert n front back a is.distinct;
  }
    where
      absent_front : Absent n front
      absent_front = All-front (λ x. x ≢ n) front back a

      absent_back : Absent n back
      absent_back = All-back (λ x. x ≢ n) front back a

      node : Node D
      node = record (h n) { next = p; prev = q }

      h1 : Heap D
      h1 = write n node h

      h2 : Heap D
      h2 = set_prev p (some n) h1

      back1 : Segment h1 q p back none
      back1 = Segment-write h n node q p back none absent_back t

      back2 : Segment h2 (some n) p back none
      back2 = Segment-set_prev h1 q p (some n) back (NoDup-back front back is.distinct) back1

      front2 : Segment h2 none list.head front p
      front2 =
          frame_prev h1 q p (some n) back none list.head p front back1
            (NoDup-apart front back is.distinct)
            (Segment-write h n node none list.head front p absent_front s)

      at_n : h2 n ≡ node
      at_n = set_prev-other h1 q p (some n) back n back1 absent_back ∙ write_self h n node

  -- In a list that is linked both ways from head to tail, at different addresses and with the right
  -- count, `insert_in_order` puts a node at a new address behind all nodes up to the first whose data
  -- are greater; the result is again such a list.
  pub insert_in_order-IsList :
      (h : Heap D) (list : LinkedList) (n : ℕ) (xs : List ℕ)
      → IsList h list xs
      → Absent n xs
      → IsList
          (insert_in_order cmp list n h).1
          (insert_in_order cmp list n h).0
          (inserted h (h n).data_of n xs)
  unfolding insert_in_order
  insert_in_order-IsList h list n xs is a =
      let d = (h n).data_of in
      let (p, q) = find_place cmp h d (list.num_nodes + 1) list.head none in
      let place =
        find_place-Place h d n (list.num_nodes + 1) none list.head xs (omega (arith, is.size))
          is.linked in
      subst (IsList (link list n p q h).1 (link list n p q h).0) (sym place.result) (
        link-IsList h list n p q place.front place.back (subst (IsList h list) place.split is)
          (subst (Absent n) place.split a) place.before place.behind place.last)
