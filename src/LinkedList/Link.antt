-- ===== src/LinkedList/Link.antt =====
-- 392/lab 3/linked_list.h: a node put between two parts of a list.
use cs.Prelude.{subst, ℕ, ◌≡◌, ◌≢◌, refl, sym, ◌∙◌, ap, none, some, List, [], ◌∷◌, ◌++◌, All}
use cs.LinkedList.{Pointer, Node, Heap, write, set_prev, set_next}
use cs.LinkedList.Shape.{
  last_of, Absent, NoDup, last_of-some, Segment, write-other, Segment-write, Segment-append,
  Segment-set_next,
}

pub All-front : (P : ℕ → Type 0) (xs ys : List ℕ) → All P (xs ++ ys) → All P xs
All-front P [] ys a = tt
All-front P (x ∷ xs) ys a = (a.0, All-front P xs ys a.1)

pub All-back : (P : ℕ → Type 0) (xs ys : List ℕ) → All P (xs ++ ys) → All P ys
All-back P [] ys a = a
All-back P (x ∷ xs) ys a = All-back P xs ys a.1

pub NoDup-front : (xs ys : List ℕ) → NoDup (xs ++ ys) → NoDup xs
NoDup-front [] ys d = tt
NoDup-front (x ∷ xs) ys d = (All-front (λ y. y ≢ x) xs ys d.0, NoDup-front xs ys d.1)

pub NoDup-back : (xs ys : List ℕ) → NoDup (xs ++ ys) → NoDup ys
NoDup-back [] ys d = d
NoDup-back (x ∷ xs) ys d = NoDup-back xs ys d.1

pub NoDup-apart : (xs ys : List ℕ) → NoDup (xs ++ ys) → All (λ x. Absent x ys) xs
NoDup-apart [] ys d = tt
NoDup-apart (x ∷ xs) ys d = (All-back (λ y. y ≢ x) xs ys d.0, NoDup-apart xs ys d.1)

first_apart : (xs : List ℕ) (z : ℕ) (zs : List ℕ) → All (λ x. Absent x (z ∷ zs)) xs → Absent z xs
first_apart [] z zs a = tt
first_apart (x ∷ xs) z zs a = ((λ e. a.0.0 (sym e)), first_apart xs z zs a.1)

module _ {D : Type 0} where
  -- Setting `prev` of the first node of `back` leaves what is elsewhere.
  pub frame_prev :
      (h : Heap D) (q p v : Pointer) (back : List ℕ) (q' p' r : Pointer) (front : List ℕ)
      → Segment h q p back none
      → All (λ x. Absent x back) front
      → Segment h q' p' front r
      → Segment (set_prev p v h) q' p' front r
  frame_prev h q p v [] q' p' r front s a t =
      subst (λ m. Segment (set_prev m v h) q' p' front r) (sym s) t
  frame_prev h q p v (z ∷ zs) q' p' r front s a t =
      subst (λ m. Segment (set_prev m v h) q' p' front r) (sym s.0)
        (Segment-write h z (record (h z) { prev = v }) q' p' front r (first_apart front z zs a) t)

  pub set_prev-other :
      (h : Heap D) (q p v : Pointer) (back : List ℕ) (n : ℕ)
      → Segment h q p back none
      → Absent n back
      → set_prev p v h n ≡ h n
  set_prev-other h q p v [] n s a = ap (λ m. set_prev m v h n) s
  set_prev-other h q p v (z ∷ zs) n s a =
      ap (λ m. set_prev m v h n) s.0
      ∙ write-other h z (record (h z) { prev = v }) n (λ e. a.0 (sym e))

  -- A node `n` with `next` at `back` and `prev` at the end of `front`, where the first node of `back`
  -- points back to it: the last node of `front` is set to point to it.
  pub join :
      (h : Heap D) (n : ℕ) (p p0 : Pointer) (front back : List ℕ)
      → NoDup (front ++ back)
      → Absent n front
      → (h n).next ≡ p
      → (h n).prev ≡ last_of none front
      → Segment h none p0 front p
      → Segment h (some n) p back none
      → Segment
          (set_next (last_of none front) (some n) h)
          none
          (elim (last_of none front) as (λ x. Pointer) [ none ↦ some n | some a ↦ p0 ])
          (front ++ n ∷ back)
          none
  join h n p p0 [] back d a next prev s t =
      (refl, prev, subst (λ m. Segment h (some n) m back none) (sym next) t)
  join h n p p0 (y ∷ ys) back d a next prev s t =
      let (l, e, inside) = last_of-some y ys in
      let new : Node D = record (h l) { next = some n } in
      let apart : n ≢ l = λ at. inside (λ x. x ≢ n) a (sym at) in
      let other : write l new h n ≡ h n = write-other h l new n apart in
      let linked = Segment-set_next h none p0 (some n) y ys p (NoDup-front (y ∷ ys) back d) s in
      let kept =
        Segment-write h l new (some n) p back none
          (inside (λ x. Absent x back) (NoDup-apart (y ∷ ys) back d)) t in
      let node : Segment (write l new h) (some l) (some n) (n ∷ back) none = (
        refl,
        ap (λ m. m.prev) other ∙ prev ∙ e,
        subst (λ m. Segment (write l new h) (some n) m back none)
            (sym (ap (λ m. m.next) other ∙ next)) kept,
      ) in
      let linked' =
        subst (λ m. Segment (set_next m (some n) h) none p0 (y ∷ ys) (some n)) e linked in
      subst
        (λ m.
          Segment (set_next m (some n) h) none
            (elim m as (λ x. Pointer) [ none ↦ some n | some a ↦ p0 ]) (y ∷ ys ++ n ∷ back) none)
        (sym e)
        (Segment-append (write l new h) none p0 (some n) (y ∷ ys) (n ∷ back) none linked'
          (subst (λ m. Segment (write l new h) m (some n) (n ∷ back) none) (sym e) node))
