-- ===== src/Quicksort/Sorted.antt =====
-- 392/Quciksort/quicksort.c: `quicksort` sorts, for every comparator that orders.
use cs.Prelude.{
  ℕ, zero, suc, ◌+◌, ◌≤◌, ◌<◌, ◌≡◌, refl, Bool, true, false, Option, some, ltb, arith, ◌∙◌, dec_lt,
  Bool-cases, inl, inr,
}
use cs.Prelude.Int.{ℤ, is_neg}
use cs.Quicksort.{less, lomuto, both, quicksort_helper, quicksort}
use cs.Quicksort.Array.{Array, Swaps, same, Swaps-trans, Swaps-mono, Swaps-frame, Swaps-source}
use cs.Quicksort.Partition.{IsPartition, lomuto-IsPartition}
use cs.Quicksort.Tally.{tally, Swaps-tally}

-- What `qsort`-style comparators promise, read off the sign of the result.
pub record IsOrder {A : Type 0} (comp : A → A → ℤ) : Type 0 where
  pub asym : (a b : A) → is_neg (comp a b) ≡ true → is_neg (comp b a) ≡ false
  pub trans :
      (a b c : A)
      → is_neg (comp b a) ≡ false
      → is_neg (comp c b) ≡ false
      → is_neg (comp c a) ≡ false

module _ {S A : Type 0} (array : Array S A) (comp : A → A → ℤ) (ord : IsOrder comp) where
  open array use {get, swap, get-swap}

  -- No element of the segment is below an earlier one.
  abbrev pub SortedOn : S → ℕ → ℕ → Type 0
  SortedOn m left stop = (i j : ℕ) → left ≤ i → i < j → j < stop → less array comp m j i ≡ false

  record Outcome (left stop : ℕ) (m : S) (r : Option S) : Type 0 where
    last : S
    result : r ≡ some last
    sorted : SortedOn last left stop
    swaps : Swaps array left stop m last

  -- The two sorted parts around the pivot.
  module _ {left stop s : ℕ} {m m1 m2 m3 : S} (part : IsPartition array comp left stop m (s, m1))
      (front : Swaps array left s m1 m2) (front_sorted : SortedOn m2 left s)
      (back : Swaps array (suc s) stop m2 m3) (back_sorted : SortedOn m3 (suc s) stop) where
    pivot : get m3 s ≡ get m1 s
    pivot = Swaps-frame array back s (ground arith) ∙ Swaps-frame array front s (ground arith)

    front_kept : (k : ℕ) → k < s → get m3 k ≡ get m2 k
    front_kept k h = Swaps-frame array back k (ground arith)

    front_low : (k : ℕ) → left ≤ k → k < s → is_neg (comp (get m3 k) (get m3 s)) ≡ true
    front_low k a b =
        let (x, l, h, e) = Swaps-source array front k a b in
        ground (arith, front_kept k, pivot, e, part.low x)

    back_high : (k : ℕ) → s < k → k < stop → is_neg (comp (get m3 k) (get m3 s)) ≡ false
    back_high k a b =
        let (x, l, h, e) = Swaps-source array back k a b in
        ground (arith, e, Swaps-frame array front x, pivot, part.high x)

    across : (i j : ℕ) → left ≤ i → i ≤ s → s < j → j < stop → less array comp m3 j i ≡ false
    across i j a b c d = elim (dec_lt i s) [
      | yes before ↦
          ord.trans (get m3 i) (get m3 s) (get m3 j)
            (ord.asym (get m3 i) (get m3 s) (front_low i a before)) (back_high j c d)
      | no at ↦ let e : i ≡ s = omega arith in rw e (back_high j c d)
    ]

    joined : SortedOn m3 left stop
    joined i j a b c = elim (dec_lt j s) [
      | yes j_front ↦ ground (arith, front_sorted i j a b j_front, front_kept i, front_kept j)
      | no j_far ↦ elim (dec_lt s i) [
        | yes i_back ↦ back_sorted i j i_back b c
        | no i_near ↦ elim (dec_lt s j) [
          | yes j_back ↦ across i j a (omega arith) j_back c
          | no j_here ↦
              let e : j ≡ s = omega arith in
              rw e (ord.asym (get m3 i) (get m3 s) (front_low i a (omega arith)))
        ]
      ]
    ]

  whole :
      (left stop : ℕ) (m : S) (p : ℕ × S)
      → IsPartition array comp left stop m p
      → (back : S → Option S) {front : Option S} → Outcome left p.0 p.1 front
      → ((m2 : S) → Outcome (suc p.0) stop m2 (back m2))
      → Outcome left stop m (both array comp front back)
  whole left stop m (s, m1) part back {front} f g = record {
    last = b.last;
    result = rw f.result b.result;
    sorted = joined part f.swaps f.sorted b.swaps b.sorted;
    swaps = Swaps-trans array part.swaps (
        Swaps-trans array
          (Swaps-mono array left stop f.swaps (omega arith) (omega (arith, part.order)))
          (Swaps-mono array left stop b.swaps (omega (arith, part.order)) (omega arith)));
  }
    where
      b : Outcome (suc s) stop f.last (back f.last)
      b = g f.last

  quicksort_helper-Outcome :
      (fuel left stop : ℕ) (m : S)
      → left ≤ stop
      → stop < left + fuel
      → Outcome left stop m (quicksort_helper array comp fuel left stop m)
  unfolding quicksort_helper
  quicksort_helper-Outcome zero left stop m o h = absurd (omega arith)
  quicksort_helper-Outcome (suc fuel) left stop m o h = elim (Bool-cases (ltb (suc left) stop)) [
    | inl long ↦
        let (s, m1) = lomuto array comp left stop m in
        let part = lomuto-IsPartition array comp left stop m (ground arith) in
        rw long (
          whole left stop m (lomuto array comp left stop m) part
            (quicksort_helper array comp fuel (suc s) stop)
            (quicksort_helper-Outcome fuel left s m1 (omega (arith, part.order))
              (omega (arith, part.order)))
            (λ m2.
              quicksort_helper-Outcome fuel (suc s) stop m2 (omega (arith, part.order))
                (omega (arith, part.order))))
    | inr short ↦ rw short (record {
      last = m;
      result = refl;
      sorted = λ i j a b c. absurd (ground arith);
      swaps = same;
    })
  ]

  -- `quicksort` of the first `len` elements returns; then no element is below an earlier one, each
  -- property holds of as many of them as before, and what lies behind them is as it was.
  pub quicksort-IsSorted :
      (len : ℕ) (m : S)
      → (m' : S) × (quicksort array comp len m ≡ some m')
        × SortedOn m' 0 len
        × ((p : A → Bool) → tally array p m' len ≡ tally array p m len)
        × ((k : ℕ) → ltb k len ≡ false → get m' k ≡ get m k)
  unfolding quicksort
  quicksort-IsSorted len m =
      let out = quicksort_helper-Outcome (suc len) 0 len m (omega arith) (omega arith) in
      (
        out.last,
        out.result,
        out.sorted,
        λ p. Swaps-tally array p out.swaps len (omega arith),
        λ k h. Swaps-frame array out.swaps k (ground arith),
      )
