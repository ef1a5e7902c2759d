-- ===== src/Quicksort/Partition.antt =====
-- 392/Quciksort/quicksort.c: what `lomuto` does to a segment.
use cs.Prelude.{ℕ, zero, suc, ◌+◌, ◌-◌, ◌≤◌, ◌<◌, ◌≡◌, true, false, arith, Bool-cases, inl, inr}
use cs.Prelude.Int.{ℤ}
use cs.Quicksort.{less, lomuto_loop, lomuto}
use cs.Quicksort.Array.{Array, Swaps, same, then_swap, Swaps-mono}

module _ {S A : Type 0} (array : Array S A) (comp : A → A → ℤ) where
  open array use {get, swap, get-swap}

  -- Before the round at index `i`: up to `s` the elements are below the pivot, from there on not.
  record IsSplit (left i s : ℕ) (m : S) : Type 0 where
    order : (left ≤ s) × (s < i)
    low : (k : ℕ) → left < k → k ≤ s → less array comp m k left ≡ true
    high : (k : ℕ) → s < k → k < i → less array comp m k left ≡ false

  extend_low :
      (left i s : ℕ) (m : S)
      → IsSplit left i s m
      → less array comp m i left ≡ true
      → IsSplit left (suc i) (suc s) (swap m (suc s) i)
  extend_low left i s m h e = record {
    order = omega (arith, h.order);
    low = λ k a b.
        ground (arith, get-swap m (suc s) i k, get-swap m (suc s) i left, h.order, h.low k);
    high = λ k a b. ground (
      arith,
      get-swap m (suc s) i k,
      get-swap m (suc s) i left,
      h.order,
      h.high k,
      h.high (suc s),
    );
  }

  extend_high :
      (left i s : ℕ) (m : S)
      → IsSplit left i s m
      → less array comp m i left ≡ false
      → IsSplit left (suc i) s m
  extend_high left i s m h e = record {
    order = omega (arith, h.order);
    low = h.low;
    high = λ k a b. ground (arith, h.high k);
  }

  record LoopDone (left i : ℕ) (m : S) (r : ℕ × S) : Type 0 where
    split : IsSplit left i r.0 r.1
    swaps : Swaps array (suc left) i m r.1

  lomuto_loop-LoopDone :
      (left n i j s : ℕ) (m m0 : S)
      → i + n ≡ j
      → IsSplit left i s m
      → Swaps array (suc left) i m0 m
      → LoopDone left j m0 (lomuto_loop array comp left n i s m)
  unfolding lomuto_loop
  lomuto_loop-LoopDone left zero i j s m m0 e h w =
      let e' : i ≡ j = omega arith in rw (← e') (record { split = h; swaps = w })
  lomuto_loop-LoopDone left (suc n) i j s m m0 e h w =
      elim (Bool-cases (less array comp m i left)) [
        | inl low ↦ rw low (
            lomuto_loop-LoopDone left n (suc i) j (suc s) (swap m (suc s) i) m0 (omega arith)
              (extend_low left i s m h low)
              (then_swap (suc s) i
                (Swaps-mono array (suc left) (suc i) w (omega arith) (omega arith))
                (omega (arith, h.order)) (omega (arith, h.order)) (omega (arith, h.order))
                (omega arith)))
        | inr high ↦ rw high (
            lomuto_loop-LoopDone left n (suc i) j s m m0 (omega arith)
              (extend_high left i s m h high)
              (Swaps-mono array (suc left) (suc i) w (omega arith) (omega arith)))
      ]

  -- The pivot has index `s`; the elements before it are below it, and those behind are not.
  pub record IsPartition (left stop : ℕ) (m : S) (r : ℕ × S) : Type 0 where
    pub order : (left ≤ r.0) × (r.0 < stop)
    pub low : (k : ℕ) → left ≤ k → k < r.0 → less array comp r.1 k r.0 ≡ true
    pub high : (k : ℕ) → r.0 < k → k < stop → less array comp r.1 k r.0 ≡ false
    pub swaps : Swaps array left stop m r.1

  place_pivot :
      (left stop : ℕ) (m : S) (r : ℕ × S)
      → LoopDone left stop m r
      → IsPartition left stop m (r.0, swap r.1 left r.0)
  place_pivot left stop m (s, m') d = record {
    order = d.split.order;
    low = λ k a b. ground (
      arith,
      get-swap m' left s k,
      get-swap m' left s s,
      d.split.order,
      d.split.low k,
      d.split.low s,
    );
    high = λ k a b.
        ground (arith, get-swap m' left s k, get-swap m' left s s, d.split.order, d.split.high k);
    swaps =
        then_swap left s (Swaps-mono array left stop d.swaps (omega arith) (omega arith))
          (omega arith) (omega (arith, d.split.order)) (omega (arith, d.split.order))
          (omega (arith, d.split.order));
  }

  -- `lomuto` rearranges the segment by exchanges within it: the pivot, which was its first element,
  -- gets its place, the elements below it before it, and those that are not behind it.
  pub lomuto-IsPartition :
      (left stop : ℕ) (m : S)
      → left < stop
      → IsPartition left stop m (lomuto array comp left stop m)
  unfolding lomuto
  lomuto-IsPartition left stop m h = place_pivot left stop m _ (
      lomuto_loop-LoopDone left (stop - suc left) (suc left) stop left m m (omega arith)
        (record {
          order = omega arith;
          low = λ k a b. absurd (omega arith);
          high = λ k a b. absurd (omega arith);
        })
        same)
