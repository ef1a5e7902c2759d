-- ===== src/Quicksort.antt =====
-- 392/Quciksort/quicksort.c: Lomuto partitioning and quicksort, over an array with `swap`. The
-- bounds of a segment are `left` and `stop`, where `stop` is the source's `right + 1`: the source
-- passes -1 for `right` where a segment at the start is empty.
pub mod Array
pub mod Tally
pub mod Memory
pub mod Compare
pub mod Examples
pub mod Sorted
pub mod Partition
use cs.Prelude.{ℕ, zero, suc, ◌+◌, ◌-◌, Bool, true, false, Option, none, some, ltb, if◌then◌else◌}
use cs.Prelude.Int.{ℤ, is_neg}

module _ {S A : Type 0} (array : Array.Array S A) (comp : A → A → ℤ) where
  open array use {get, swap}

  -- `comp(array + i, array + j) < 0`
  abbrev pub less : S → ℕ → ℕ → Bool
  less m i j = is_neg (comp (get m i) (get m j))

  -- The `for` loop of `lomuto`, with `n` rounds left from index `i` on. The pivot stays at `left`.
  unfoldable pub lomuto_loop : ℕ → ℕ → ℕ → ℕ → S → ℕ × S
  lomuto_loop left zero i s m = (s, m)
  lomuto_loop left (suc n) i s m =
      let next : ℕ × S = if less m i left then (suc s, swap m (suc s) i) else (s, m) in
      lomuto_loop left n (suc i) next.0 next.1

  unfoldable pub lomuto : ℕ → ℕ → S → ℕ × S
  lomuto left stop m =
      let (s, m') = lomuto_loop left (stop - suc left) (suc left) left m in (s, swap m' left s)

  -- The two recursive calls of `quicksort_helper`, one after the other.
  abbrev pub both : Option S → (S → Option S) → Option S
  both none next = none
  both (some m) next = next m

  unfoldable pub quicksort_helper : ℕ → ℕ → ℕ → S → Option S
  quicksort_helper zero left stop m = none
  quicksort_helper (suc fuel) left stop m =
      let (s, m') = lomuto left stop m in
      let sorted = both (quicksort_helper fuel left s m') (quicksort_helper fuel (suc s) stop) in
      if ltb (suc left) stop then sorted else some m

  -- The fuel bounds the depth of the recursion.
  unfoldable pub quicksort : ℕ → S → Option S
  quicksort len m = quicksort_helper (suc len) 0 len m
