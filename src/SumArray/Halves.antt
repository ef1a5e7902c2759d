-- ===== src/SumArray/Halves.antt =====
-- mpsumarray/mpsumarray.c: the even and the odd places together.
use cs.Prelude.{ℕ, zero, suc, ◌+◌, ◌≤◌, ◌≡◌, refl, arith, ltb, Bool-cases, inl, inr}
use cs.Semaphore.Adders.{add32}
use cs.SumArray.{sum_loop, sum_array, check_loop, sum_check}

-- More fuel changes nothing.
sum_loop_enough :
    (fuel : ℕ) (array : ℕ → ℕ) (i n a : ℕ)
    → n ≤ i + fuel
    → sum_loop (suc fuel) array i n a ≡ sum_loop fuel array i n a
unfolding sum_loop
sum_loop_enough zero array i n a h = ground arith
sum_loop_enough (suc fuel) array i n a h =
    ground (arith, sum_loop_enough fuel array (i + 2) n (add32 a (array i)))

swap : (a b : ℕ) → add32 a b ≡ add32 b a
swap a b = omega arith

regroup : (a b x : ℕ) → add32 b (add32 a x) ≡ add32 (add32 a b) x
regroup a b x = omega arith

two_sums :
    (fuel : ℕ) (array : ℕ → ℕ) (i n a b : ℕ)
    → n ≤ i + fuel
    → add32 (sum_loop fuel array i n a) (sum_loop fuel array (suc i) n b)
      ≡ check_loop fuel array i n (add32 a b)
unfolding sum_loop check_loop
two_sums zero array i n a b h = refl
two_sums (suc fuel) array i n a b h = elim (Bool-cases (ltb i n)) [
  | inl more ↦ rw (
    more,
    sum_loop_enough fuel array (suc i) n b (omega arith),
    swap (sum_loop fuel array (suc (suc i)) n (add32 a (array i)))
        (sum_loop fuel array (suc i) n b),
    two_sums fuel array (suc i) n b (add32 a (array i)) (omega arith),
    regroup a b (array i),
  )
  | inr done ↦ ground (arith)
]

-- What the children add, the even places and the odd ones, is what the loop of `main` adds up over the
-- whole array, with wrap-around in 32 bits.
pub sum_array-sum_check :
    (array : ℕ → ℕ) (n : ℕ) → add32 (sum_array array 0 n) (sum_array array 1 n) ≡ sum_check array n
sum_array-sum_check array n = two_sums n array 0 n 0 0 (omega arith)
