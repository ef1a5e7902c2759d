-- ===== src/SumArray/Bounds.antt =====
-- mpsumarray/mpsumarray.c: how large the sum gets.
use cs.Prelude.{ℕ, zero, suc, ◌+◌, ◌*◌, ◌^◌, ◌≤◌, ◌<◌, ◌≡◌, arith, ap, lt→ltb}
use cs.Prelude.Sums.{total}
use cs.Semaphore.Adders.{add32}
use cs.SumArray.{random_int_in_range, random_array, check_loop, sum_check}

abbrev pub plain : ℕ → ℕ
plain a = a

digit_le : (r : ℕ) → random_int_in_range 0 9 r ≤ 9
digit_le r = omega arith

total_le : (rand : ℕ → ℕ) (n : ℕ) → total plain n (random_array rand) ≤ n * 9
unfolding total
total_le rand zero = omega arith
total_le rand (suc n) = omega (arith, total_le rand n, digit_le (rand n))

add32-total :
    (rand : ℕ → ℕ) (i : ℕ)
    → suc i * 9 < 2 ^ 31
    → add32 (total plain i (random_array rand)) (random_array rand i)
      ≡ total plain (suc i) (random_array rand)
unfolding total
add32-total rand i h = omega (arith, total_le rand i, digit_le (rand i))

-- From the place `i` on, with the sum of the places before it.
check_loop-total :
    (fuel : ℕ) (rand : ℕ → ℕ) (i n : ℕ)
    → n ≡ i + fuel
    → n * 9 < 2 ^ 31
    → check_loop fuel (random_array rand) i n (total plain i (random_array rand))
      ≡ total plain n (random_array rand)
unfolding check_loop
check_loop-total zero rand i n e h = ap (λ k. total plain k (random_array rand)) (omega (arith, e))
check_loop-total (suc fuel) rand i n e h =
    rw (lt→ltb i n (omega (arith, e)), add32-total rand i (omega (arith, e, h)))
      (check_loop-total fuel rand (suc i) n (omega (arith, e)) h)

-- Up to 238609294 values, whatever `rand` answers, the sum of the random array is computed without
-- overflow: it is the sum of the numbers, and an `int` holds it.
pub sum_check-total :
    (rand : ℕ → ℕ) (n : ℕ)
    → n ≤ 238609294
    → (sum_check (random_array rand) n ≡ total plain n (random_array rand))
      × (sum_check (random_array rand) n < 2 ^ 31)
unfolding total
sum_check-total rand n h = (exact, omega (arith, exact, total_le rand n))
  where
    exact : sum_check (random_array rand) n ≡ total plain n (random_array rand)
    exact = check_loop-total n rand 0 n (omega arith) (omega (arith, h))
