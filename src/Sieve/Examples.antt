-- ===== src/Sieve/Examples.antt =====
-- mtsieve/mtsieve.c: runs of the sieve, and its theorems at concrete inputs.
use cs.Prelude.{
  ℕ, ◌+◌, ◌*◌, ◌≤◌, ◌≡◌, refl, true, false, ◌&&◌, [], ◌∷◌, arith, ◌↔◌, ◌≢◌, dec_lt, ◌-◌, bytes,
}
use native.Mathlib.Nat.{mul-le-mul_right, mul-le-mul}
use cs.Sieve.{
  targs, sieve_high, low_primes, sieve_low, ceil_sqrt_from, fill, cross_low, cross_high, Flags,
  high_primes, segments, sieve, two_threes, count_flags, count_threes,
}
use cs.Sieve.Count.{how_many, shows_threes}
use cs.Util.{scan_digits, all_digits}
use cs.Sieve.Total.{NoSquares}
use cs.Sieve.Whole.{InRange, options, main-how_many}
use cs.Sieve.Accepted.{main-InRange}
use cs.Sieve.Main.{
  Machine, fine, s_option, e_option, t_option, main, getopts, option_value, check_options,
  total_count,
}
use cs.Sieve.Low.{IsPrime}
use cs.Sieve.Overflow.{ints_fit, targs_fit, threads_fit, multiples_fit, last_multiple}

abbrev clear_heap : Flags
clear_heap y = false

segments_of_ten : segments 2 11 4 ≡ (2, 4) ∷ (5, 7) ∷ (8, 9) ∷ (10, 11) ∷ []
unfolding segments targs
segments_of_ten = refl

-- 33 = 3 * 11 is crossed out, and 31 and 37 are not.
flags_thirties :
    (high_primes 30 37 clear_heap 3 ≡ false)
    × (high_primes 30 37 clear_heap 1 ≡ true)
    × (high_primes 30 37 clear_heap 7 ≡ true)
unfolding high_primes sieve_high low_primes sieve_low ceil_sqrt_from fill cross_low cross_high
flags_thirties = (refl, refl, refl)

no_product_three : (i j : ℕ) → 2 ≤ i → i ≤ j → i * j ≡ 3 → ⊥
no_product_three i j h l e =
    let two : 2 * j ≤ i * j = mul-le-mul_right {m = 2} {n = i} j h in omega arith

three-IsPrime : IsPrime 3
three-IsPrime = (omega arith, λ (i, j, h, l, e). no_product_three i j h l e)

two-IsPrime : IsPrime 2
two-IsPrime = (omega arith, λ (i, j, h, l, e). no_product_two i j h l e)
  where
    no_product_two : (i j : ℕ) → 2 ≤ i → i ≤ j → i * j ≡ 2 → ⊥
    no_product_two i j h l e =
        let two : 2 * j ≤ i * j = mul-le-mul_right {m = 2} {n = i} j h in omega arith

every : (n : ℕ) → 2 ≤ n → n ≤ 3 → (true ≡ true) ↔ IsPrime n
every n h l = elim (dec_lt 2 n) [
  | yes far ↦ let e : n ≡ 3 = omega arith in rw e ((λ t. three-IsPrime), λ p. refl)
  | no near ↦ let e : n ≡ 2 = omega arith in rw e ((λ t. two-IsPrime), λ p. refl)
]

no_square_three : (q : ℕ) → IsPrime q → 3 ≢ q * q
no_square_three q (h, p) e = let four : 2 * 2 ≤ q * q = mul-le-mul h h in omega arith

-- 331 and 337 are primes with two digits 3.
sieve_thirties : sieve 330 338 clear_heap ≡ 2
unfolding sieve count_flags two_threes count_threes high_primes sieve_high low_primes sieve_low
    ceil_sqrt_from fill cross_low cross_high
sieve_thirties = refl

abbrev machine : Machine
machine = record { nprocs = 4; mutex_ok = true; threads_ok = true; heap = λ k y. false }

range-InRange : InRange 2 3 1 4
range-InRange = record {
  from_two = omega arith;
  ordered = omega arith;
  fits = omega arith;
  some_thread = omega arith;
  threads = omega arith;
  threads_fit = omega arith;
}

range-NoSquares : NoSquares (segments 2 3 1)
unfolding segments targs
range-NoSquares = (no_square_three, tt)

main-how_many_example :
    main machine (options 2 3 1) false ≡ fine (how_many (λ n. true && shows_threes n) 2 (3 - 2 + 1))
main-how_many_example =
    main-how_many machine (λ n. true) 2 3 1 range-InRange refl refl (omega arith) (λ k y l. refl)
      every range-NoSquares

typed-range :
    main machine (t_option (bytes "2") ∷ s_option (bytes "4") ∷ e_option (bytes "6") ∷ []) false
    ≡ fine 0
unfolding main getopts option_value check_options scan_digits all_digits total_count segments targs
    sieve count_flags two_threes count_threes high_primes sieve_high low_primes sieve_low
    ceil_sqrt_from fill cross_low cross_high ints_fit targs_fit threads_fit multiples_fit
    last_multiple
typed-range = refl

main-InRange_example :
    (a : ℕ) × (b : ℕ) × (t : ℕ) × InRange a b t 4
    × (0 ≡ total_count machine.heap 0 (segments a b t))
main-InRange_example =
    main-InRange machine (t_option (bytes "2") ∷ s_option (bytes "4") ∷ e_option (bytes "6") ∷ [])
      false 0 typed-range
