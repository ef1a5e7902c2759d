-- ===== src/Sieve/Whole.antt =====
-- mtsieve/mtsieve.c: what `main` does with a range, and which ranges it takes.
use cs.Prelude.{
  ◌<◌, false, ℕ, ◌+◌, ◌-◌, ◌*◌, ◌≤◌, ◌≡◌, ◌↔◌, refl, ◌∙◌, ap, Bool, true, false, ◌&&◌, some, List,
  [], ◌∷◌, leb, arith,
}
use cs.Util.Show.{show_ℕ, all_digits-show_ℕ, scan_digits-show_ℕ}
use cs.Sieve.{segments}
use cs.Sieve.Overflow.{ints_fit}
use cs.Sieve.Fits.{ints_fit-true}
use cs.Sieve.Low.{IsPrime}
use cs.Sieve.Count.{how_many, shows_threes}
use cs.Sieve.Total.{NoSquares, total_count-how_many}
use cs.Sieve.Main.{
  Opt, s_option, e_option, t_option, fine, int_max, option_value, no_options, getopts,
  check_options, total_count, Machine, main,
}

option_value-show : (n : ℕ) → n ≤ int_max → option_value (show_ℕ n) ≡ fine n
unfolding option_value
option_value-show n h =
    let small : leb n int_max ≡ true = ground arith in
    rw (all_digits-show_ℕ n, scan_digits-show_ℕ n, small) refl

-- -s, -e and -t with the decimal forms of three numbers.
abbrev pub options : ℕ → ℕ → ℕ → List Opt
options a b t = s_option (show_ℕ a) ∷ e_option (show_ℕ b) ∷ t_option (show_ℕ t) ∷ []

pub record InRange (a b t nprocs : ℕ) : Type 0 where
  pub from_two : 2 ≤ a
  pub ordered : a ≤ b
  pub fits : b ≤ int_max
  pub some_thread : 1 ≤ t
  pub threads : t ≤ 2 * nprocs
  pub threads_fit : t ≤ int_max

getopts-options :
    (a b t : ℕ)
    → a ≤ int_max
    → b ≤ int_max
    → t ≤ int_max
    → getopts (options a b t) no_options ≡ fine (record { s = some a; e = some b; t = some t })
unfolding getopts
getopts-options a b t h k l =
    rw (option_value-show a h, option_value-show b k, option_value-show t l) refl

check_options-InRange :
    (a b t nprocs : ℕ)
    → InRange a b t nprocs
    → check_options nprocs false (record { s = some a; e = some b; t = some t }) ≡ fine (a, b, t)
unfolding check_options
check_options-InRange a b t nprocs r =
    let s : leb 2 a ≡ true = ground (arith, r.from_two) in
    let e : leb 2 b ≡ true = ground (arith, r.from_two, r.ordered) in
    let o : leb a b ≡ true = ground (arith, r.ordered) in
    let u : leb 1 t ≡ true = ground (arith, r.some_thread) in
    let v : leb t (2 * nprocs) ≡ true = ground (arith, r.threads) in rw (s, e, o, u, v) refl

main-options :
    (m : Machine) (a b t : ℕ)
    → InRange a b t m.nprocs
    → m.mutex_ok ≡ true
    → m.threads_ok ≡ true
    → ints_fit int_max m.heap a b t ≡ true
    → main m (options a b t) false ≡ fine (total_count m.heap 0 (segments a b t))
unfolding main
main-options m a b t r lock threads ints =
    rw
      (
        getopts-options a b t (omega (arith, r.ordered, r.fits)) r.fits r.threads_fit,
        check_options-InRange a b t m.nprocs r,
        lock,
        threads,
        ints,
      )
      refl

-- The program run with -s, -e and -t for a range with 2 <= a <= b, where b is at most half of INT_MAX, and
-- one to twice as many threads as processors: where the mutex and the threads can be made, each `malloc`
-- has left 0 in the flags 0 and 1 of `low_primes`, which the code never sets (the others may hold
-- anything), and no segment ends at the square of a prime, no addition overflows and the count on the
-- last line is the number of primes from `a` to `b` whose decimal form has two or more digits 3.
pub main-how_many :
    (m : Machine) (prime : ℕ → Bool) (a b t : ℕ)
    → InRange a b t m.nprocs
    → m.mutex_ok ≡ true
    → m.threads_ok ≡ true
    → 2 * b ≤ int_max
    → ((k y : ℕ) → y < 2 → m.heap k y ≡ false)
    → ((n : ℕ) → a ≤ n → n ≤ b → (prime n ≡ true) ↔ IsPrime n)
    → NoSquares (segments a b t)
    → main m (options a b t) false ≡ fine (how_many (λ n. prime n && shows_threes n) a (b - a + 1))
main-how_many m prime a b t r lock threads half clear test square =
    main-options m a b t r lock threads
      (ints_fit-true int_max m.heap a b t clear r.from_two r.ordered r.some_thread half)
    ∙ ap fine (
        total_count-how_many m.heap clear prime a b t r.from_two r.ordered r.some_thread test
          square)
