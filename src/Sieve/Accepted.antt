-- ===== src/Sieve/Accepted.antt =====
-- mtsieve/mtsieve.c: `main` takes no range out of bounds.
use cs.Prelude.{
  ℕ, ◌*◌, ◌≤◌, ◌≡◌, refl, subst, Bool, true, false, not, some, List, [], ◌∷◌, Bytes, leb, arith,
  leb→le,
}
use cs.Util.{all_digits, scan_digits}
use cs.Sieve.{segments}
use cs.Sieve.Overflow.{ints_fit}
use cs.Sieve.Whole.{InRange}
use cs.Sieve.Main.{
  Opt, s_option, e_option, t_option, bad_option, Problem, invalid_input, integer_overflow, Checked,
  fine, problem, ◌>>=◌, require, int_max, option_value, Options, no_options, getopts, run_threads,
  no_arguments, after_usage, usage, mutex_failed, thread_failed, int_overflow, is_set, value,
  check_options, total_count, Machine, main,
}

-- Whether a piece of `main` ends with a value that satisfies `P`, or with a problem.
abbrev pub OrProblem : {A : Type 0} → (A → Type 0) → Checked A → Type 0
OrProblem P (fine a) = P a
OrProblem P (problem p) = Unit

OrProblem-bind :
    {A B : Type 0} (P : A → Type 0) (Q : B → Type 0) (r : Checked A) (k : A → Checked B)
    → OrProblem P r
    → ((a : A) → P a → OrProblem Q (k a))
    → OrProblem Q (r >>= k)
OrProblem-bind P Q (fine a) k h f = f a h
OrProblem-bind P Q (problem p) k h f = tt

require-true : (ok : Bool) (p : Problem) → OrProblem (λ u. ok ≡ true) (require ok p)
require-true true p = refl
require-true false p = tt

option_value-le : (arg : Bytes) → OrProblem (λ n. n ≤ int_max) (option_value arg)
unfolding option_value
option_value-le arg =
    OrProblem-bind (λ u. all_digits arg ≡ true) (λ n. n ≤ int_max)
      (require (all_digits arg) invalid_input) _ (require-true (all_digits arg) invalid_input)
      (λ u e.
        OrProblem-bind (λ u. leb (scan_digits 0 arg) int_max ≡ true) (λ n. n ≤ int_max)
          (require (leb (scan_digits 0 arg) int_max) integer_overflow) _
          (require-true (leb (scan_digits 0 arg) int_max) integer_overflow)
          (λ u f. leb→le (scan_digits 0 arg) int_max f))

abbrev Fits : Options → Type 0
Fits o = (value o.s ≤ int_max) × (value o.e ≤ int_max) × (value o.t ≤ int_max)

getopts-Fits : (opts : List Opt) (o : Options) → Fits o → OrProblem Fits (getopts opts o)
unfolding getopts
getopts-Fits [] o h = h
getopts-Fits (s_option arg ∷ rest) o h =
    OrProblem-bind (λ n. n ≤ int_max) Fits (option_value arg) _ (option_value-le arg)
      (λ v l. getopts-Fits rest (record o { s = some v }) (l, h.1, h.2))
getopts-Fits (e_option arg ∷ rest) o h =
    OrProblem-bind (λ n. n ≤ int_max) Fits (option_value arg) _ (option_value-le arg)
      (λ v l. getopts-Fits rest (record o { e = some v }) (h.0, l, h.2))
getopts-Fits (t_option arg ∷ rest) o h =
    OrProblem-bind (λ n. n ≤ int_max) Fits (option_value arg) _ (option_value-le arg)
      (λ v l. getopts-Fits rest (record o { t = some v }) (h.0, h.1, l))
getopts-Fits (bad_option c ∷ rest) o h = tt

-- A check that is passed tells that its condition is met.
checked :
    {A : Type 0} (P : A → Type 0) (ok : Bool) (p : Problem) (k : Unit → Checked A)
    → (ok ≡ true → OrProblem P (k tt))
    → OrProblem P (require ok p >>= k)
checked P true p k f = f refl
checked P false p k f = tt

check_options-InRange :
    (nprocs : ℕ) (extra : Bool) (o : Options)
    → Fits o
    → OrProblem (λ r. InRange r.0 r.1 r.2 nprocs) (check_options nprocs extra o)
unfolding check_options
check_options-InRange nprocs extra o h =
    let P : ℕ × ℕ × ℕ → Type 0 = λ r. InRange r.0 r.1 r.2 nprocs in
    checked P (not extra) _ _ λ a. checked P (is_set o.s) _ _ λ b.
      checked P (leb 2 (value o.s)) _ _ λ two. checked P (is_set o.e) _ _ λ c.
        checked P (leb 2 (value o.e)) _ _ λ d.
          checked P (leb (value o.s) (value o.e)) _ _ λ ordered. checked P (is_set o.t) _ _ λ e.
            checked P (leb 1 (value o.t)) _ _ λ one.
              checked P (leb (value o.t) (2 * nprocs)) _ _ λ many. record {
                from_two = leb→le 2 (value o.s) two;
                ordered = leb→le (value o.s) (value o.e) ordered;
                fits = h.1;
                some_thread = leb→le 1 (value o.t) one;
                threads = leb→le (value o.t) (2 * nprocs) many;
                threads_fit = h.2;
              }

no_options-Fits : Fits no_options
no_options-Fits = omega arith

abbrev Accepted : Machine → ℕ → Type 0
Accepted m c =
    (a : ℕ) × (b : ℕ) × (t : ℕ) × InRange a b t m.nprocs
    × (c ≡ total_count m.heap 0 (segments a b t))

run_threads-Accepted :
    (m : Machine) (r : ℕ × ℕ × ℕ)
    → InRange r.0 r.1 r.2 m.nprocs
    → OrProblem (Accepted m) (run_threads m r)
run_threads-Accepted m (a, b, t) h = checked (Accepted m) m.mutex_ok mutex_failed _ (λ lock.
    checked (Accepted m) m.threads_ok thread_failed _ (λ threads.
      checked (Accepted m) (ints_fit int_max m.heap a b t) int_overflow
        (λ u. fine (total_count m.heap 0 (segments a b t))) (λ fits. (a, b, t, h, refl))))

main-Accepted :
    (m : Machine) (opts : List Opt) (extra : Bool) → OrProblem (Accepted m) (main m opts extra)
unfolding main
main-Accepted m opts extra =
    checked (Accepted m) (not (no_arguments opts extra)) usage (after_usage m opts extra)
      (λ some_argument.
        OrProblem-bind Fits (Accepted m) (getopts opts no_options)
          (λ o. check_options m.nprocs extra o >>= run_threads m)
          (getopts-Fits opts no_options no_options-Fits)
          (λ o h.
            OrProblem-bind (λ r. InRange r.0 r.1 r.2 m.nprocs) (Accepted m)
              (check_options m.nprocs extra o) (run_threads m)
              (check_options-InRange m.nprocs extra o h) (run_threads-Accepted m)))

-- Whatever options are given, in any order and number: if the program prints a count, then for numbers
-- a, b and t with 2 <= a <= b <= INT_MAX and 1 <= t, at most twice the number of processors, and it is
-- the total of their segments.
pub main-InRange :
    (m : Machine) (opts : List Opt) (extra : Bool) (c : ℕ)
    → main m opts extra ≡ fine c
    → (a : ℕ) × (b : ℕ) × (t : ℕ) × InRange a b t m.nprocs
      × (c ≡ total_count m.heap 0 (segments a b t))
main-InRange m opts extra c e = subst (OrProblem (Accepted m)) e (main-Accepted m opts extra)
