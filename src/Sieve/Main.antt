-- ===== src/Sieve/Main.antt =====
-- mtsieve/mtsieve.c: `main`, from the options to the total.
use cs.Prelude.{
  ℕ, suc, ◌+◌, ◌-◌, ◌*◌, ◌^◌, Bool, true, false, not, ◌||◌, Option, none, some, List, [], ◌∷◌,
  Bytes, leb, ◌==◌, if◌then◌else◌,
}
use cs.Util.{all_digits, scan_digits}
use cs.Sieve.{Flags, sieve, segments}
use cs.Sieve.Overflow.{ints_fit}

-- What `getopt` reports, one option after the other: -s, -e or -t with its argument, or '?' with what
-- is then in `optopt`.
pub data Opt : Type 0 where
  s_option : Bytes → Opt
  e_option : Bytes → Opt
  t_option : Bytes → Opt
  bad_option : ℕ → Opt

-- The errors of `main`, in the order of the source; `int_overflow` is an addition whose result is no `int`,
-- which leaves the behaviour undefined.
pub data Problem : Type 0 where
  usage : Problem
  invalid_input : Problem
  integer_overflow : Problem
  needs_argument : Problem
  unknown_option : Problem
  non_option : Problem
  start_missing : Problem
  start_small : Problem
  end_missing : Problem
  end_small : Problem
  end_before_start : Problem
  threads_missing : Problem
  threads_small : Problem
  threads_many : Problem
  mutex_failed : Problem
  thread_failed : Problem
  int_overflow : Problem

pub data Checked (A : Type 0) : Type 0 where
  fine : A → Checked A
  problem : Problem → Checked A

infixl 5 ◌>>=◌
abbrev pub ◌>>=◌ : {A B : Type 0} → Checked A → (A → Checked B) → Checked B
fine a >>= k = k a
problem p >>= k = problem p

-- `if (failed) { ...; return EXIT_FAILURE; }`
abbrev pub require : Bool → Problem → Checked Unit
require ok p = if ok then fine tt else problem p

abbrev pub int_max : ℕ
int_max = 2 ^ 31 - 1

-- The digits' value in `long`, which stops at LONG_MAX, is compared with INT_MAX.
unfoldable pub option_value : Bytes → Checked ℕ
option_value arg = do
  is_number ← require (all_digits arg) invalid_input
  fits ← require (leb (scan_digits 0 arg) int_max) integer_overflow
  fine (scan_digits 0 arg)

-- A flag and its value: `none` is a flag that is 0, with the value 0.
pub record Options : Type 0 where
  pub s : Option ℕ
  pub e : Option ℕ
  pub t : Option ℕ

abbrev pub no_options : Options
no_options = record { s = none; e = none; t = none }

unfoldable pub getopts : List Opt → Options → Checked Options
getopts [] o = fine o
getopts (s_option arg ∷ rest) o = do v ← option_value arg; getopts rest (record o { s = some v })
getopts (e_option arg ∷ rest) o = do v ← option_value arg; getopts rest (record o { e = some v })
getopts (t_option arg ∷ rest) o = do v ← option_value arg; getopts rest (record o { t = some v })
getopts (bad_option c ∷ rest) o =
    problem (if c == b'e' || c == b's' || c == b't' then needs_argument else unknown_option)

abbrev pub is_set : Option ℕ → Bool
is_set none = false
is_set (some v) = true

abbrev pub value : Option ℕ → ℕ
value none = 0
value (some v) = v

-- The checks after the options: `extra` is whether `argv[optind]` is there.
unfoldable pub check_options : ℕ → Bool → Options → Checked (ℕ × ℕ × ℕ)
check_options nprocs extra o = do
  u ← require (not extra) non_option
  u ← require (is_set o.s) start_missing
  u ← require (leb 2 (value o.s)) start_small
  u ← require (is_set o.e) end_missing
  u ← require (leb 2 (value o.e)) end_small
  u ← require (leb (value o.s) (value o.e)) end_before_start
  u ← require (is_set o.t) threads_missing
  u ← require (leb 1 (value o.t)) threads_small
  u ← require (leb (value o.t) (2 * nprocs)) threads_many
  fine (value o.s, value o.e, value o.t)

-- `total_count` after every thread has added its count under the lock: `heap k` is what `malloc`
-- leaves in the array of thread `k`.
unfoldable pub total_count : (ℕ → Flags) → ℕ → List (ℕ × ℕ) → ℕ
total_count heap k [] = 0
total_count heap k ((start, end) ∷ rest) = sieve start end (heap k) + total_count heap (suc k) rest

-- What the system answers: the number of processors, whether the mutex can be made, and whether each
-- thread can be started.
pub record Machine : Type 0 where
  pub nprocs : ℕ
  pub mutex_ok : Bool
  pub threads_ok : Bool
  pub heap : ℕ → Flags

-- From the creation of the mutex on. The result is the count of the last line printed.
abbrev pub run_threads : Machine → ℕ × ℕ × ℕ → Checked ℕ
run_threads m (a, b, t) = require m.mutex_ok mutex_failed >>= λ u.
    require m.threads_ok thread_failed >>= λ u.
    require (ints_fit int_max m.heap a b t) int_overflow >>= λ u.
    fine (total_count m.heap 0 (segments a b t))

-- `argc == 1`
abbrev pub no_arguments : List Opt → Bool → Bool
no_arguments [] extra = not extra
no_arguments (o ∷ opts) extra = false

abbrev pub after_usage : Machine → List Opt → Bool → Unit {0} → Checked ℕ
after_usage m opts extra u =
    getopts opts no_options >>= λ o. check_options m.nprocs extra o >>= run_threads m

unfoldable pub main : Machine → List Opt → Bool → Checked ℕ
main m opts extra = require (not (no_arguments opts extra)) usage >>= after_usage m opts extra
