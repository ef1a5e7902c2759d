-- ===== src/ReadInts/Head.antt =====
-- 392/lab 4/head.c: the option -n, the operand, and what the program does with them.
use cs.Prelude.{
  ℕ, zero, suc, ◌≡◌, refl, ap, ◌∙◌, Bool, true, false, ◌||◌, not, Option, none, some, List, [], ◌∷◌,
  ◌++◌, map, Bytes, if◌then◌else◌, ◌==◌,
}
use cs.Prelude.Int.{ℤ, pos, negsuc, InInt32}
use cs.Util.{Parsed, is_integer}
use cs.Util.Show.{show}
use cs.Util.ParseInt.{parse_int-show}
use cs.ReadInts.{get_integer}
use cs.ReadInts.Numbers.{parse_int-get_integer}

abbrev pub default_line_count : ℤ
default_line_count = pos 10

-- What `getopt` answers for `:n:`: -n with its value, ':' where the value is missing, '?' otherwise, each
-- with `optopt`.
pub data Answer : Type 0 where
  n_option : Bytes → Answer
  colon : ℕ → Answer
  question : ℕ → Answer

-- The messages of the options; `silent` has none.
pub data Refusal : Type 0 where
  requires_argument : ℕ → Refusal
  unknown_option : ℕ → Refusal
  silent : Refusal

pub data Options : Type 0 where
  refused : Refusal → Options
  n_value : Option Bytes → Options

abbrev pub question_case : ℕ → Refusal
question_case c = if c == b'n' then requires_argument c else unknown_option c

-- The loop over the answers.
unfoldable pub read_options : Option Bytes → List Answer → Options
read_options n [] = n_value n
read_options n (n_option v ∷ answers) = read_options (some v) answers
read_options n (question c ∷ answers) = refused (question_case c)
read_options n (colon c ∷ answers) = refused silent

abbrev pub is_negative : ℤ → Bool
is_negative (pos n) = false
is_negative (negsuc n) = true

abbrev pub is_positive : ℤ → Bool
is_positive (pos zero) = false
is_positive (pos (suc n)) = true
is_positive (negsuc n) = false

-- `line_count`, and whether stdout has the warning that the default is used. (The warning of an
-- overflow on stderr is not kept here.)
pub record LineCount : Type 0 where
  pub line_count : ℤ
  pub warned : Bool

abbrev pub counted : Parsed → LineCount
counted p = record { line_count = p.value; warned = not p.success || is_negative p.value }

abbrev pub read_count : Option Bytes → LineCount
read_count none = record { line_count = default_line_count; warned = false }
read_count (some v) =
    if is_integer v
    then counted (get_integer v default_line_count)
    else record { line_count = default_line_count; warned = true }

-- Where the program comes to: `empty_loop` is the loop without a body while its test holds,
-- `frees_argument` the call of `free` on a part of `argv`. The last three come after the line
-- with the file's name and the line count.
pub data Outcome : Type 0 where
  usage : Outcome
  refuses : Refusal → Outcome
  too_many_files : Outcome
  no_file : Outcome
  cannot_open : Bytes → Outcome
  empty_loop : Bytes → LineCount → Outcome
  frees_argument : Bytes → LineCount → Outcome
  ends : Bytes → LineCount → Outcome

abbrev pub after_header : Option Bytes → Bytes → LineCount → Outcome
after_header none name n = ends name n
after_header (some v) name n =
    if is_positive n.line_count then empty_loop name n else frees_argument name n

abbrev pub with_operands : (Bytes → Bool) → Option Bytes → List Bytes → Outcome
with_operands opens v [] = no_file
with_operands opens v (name ∷ []) =
    if opens name then after_header v name (read_count v) else cannot_open name
with_operands opens v (name ∷ more ∷ names) = too_many_files

abbrev pub with_options : (Bytes → Bool) → Options → List Bytes → Outcome
with_options opens (refused r) names = refuses r
with_options opens (n_value v) names = with_operands opens v names

-- `opens` says which files can be opened. Without answers and operands there is no argument (a single
-- `--` is left aside).
unfoldable pub main : (Bytes → Bool) → List Answer → List Bytes → Outcome
main opens [] [] = usage
main opens answers names = with_options opens (read_options none answers) names

read_count-show :
    (z : ℤ)
    → InInt32 z
    → read_count (some (show z)) ≡ record { line_count = z; warned = is_negative z }
read_count-show z h =
    let e = parse_int-show z default_line_count h in
    let (d, f) = parse_int-get_integer (show z) default_line_count (ap (λ p. p.success) e) in
    rw d (ap counted (f ∙ e))

read_options-last :
    (n : Option Bytes) (vs : List Bytes) (v : Bytes)
    → read_options n (map n_option vs ++ n_option v ∷ []) ≡ n_value (some v)
unfolding read_options
read_options-last n [] v = refl
read_options-last n (w ∷ vs) v = read_options-last (some w) vs v

-- With any answer and one operand, the program goes on with the options that were read.
main-operand :
    (opens : Bytes → Bool) (vs : List Bytes) (v name : Bytes)
    → main opens (map n_option vs ++ n_option v ∷ []) (name ∷ [])
      ≡ with_operands opens (some v) (name ∷ [])
unfolding main
main-operand opens [] v name =
    ap (λ o. with_options opens o (name ∷ [])) (read_options-last none [] v)
main-operand opens (w ∷ vs) v name =
    ap (λ o. with_options opens o (name ∷ [])) (read_options-last none (w ∷ vs) v)

-- Where the last of one or more -n has an `int` in decimal and the file opens, a positive number takes
-- the program to the loop without a body while its test holds. Any other number is kept as the line
-- count, a negative one with the warning that the default is used, and then the option's argument is
-- freed.
pub main-last :
    (opens : Bytes → Bool) (vs : List Bytes) (z : ℤ) (name : Bytes)
    → InInt32 z
    → opens name ≡ true
    → main opens (map n_option vs ++ n_option (show z) ∷ []) (name ∷ []) ≡ (
        let n : LineCount = record { line_count = z; warned = is_negative z } in
        if is_positive z then empty_loop name n else frees_argument name n)
main-last opens vs z name h o =
    rw (main-operand opens vs (show z) name, with_operands, o)
      (ap (after_header (some (show z)) name) (read_count-show z h))
