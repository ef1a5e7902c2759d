-- ===== src/SortFile.antt =====
-- 392/Quciksort/sort.c: the program that sorts the lines of a file with the quicksort of Quicksort.
pub mod Lines
pub mod Sorted
mod Examples
use cs.Prelude.{
  ℕ, zero, suc, ◌+◌, ◌≡◌, Bool, true, false, ◌&&◌, ◌||◌, Option, none, some, List, [], ◌∷◌, ◌++◌,
  map, Bytes, ltb, leb, ◌==◌, if◌then◌else◌, length, take, refl,
}
use cs.Prelude.Int.{ℤ, pos}
use cs.Util.{atoi}
use cs.Util.Input.{cstr}
use cs.Util.Show.{show}
use cs.Quicksort.{quicksort}
use cs.Quicksort.Array.{Array}
use cs.Quicksort.Compare.{strcmp, compare_int}

abbrev pub max_strlen : ℕ
max_strlen = 64

abbrev pub max_elements : ℕ
max_elements = 1024

-- `fgets` with room for that many bytes before the '\0': what it stores, and what is left of the file.
unfoldable pub fgets : ℕ → Bytes → Bytes × Bytes
fgets zero s = ([], s)
fgets (suc room) [] = ([], [])
fgets (suc room) (c ∷ s) =
    let (buf, rest) = fgets room s in if c == b'\n' then (c ∷ [], s) else (c ∷ buf, rest)

-- What stands in `buf` before the newline that strchr finds, which looks no further than a '\0'.
unfoldable pub before_newline : Bytes → Option Bytes
before_newline [] = none
before_newline (c ∷ buf) =
    let rest = before_newline buf in
    if c == 0
    then none
    else if c == b'\n'
    then some []
    else elim rest as (λ x. Option Bytes) [ none ↦ none | some line ↦ some (c ∷ line) ]

-- The C string in `buf` after its end has been overwritten, where a line has `strlen` bytes at most.
abbrev pub end_string : ℕ → Bytes → Bytes
end_string strlen buf = elim (before_newline buf) as (λ x. Bytes) [
  | none ↦ cstr (take strlen buf)
  | some line ↦ line
]

-- The loop over the file. It runs on the number of bytes left. (392/Creadins/readints.c has it with
-- another length.)
unfoldable pub read_lines : ℕ → ℕ → Bytes → List Bytes
read_lines strlen zero s = []
read_lines strlen (suc fuel) [] = []
read_lines strlen (suc fuel) (c ∷ s) =
    let (buf, rest) = fgets (strlen + 1) (c ∷ s) in
    end_string strlen buf ∷ read_lines strlen fuel rest

-- An array as a function of the index; a string stands for the pointer to it.
abbrev pub cells : (A : Type 0) → Array (ℕ → A) A
cells A = record {
  get = λ m k. m k;
  swap = λ m i j k. if k == i then m j else if k == j then m i else m k;
  get-swap = λ m i j k. refl;
}

abbrev pub array_of : {A : Type 0} → A → List A → ℕ → A
array_of d [] k = d
array_of d (a ∷ rest) zero = a
array_of d (a ∷ rest) (suc k) = array_of d rest k

-- The first `n` elements, as `stringhelper` and `inthelper` print them.
abbrev pub listing : {A : Type 0} → (ℕ → A) → ℕ → List A
listing m zero = []
listing m (suc n) = listing m n ++ m n ∷ []

-- The usage, a message, a write behind an allocation, or the lines printed. After the lines of the strings
-- `free` is given the element behind the last one: `frees_unset` where nothing was ever stored in it,
-- `frees_beyond` where it lies behind the array. The branch of doubles is not modelled further.
pub data Outcome : Type 0 where
  usage : Outcome
  unknown_option : Outcome
  cannot_open : Bytes → Outcome
  out_of_bounds : Outcome
  prints : List Bytes → Outcome
  frees_unset : List Bytes → Outcome
  frees_beyond : List Bytes → Outcome
  doubles : List Bytes → Outcome

-- Each string is copied into `MAX_STRLEN` bytes, with its '\0'.
abbrev pub all_fit : List Bytes → Bool
all_fit [] = true
all_fit (line ∷ lines) = ltb (length line) max_strlen && all_fit lines

abbrev pub print_sorted : {A : Type 0} → (A → Bytes) → (A → A → ℤ) → A → List A → Outcome
print_sorted {A} text comp d elements =
    let len = length elements in
    if leb len max_elements
    then elim (quicksort (cells A) comp len (array_of d elements)) as (λ x. Outcome) [
      | none ↦ out_of_bounds
      | some m ↦ prints (map text (listing m len))
    ]
    else out_of_bounds

abbrev pub sort_texts : List Bytes → Outcome
sort_texts lines =
    if all_fit lines then print_sorted (λ line. line) strcmp [] lines else out_of_bounds

-- The loop that frees `temporary[0]` up to `temporary[len]`: the strings, and one element more.
abbrev pub free_strings : ℕ → Outcome → Outcome
free_strings len (prints lines) =
    if ltb len max_elements then frees_unset lines else frees_beyond lines
free_strings len outcome = outcome

abbrev pub strings_branch : List Bytes → Outcome
strings_branch lines = free_strings (length lines) (sort_texts lines)

abbrev pub sort_strings : Bytes → Outcome
sort_strings source = strings_branch (read_lines max_strlen (length source) source)

abbrev pub sort_numbers : List Bytes → Outcome
sort_numbers lines = print_sorted show compare_int (pos 0) (map atoi lines)

abbrev pub sort_ints : Bytes → Outcome
sort_ints source = sort_numbers (read_lines max_strlen (length source) source)

-- What `getopt` answers.
pub data Opt : Type 0 where
  i_option : Opt
  d_option : Opt
  bad_option : Opt
  other_answer : Opt

-- The variable `x` behind the loop of `getopt`, or the error.
unfoldable pub getopts : ℕ → List Opt → Option ℕ
getopts x [] = some x
getopts x (i_option ∷ opts) = getopts 1 opts
getopts x (d_option ∷ opts) = getopts 2 opts
getopts x (bad_option ∷ opts) = none
getopts x (other_answer ∷ opts) = getopts x opts

abbrev pub read_file : (Bytes → Option Bytes) → Bytes → (Bytes → Outcome) → Outcome
read_file fopen name f = elim (fopen name) as (λ x. Outcome) [
  | none ↦ cannot_open name
  | some source ↦ f source
]

-- `main` behind the loop of `getopt`, for the arguments behind the program's name.
abbrev pub by_arguments : (Bytes → Option Bytes) → ℕ → List Bytes → Outcome
by_arguments fopen x (name ∷ []) = read_file fopen name sort_strings
by_arguments fopen x (flag ∷ name ∷ []) = read_file fopen name (λ source.
    if x == 1 then sort_ints source else doubles (read_lines max_strlen (length source) source))
by_arguments fopen x args = usage

-- `fopen` answers what the file holds, and `opts` is what `getopt` makes of the arguments.
unfoldable pub main : (Bytes → Option Bytes) → List Bytes → List Opt → Outcome
main fopen args opts =
    if (length args == 1) || (length args == 2)
    then elim (getopts 0 opts) as (λ x. Outcome) [
      | none ↦ unknown_option
      | some x ↦ by_arguments fopen x args
    ]
    else usage
