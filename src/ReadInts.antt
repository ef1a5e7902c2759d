-- ===== src/ReadInts.antt =====
-- 392/Creadins/readints.c and 392/lab 4/head.c: integers read from the lines of a file, and from an option.
pub mod Numbers
pub mod Head
mod Examples
use cs.Prelude.{
  ℕ, ◌≡◌, Bool, true, false, ◌&&◌, Option, none, some, List, [], ◌∷◌, ◌++◌, Bytes, if◌then◌else◌,
  length,
}
use cs.Prelude.Int.{ℤ, pos, eq_ℤ, wrap32}
use cs.Util.{Parsed, overflow, is_integer, sscanf_lld}
use cs.SortFile.{read_lines}

abbrev pub bufsize : ℕ
bufsize = 128

-- What `get_integer` makes of what sscanf finds, where `*value` is `old`.
abbrev pub convert : ℤ → Option ℤ → Parsed
convert old none = record { success = false; value = old; complaint = none }
convert old (some z) =
    if eq_ℤ z (wrap32 z)
    then record { success = true; value = wrap32 z; complaint = none }
    else record { success = false; value = wrap32 z; complaint = some overflow }

-- `get_integer`: what it returns, what `*value` holds afterwards, and whether it warns.
abbrev pub get_integer : Bytes → ℤ → Parsed
get_integer input old = convert old (sscanf_lld input)

-- A number on stdout, or the warning of an overflow.
pub data Out : Type 0 where
  number : ℤ → Out
  warning : Bytes → Out

abbrev pub report : Bytes → Parsed → List Out
report buf p =
    if p.success
    then number p.value ∷ []
    else elim p.complaint as (λ x. List Out) [ none ↦ [] | some c ↦ warning buf ∷ [] ]

-- The body of the loop for one line; `val` holds what was on the stack before.
abbrev pub for_line : ℤ → Bytes → List Out
for_line val buf = if is_integer buf then report buf (get_integer buf val) else []

unfoldable pub for_lines : ℤ → List Bytes → List Out
for_lines val [] = []
for_lines val (buf ∷ rest) = for_line val buf ++ for_lines val rest

pub data Outcome : Type 0 where
  usage : Outcome
  cannot_open : Bytes → Outcome
  prints : List Out → Outcome

-- `fopen` answers what the file holds.
unfoldable pub main : (Bytes → Option Bytes) → ℤ → List Bytes → Outcome
main fopen val (name ∷ []) = elim (fopen name) as (λ x. Outcome) [
  | none ↦ cannot_open name
  | some source ↦ prints (for_lines val (read_lines bufsize (length source) source))
]
main fopen val args = usage
