-- ===== src/Shell.antt =====
-- 392/minishell/version2/minishell.c: the shell's splitting of a line, `cd`, and its loop.
pub mod Words
pub mod Parse
pub mod Rounds
mod Examples
use cs.Prelude.{
  ℕ, zero, suc, ◌+◌, ◌-◌, ◌≡◌, Bool, true, false, ◌&&◌, ◌||◌, not, Option, none, some, List, [],
  ◌∷◌, ◌++◌, Bytes, bytes, ◌==◌, ltb, if◌then◌else◌, bytes_eq, length,
}

-- The memory of `buf`.
abbrev pub Buffer : Type 0
Buffer = ℕ → ℕ

abbrev pub put_byte : Buffer → ℕ → ℕ → Buffer
put_byte b p c k = if k == p then c else b k

abbrev pub is_white : ℕ → Bool
is_white c = (c == b' ') || (c == b'\t') || (c == b'\n')

-- The `while` of `parse` that overwrites white space, from `line` on. `fuel` is at least the number of bytes
-- before the terminating '\0', here and in the next two loops.
unfoldable pub skip_white : ℕ → Buffer → ℕ → Buffer × ℕ
skip_white zero b line = (b, line)
skip_white (suc fuel) b line =
    let rest = skip_white fuel (put_byte b line 0) (suc line) in
    if is_white (b line) then rest else (b, line)

unfoldable pub skip_word : ℕ → Buffer → ℕ → ℕ
skip_word zero b line = line
skip_word (suc fuel) b line =
    let rest = skip_word fuel b (suc line) in
    if (b line == 0) || is_white (b line) then line else rest

-- The outer `while` of `parse`: the buffer afterwards, and the pointers that it stores in `argv`. It runs on
-- one more than the number of bytes.
unfoldable pub parse_loop : ℕ → Buffer → ℕ → Buffer × List ℕ
parse_loop zero b line = (b, [])
parse_loop (suc fuel) b line =
    let (b1, word) = skip_white fuel b line in
    let (b2, argv) = parse_loop fuel b1 (skip_word fuel b1 word) in
    if b line == 0 then (b, []) else (b2, word ∷ argv)

-- An entry of `args`: never written, NULL, or a pointer into the buffer.
pub data Slot : Type 0 where
  unset : Slot
  null : Slot
  at : ℕ → Slot

abbrev pub Args : Type 0
Args = ℕ → Slot

-- `args` has `MAX_ARGUEMENTS + 1` entries.
abbrev pub args_size : ℕ
args_size = 65

abbrev pub put_slot : Args → ℕ → Slot → Args
put_slot args i v k = if k == i then v else args k

-- The pointers in `args` from entry `i` on, with NULL behind them; `none` is a write behind the array.
unfoldable pub store_args : Args → List ℕ → ℕ → Option Args
store_args args [] i = if ltb i args_size then some (put_slot args i null) else none
store_args args (p ∷ argv) i =
    let rest = store_args (put_slot args i (at p)) argv (suc i) in
    if ltb i args_size then rest else none

-- The C string at `p`, in a buffer of `fuel` bytes.
unfoldable pub string_at : ℕ → Buffer → ℕ → Bytes
string_at zero b p = []
string_at (suc fuel) b p =
    let rest = string_at fuel b (suc p) in if b p == 0 then [] else b p ∷ rest

abbrev pub bufsize : ℕ
bufsize = 4096

-- What `execvp` reads of `args`, from entry `i` on.
unfoldable pub read_args : ℕ → Buffer → Args → ℕ → List Bytes
read_args zero b args i = []
read_args (suc fuel) b args i =
    let rest = read_args fuel b args (suc i) in
    elim (args i) as (λ x. List Bytes) [
      | unset ↦ []
      | null ↦ []
      | at p ↦ string_at bufsize b p ∷ rest
    ]

-- What `getpwuid` and `chdir` answer.
pub record Directories : Type 0 where
  pub home : Option Bytes
  pub chdir : Bytes → Bool

-- What a round of the main loop does: it goes on, with or without a message, changes to a directory, runs
-- a command, leaves the loop, follows a pointer that is NULL or was never written, or writes behind
-- `args`.
pub data Deed : Type 0 where
  nothing : Deed
  complains : Deed
  changes : Bytes → Deed
  executes : List Bytes → Deed
  exits : Deed
  bad_pointer : Deed
  changes_and_strays : Bytes → Deed
  overruns : Deed

-- `cd`: the directory that the shell is in afterwards, or the failure.
abbrev pub cd : Directories → Bytes → Option Bytes
cd d path =
    if bytes_eq path (bytes "~")
    then elim d.home as (λ x. Option Bytes) [
      | none ↦ none
      | some dir ↦ if d.chdir dir then some dir else none
    ]
    else if d.chdir path
    then some path
    else none

abbrev pub cd_deed : Option Bytes → Deed
cd_deed none = complains
cd_deed (some dir) = changes dir

-- The branch of `cd`, by `args[2]` and `args[1]`. Behind a `cd("~")` that has changed the directory, the
-- source goes on to `cd(args[1])`, which reads from NULL.
abbrev pub cd_command : Directories → Buffer → Slot → Slot → Deed
cd_command d b unset one = bad_pointer
cd_command d b (at p) one = complains
cd_command d b null unset = bad_pointer
cd_command d b null (at p) = cd_deed (cd d (string_at bufsize b p))
cd_command d b null null = elim (cd d (bytes "~")) as (λ x. Deed) [
  | none ↦ complains
  | some dir ↦ changes_and_strays dir
]

-- The main loop behind `parse`.
abbrev pub command : Directories → Buffer → Args → Deed
command d b args = elim (args 0) as (λ x. Deed) [
  | unset ↦ bad_pointer
  | null ↦ bad_pointer
  | at p ↦
      if bytes_eq (string_at bufsize b p) (bytes "cd")
      then cd_command d b (args 2) (args 1)
      else executes (read_args args_size b args 0)
]

-- `read` puts bytes at `p`.
unfoldable pub fill : Buffer → ℕ → Bytes → Buffer
fill b p [] = b
fill b p (c ∷ s) = put_byte (fill b (suc p) s) p c

-- The buffer behind `read`: its last byte is overwritten, and when there is none, nothing is.
abbrev pub received : Buffer → Bytes → Buffer
received b [] = b
received b (c ∷ s) = put_byte (fill b 0 (c ∷ s)) (length s) 0

-- `strncmp(buf, "exit", 4) == 0`
abbrev pub is_exit : Buffer → Bool
is_exit b = (b 0 == b'e') && (b 1 == b'x') && (b 2 == b'i') && (b 3 == b't')

abbrev pub parsed : Directories → Buffer × List ℕ → Args → Deed × Buffer × Args
parsed d (b, argv) args = elim (store_args args argv 0) as (λ x. Deed × Buffer × Args) [
  | none ↦ (overruns, b, args)
  | some args' ↦ (command d b args', b, args')
]

-- A round of the main loop in which `read` delivers these bytes: what it does, and the buffer and `args`
-- that it leaves.
unfoldable pub round : Directories → Bytes → Buffer → Args → Deed × Buffer × Args
round d t b args =
    let b1 = received b t in
    if length t == 1
    then (nothing, b1, args)
    else if is_exit b1
    then (exits, b1, args)
    else parsed d (parse_loop bufsize b1 0) args
