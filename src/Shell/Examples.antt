-- ===== src/Shell/Examples.antt =====
-- 392/minishell/version2/minishell.c: lines, and the theorems about them.
use cs.Prelude.{bytes_eq, ◌≡◌, refl, true, some, [], ◌∷◌, ◌++◌, Bytes, bytes, arith}
use cs.Shell.{
  Buffer, parse_loop, skip_white, skip_word, null, Args, Directories, changes, round, fill,
}
use cs.Shell.Words.{Holds, Strings, words, arguments}
use cs.Shell.Parse.{parse_loop-arguments}
use cs.Shell.Rounds.{line_deed, round-line_deed}

-- "ls -l" with white space around it.
abbrev line : Bytes
line = bytes " ls\t-l "

two_words : words line ≡ bytes "ls" ∷ bytes "-l" ∷ []
two_words = refl

-- The space at the end makes an empty argument.
three_arguments : arguments line ≡ bytes "ls" ∷ bytes "-l" ∷ [] ∷ []
three_arguments = refl

abbrev empty : Buffer
empty k = 0

abbrev buffer : Buffer
buffer = fill empty 0 line

buffer-Holds : Holds buffer 0 line
unfolding fill
buffer-Holds = ground arith

positions : (parse_loop 8 buffer 0).1 ≡ 1 ∷ 4 ∷ 7 ∷ []
unfolding parse_loop skip_white skip_word fill
positions = refl

parse_loop-arguments_example :
    Strings (parse_loop 8 buffer 0).0 (parse_loop 8 buffer 0).1 (arguments line)
parse_loop-arguments_example = parse_loop-arguments 8 buffer 0 line buffer-Holds (omega arith)

-- Every directory can be entered.
abbrev directories : Directories
directories = record { home = some (bytes "/home/user"); chdir = λ path. true }

-- Left by an earlier command.
abbrev args : Args
args k = null

round-line_deed_example :
    (round directories (bytes "cd .." ++ b'\n' ∷ []) empty args).0
    ≡ line_deed directories null (bytes "cd ..")
round-line_deed_example =
    round-line_deed directories (bytes "cd ..") b'\n' empty args (ground arith) (omega arith)

cd_up : line_deed directories null (bytes "cd ..") ≡ changes (bytes "..")
unfolding bytes_eq
cd_up = refl
