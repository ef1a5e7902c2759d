-- ===== src/Shell/Rounds.antt =====
-- 392/minishell/version2/minishell.c: what a line that the user types does.
mod Arguments
use cs.Prelude.{
  ℕ, zero, suc, ◌+◌, ◌≤◌, ◌<◌, ◌≡◌, ◌≢◌, refl, sym, ◌∙◌, ap, subst, Bool, true, false, not, ◌&&◌,
  Option, none, some, List, [], ◌∷◌, ◌++◌, Bytes, bytes, bytes_eq, arith, ◌==◌, ltb, if◌then◌else◌,
  length, Bool-cases, Option-cases, inl, inr, length-append, All-append, ==_ne, lt→ltb, ltb→lt, All,
}
use mathlib.Core.Path.{ap₂}
use cs.Shell.{
  Buffer, put_byte, is_white, parse_loop, Slot, unset, null, at, Args, args_size, put_slot,
  store_args, string_at, bufsize, read_args, Directories, Deed, nothing, complains, changes,
  executes, exits, bad_pointer, changes_and_strays, overruns, cd_deed, cd, cd_command, command,
  fill, received, is_exit, parsed, round,
}
use cs.Shell.Words.{
  frame_Holds, words, ends_white, cons_first, starts_word, Holds, Strings, arguments,
}
use cs.Shell.Parse.{parse_loop-arguments}
use cs.Shell.Rounds.Arguments.{
  NoZero, fill-Holds, string_at-Holds, Entries, Stored, store_args-Stored, store_args-overruns,
  Short, Short-le, arguments-Short, Strings-length, read_args-Strings,
}

-- `cd`, by what `args[2]` was before and by the arguments behind `cd`.
abbrev pub cd_of : Directories → Slot → List Bytes → Deed
cd_of d old [] = elim old as (λ x. Deed) [
  | unset ↦ bad_pointer
  | at p ↦ complains
  | null ↦ elim (cd d (bytes "~")) as (λ x. Deed) [
    | none ↦ complains
    | some dir ↦ changes_and_strays dir
  ]
]
cd_of d old (path ∷ []) = cd_deed (cd d path)
cd_of d old (path ∷ more ∷ ws) = complains

-- What the arguments of a line make the shell do, where `args[2]` is `old` before.
abbrev pub deed_of : Directories → Slot → List Bytes → Deed
deed_of d old [] = bad_pointer
deed_of d old (w ∷ ws) = if bytes_eq w (bytes "cd") then cd_of d old ws else executes (w ∷ ws)

cd_command-cd_of :
    (d : Directories) (b : Buffer) (old : Slot) → cd_command d b old null ≡ cd_of d old []
cd_command-cd_of d b unset = refl
cd_command-cd_of d b null = refl
cd_command-cd_of d b (at p) = refl

module _ (d : Directories) (b : Buffer) (args args' : Args) where
  cd-Entries :
      (argv : List ℕ) (ws : List Bytes)
      → Entries args' 1 argv
      → ((k : ℕ) → 1 + length argv < k → args' k ≡ args k)
      → Strings b argv ws
      → Short 4094 ws
      → cd_command d b (args' 2) (args' 1) ≡ cd_of d (args 2) ws
  unfolding Entries Short
  cd-Entries [] [] e f r a = rw (e, f 2 (omega arith)) (cd_command-cd_of d b (args 2))
  cd-Entries (p ∷ []) (w ∷ []) e f r a =
      rw (e.1, e.0, string_at-Holds bufsize b p w r.0 (omega (arith, a.0))) refl
  cd-Entries (p ∷ q ∷ argv) (w ∷ v ∷ ws) e f r a = rw e.1.0 refl
  cd-Entries [] (w ∷ ws) e f r a = absurd r
  cd-Entries (p ∷ argv) [] e f r a = absurd r
  cd-Entries (p ∷ []) (w ∷ v ∷ ws) e f r a = absurd r.1
  cd-Entries (p ∷ q ∷ argv) (w ∷ []) e f r a = absurd r.1

  command-deed_of :
      (argv : List ℕ) (ws : List Bytes)
      → Entries args' 0 argv
      → ((k : ℕ) → length argv < k → args' k ≡ args k)
      → Strings b argv ws
      → Short 4094 ws
      → length argv < args_size
      → command d b args' ≡ deed_of d (args 2) ws
  unfolding Entries Short
  command-deed_of [] [] e f r a l = rw (command, e) refl
  command-deed_of (p ∷ argv) (w ∷ ws) e f r a l =
      let given : read_args args_size b args' 0 ≡ w ∷ ws =
        read_args-Strings args_size b args' 0 (p ∷ argv) (w ∷ ws) e r a l in
      rw (command, e.0, string_at-Holds bufsize b p w r.0 (omega (arith, a.0)))
        (ap₂ (λ x y. if bytes_eq w (bytes "cd") then x else executes y)
          (cd-Entries argv ws e.1 (λ k m. f k (omega arith)) r.1 a.1) given)
  command-deed_of [] (w ∷ ws) e f r a l = absurd r
  command-deed_of (p ∷ argv) [] e f r a l = absurd r

-- The bytes of "exit" at the front of a line.
abbrev pub starts_exit : Bytes → Bool
starts_exit (a ∷ b ∷ c ∷ d ∷ s) = (a == b'e') && (b == b'x') && (c == b'i') && (d == b't')
starts_exit s = false

is_exit-Holds : (b : Buffer) (s : Bytes) → Holds b 0 s → is_exit b ≡ starts_exit s
is_exit-Holds b [] h = ground (arith, h)
is_exit-Holds b (x ∷ []) h = ground (arith, h)
is_exit-Holds b (x ∷ y ∷ []) h = ground (arith, h)
is_exit-Holds b (x ∷ y ∷ z ∷ []) h = ground (arith, h)
is_exit-Holds b (x ∷ y ∷ z ∷ w ∷ s) h = rw (h.0, h.2.0, h.2.2.0, h.2.2.2.0) refl

-- What a line makes the shell do.
abbrev pub line_deed : Directories → Slot → Bytes → Deed
line_deed d old [] = nothing
line_deed d old (c ∷ s) =
    if starts_exit (c ∷ s)
    then exits
    else if ltb (length (arguments (c ∷ s))) args_size
    then deed_of d old (arguments (c ∷ s))
    else overruns

received-Holds :
    (b : Buffer) (x : ℕ) (s : Bytes) (c : ℕ)
    → NoZero (x ∷ s)
    → Holds (received b (x ∷ s ++ c ∷ [])) 0 (x ∷ s)
received-Holds b x s c z =
    let here : 0 + length (x ∷ s) ≡ length (s ++ c ∷ []) =
      omega (arith, length-append s (c ∷ [])) in
    subst (λ k. Holds (put_byte (fill b 0 (x ∷ s ++ c ∷ [])) k 0) 0 (x ∷ s)) here
      (fill-Holds b 0 (x ∷ s) c z)

-- The round behind `parse`, where the C strings of `argv` are the arguments `ws`.
parsed-deed_of :
    (d : Directories) (b : Buffer) (args : Args) (argv : List ℕ) (ws : List Bytes)
    → Strings b argv ws
    → Short 4094 ws
    → (parsed d (b, argv) args).0
      ≡ (if ltb (length ws) args_size then deed_of d (args 2) ws else overruns)
parsed-deed_of d b args argv ws r a = elim (Bool-cases (ltb (length ws) args_size)) [
  | inl fits ↦
      let few : length argv < args_size =
        omega (arith, ltb→lt (length ws) args_size fits, Strings-length b argv ws r) in
      let o = store_args-Stored args argv 0 (omega (arith, few)) in
      rw (fits, parsed, o.result)
        (command-deed_of d b args o.args' argv ws o.entries (λ k m. o.beyond k (omega (arith, m))) r
          a few)
  | inr many ↦
      rw
        (
          many,
          parsed,
          store_args-overruns args argv 0 (ground (arith, many, Strings-length b argv ws r)),
        )
        refl
]

-- For a line of at most 4094 bytes and the newline behind it, a round of the main loop does what the line's
-- arguments say, whatever was in the buffer: it leaves at "exit", changes the directory or complains at
-- `cd`, runs any other command with its arguments, and from 65 arguments on writes behind `args`.
pub round-line_deed :
    (d : Directories) (s : Bytes) (c : ℕ) (b : Buffer) (args : Args)
    → NoZero s
    → length s ≤ 4094
    → (round d (s ++ c ∷ []) b args).0 ≡ line_deed d (args 2) s
unfolding round
round-line_deed d [] c b args z l = refl
round-line_deed d (x ∷ s) c b args z l =
    let b1 = received b (x ∷ s ++ c ∷ []) in
    let held = received-Holds b x s c z in
    let long : (length (x ∷ s ++ c ∷ []) == 1) ≡ false = ground (arith, length-append s (c ∷ [])) in
    let (b2, argv) = parse_loop bufsize b1 0 in
    let given =
      parsed-deed_of d b2 args argv (arguments (x ∷ s))
        (parse_loop-arguments bufsize b1 0 (x ∷ s) held (omega arith))
        (Short-le (length (x ∷ s)) 4094 (arguments (x ∷ s)) l (arguments-Short (x ∷ s))) in
    elim (Bool-cases (starts_exit (x ∷ s))) [
      | inl leaves ↦ rw (long, is_exit-Holds b1 (x ∷ s) held, leaves) refl
      | inr stays ↦ rw (long, is_exit-Holds b1 (x ∷ s) held, stays) given
    ]
