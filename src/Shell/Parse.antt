-- ===== src/Shell/Parse.antt =====
-- 392/minishell/version2/minishell.c: the words that `parse` finds.
mod Loops
use cs.Prelude.{
  ℕ, zero, suc, ◌+◌, ◌≤◌, ◌<◌, ◌≡◌, ◌≢◌, refl, sym, ◌∙◌, ap, subst, Bool, true, false, ◌&&◌, ◌||◌,
  not, List, [], ◌∷◌, ◌++◌, Bytes, arith, ◌==◌, if◌then◌else◌, length, Bool-cases, inl, inr, ◌⊎◌,
}
use mathlib.Core.Path.{ap₂}
use cs.Shell.{Buffer, put_byte, is_white, skip_white, skip_word, parse_loop}
use cs.Shell.Words.{
  frame_Holds, Holds, Strings, starts_word, cons_first, words, ends_white, arguments, white_some,
  white_none, arguments-word,
}
use cs.Shell.Parse.Loops.{Skipped, Worded, Prefix, skip_white-Skipped, skip_word-Worded}

-- What `parse` makes of a line `s` at `p`.
record Parsed (b : Buffer) (p : ℕ) (s : Bytes) (b' : Buffer) (argv : List ℕ) : Type 0 where
  strings : Strings b' argv (arguments s)
  frame : (k : ℕ) → k < p → b' k ≡ b k
  cut : starts_word s ≡ false → b' p ≡ 0

Prefix-Holds :
    (b b' : Buffer) (p : ℕ) (w : Bytes) (q : ℕ)
    → Prefix b p w q
    → ((k : ℕ) → k < q → b' k ≡ b k)
    → b' q ≡ 0
    → Holds b' p w
unfolding Prefix
Prefix-Holds b b' p [] q h f z = ap b' h ∙ z
Prefix-Holds b b' p (c ∷ w) q h f z =
    (f p (Prefix-le b (suc p) w q h.2) ∙ h.0, h.1, Prefix-Holds b b' (suc p) w q h.2 f z)
  where
    Prefix-le : (b : Buffer) (p : ℕ) (w : Bytes) (q : ℕ) → Prefix b p w q → p ≤ q
    Prefix-le b p [] q h = omega (arith, h)
    Prefix-le b p (c ∷ w) q h = omega (arith, Prefix-le b (suc p) w q h.2)

-- One round of the outer loop, on a line that is not empty.
module _ {b b1 : Buffer} {p word p2 c : ℕ} {s : Bytes} (v : Skipped b p (c ∷ s) b1 word)
    (w : Worded b1 word v.rest p2) where
  one_word : arguments (c ∷ s) ≡ w.word ∷ arguments w.rest
  one_word = elim v.at_word [
    | inl here ↦ v.some_word here ∙ w.split here
    | inr gone ↦
        let (e, r) = w.none (ap starts_word gone) in
        v.no_word (λ n. ground (arith, n)) gone
        ∙ ap₂ (λ u t. u ∷ arguments t) (sym e) (sym (r ∙ gone))
  ]

  round-less : length w.rest < suc (length s)
  round-less = elim v.at_word [
    | inl here ↦ omega (arith, w.less here, v.shorter)
    | inr gone ↦ omega (arith, w.shorter, ap length gone)
  ]

  round-Parsed :
      {b2 : Buffer} {argv : List ℕ}
      → Holds b p (c ∷ s)
      → Parsed b1 p2 w.rest b2 argv
      → Parsed b p (c ∷ s) b2 (word ∷ argv)
  round-Parsed {b2} {argv} h r = record {
    strings =
        subst (Strings b2 (word ∷ argv)) (sym one_word)
          (Prefix-Holds b1 b2 word w.word p2 w.between r.frame (r.cut w.stopped), r.strings);
    frame = λ k m. r.frame k (omega (arith, m, v.further, w.further)) ∙ v.frame k m;
    cut = λ e.
        let (zero_there, before) = v.zeroed (ap is_white h.0 ∙ white_start e) in
        r.frame p (omega (arith, before, w.further)) ∙ zero_there;
  }
    where
      white_start : starts_word (c ∷ s) ≡ false → is_white c ≡ true
      white_start e = ground arith

parse_loop-Parsed :
    (fuel : ℕ) (b : Buffer) (p : ℕ) (s : Bytes)
    → Holds b p s
    → length s < fuel
    → Parsed b p s (parse_loop fuel b p).0 (parse_loop fuel b p).1
unfolding parse_loop
parse_loop-Parsed zero b p s h l = absurd (omega arith)
parse_loop-Parsed (suc fuel) b p [] h l =
    rw h (record { strings = tt; frame = λ k m. refl; cut = λ e. h })
parse_loop-Parsed (suc fuel) b p (c ∷ s) h l =
    let nonzero : (b p == 0) ≡ false = ground (arith, h.0, h.1) in
    let v = skip_white-Skipped fuel b p (c ∷ s) h (omega arith) in
    let (b1, word) = skip_white fuel b p in
    let w = skip_word-Worded fuel b1 word v.rest v.holds (omega (arith, v.shorter)) in
    let r =
      parse_loop-Parsed fuel b1 (skip_word fuel b1 word) w.rest w.holds
        (omega (arith, l, round-less v w)) in
    rw nonzero (round-Parsed v w h r)

-- For a line in the buffer, `parse` ends within as many rounds as the line has bytes and one more, and
-- `argv` then points at C strings in the buffer: the words of the line in order, and an empty string behind
-- them if the line ends in white space.
pub parse_loop-arguments :
    (fuel : ℕ) (b : Buffer) (p : ℕ) (s : Bytes)
    → Holds b p s
    → length s < fuel
    → Strings (parse_loop fuel b p).0 (parse_loop fuel b p).1 (arguments s)
parse_loop-arguments fuel b p s h l = (parse_loop-Parsed fuel b p s h l).strings
