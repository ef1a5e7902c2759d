-- ===== src/Shell/Rounds/Arguments.antt =====
-- 392/minishell/version2/minishell.c: `buf` and `args` around `parse`.
use cs.Prelude.{
  ℕ, zero, suc, ◌+◌, ◌≤◌, ◌<◌, ◌≡◌, ◌≢◌, refl, ◌∙◌, ap, false, Option, none, some, List, [], ◌∷◌,
  ◌++◌, Bytes, arith, ◌==◌, length, Bool-cases, inl, inr, All-append, lt→ltb, All,
}
use cs.Shell.{
  Buffer, put_byte, is_white, null, at, Args, args_size, put_slot, store_args, string_at, bufsize,
  read_args, fill,
}
use cs.Shell.Words.{
  frame_Holds, words, ends_white, cons_first, starts_word, Holds, Strings, arguments,
}

-- The line is in the buffer when the newline behind it is gone.
abbrev pub NoZero : Bytes → Type 0
NoZero s = All (λ c. c ≢ 0) s

pub fill-Holds :
    (b : Buffer) (p : ℕ) (s : Bytes) (c : ℕ)
    → NoZero s
    → Holds (put_byte (fill b p (s ++ c ∷ [])) (p + length s) 0) p s
unfolding fill
fill-Holds b p [] c z = ground arith
fill-Holds b p (x ∷ s) c z = (
  ground arith,
  z.0,
  frame_Holds (put_byte (fill b (suc p) (s ++ c ∷ [])) (suc p + length s) 0)
      (put_byte (fill b p (x ∷ s ++ c ∷ [])) (p + length (x ∷ s)) 0) (suc p) s (λ k m. ground arith)
      (fill-Holds b (suc p) s c z.1),
)

pub string_at-Holds :
    (fuel : ℕ) (b : Buffer) (p : ℕ) (s : Bytes)
    → Holds b p s
    → length s < fuel
    → string_at fuel b p ≡ s
unfolding string_at
string_at-Holds zero b p s h l = absurd (omega arith)
string_at-Holds (suc fuel) b p [] h l = rw h refl
string_at-Holds (suc fuel) b p (c ∷ s) h l =
    let nonzero : (b p == 0) ≡ false = ground (arith, h.0, h.1) in
    rw (nonzero, h.0, string_at-Holds fuel b (suc p) s h.2 (omega arith)) refl

-- The entries of `args` from `i` on are these pointers and NULL.
unfoldable pub Entries : Args → ℕ → List ℕ → Type 0
Entries args i [] = args i ≡ null
Entries args i (p ∷ argv) = (args i ≡ at p) × Entries args (suc i) argv

-- What storing pointers does.
pub record Stored (args : Args) (i : ℕ) (argv : List ℕ) (o : Option Args) : Type 0 where
  pub args' : Args
  pub result : o ≡ some args'
  pub entries : Entries args' i argv
  pub frame : (k : ℕ) → k < i → args' k ≡ args k
  pub beyond : (k : ℕ) → i + length argv < k → args' k ≡ args k

pub store_args-Stored :
    (args : Args) (argv : List ℕ) (i : ℕ)
    → i + length argv < args_size
    → Stored args i argv (store_args args argv i)
unfolding store_args Entries
store_args-Stored args [] i l = rw (lt→ltb i args_size (omega arith)) (record {
  args' = put_slot args i null;
  result = refl;
  entries = ground arith;
  frame = λ k m. ground arith;
  beyond = λ k m. ground arith;
})
store_args-Stored args (p ∷ argv) i l =
    let r = store_args-Stored (put_slot args i (at p)) argv (suc i) (omega arith) in
    rw (lt→ltb i args_size (omega arith)) (record {
      args' = r.args';
      result = r.result;
      entries = (r.frame i (omega arith) ∙ ground arith, r.entries);
      frame = λ k m. r.frame k (omega arith) ∙ ground arith;
      beyond = λ k m. r.beyond k (omega arith) ∙ ground arith;
    })

pub store_args-overruns :
    (args : Args) (argv : List ℕ) (i : ℕ)
    → args_size ≤ i + length argv
    → store_args args argv i ≡ none
unfolding store_args
store_args-overruns args [] i l = ground arith
store_args-overruns args (p ∷ argv) i l =
    ground (arith, store_args-overruns (put_slot args i (at p)) argv (suc i) (omega arith))

-- No argument is longer than the line.
unfoldable pub Short : ℕ → List Bytes → Type 0
Short n ws = All (λ w. length w ≤ n) ws

Short-more : (n : ℕ) (ws : List Bytes) → Short n ws → Short (suc n) ws
unfolding Short
Short-more n [] a = tt
Short-more n (w ∷ ws) a = (omega (arith, a.0), Short-more n ws a.1)

pub Short-le : (n m : ℕ) (ws : List Bytes) → n ≤ m → Short n ws → Short m ws
unfolding Short
Short-le n m [] l a = tt
Short-le n m (w ∷ ws) l a = (omega (arith, l, a.0), Short-le n m ws l a.1)

cons_first-Short : (n c : ℕ) (ws : List Bytes) → Short n ws → Short (suc n) (cons_first c ws)
unfolding Short
cons_first-Short n c [] a = (omega arith, tt)
cons_first-Short n c (w ∷ ws) a = (omega (arith, a.0), Short-more n ws a.1)

words-Short : (s : Bytes) → Short (length s) (words s)
unfolding Short
words-Short [] = tt
words-Short (c ∷ s) = elim (Bool-cases (is_white c)) [
  | inl white ↦ rw white (Short-more (length s) (words s) (words-Short s))
  | inr black ↦ elim (Bool-cases (starts_word s)) [
    | inl inside ↦ rw (black, inside) (cons_first-Short (length s) c (words s) (words-Short s))
    | inr last ↦ rw (black, last) (omega arith, Short-more (length s) (words s) (words-Short s))
  ]
]

pub arguments-Short : (s : Bytes) → Short (length s) (arguments s)
unfolding Short
arguments-Short s = elim (Bool-cases (ends_white s)) [
  | inl white ↦
      rw white (
        All-append (λ w. length w ≤ length s) (words s) ([] ∷ []) (words-Short s) (omega arith, tt))
  | inr black ↦ rw black (All-append (λ w. length w ≤ length s) (words s) [] (words-Short s) tt)
]

pub Strings-length :
    (b : Buffer) (argv : List ℕ) (ws : List Bytes) → Strings b argv ws → length argv ≡ length ws
Strings-length b [] [] r = refl
Strings-length b (p ∷ argv) (w ∷ ws) r = ap suc (Strings-length b argv ws r.1)
Strings-length b [] (w ∷ ws) r = absurd r
Strings-length b (p ∷ argv) [] r = absurd r

pub read_args-Strings :
    (fuel : ℕ) (b : Buffer) (args : Args) (i : ℕ) (argv : List ℕ) (ws : List Bytes)
    → Entries args i argv
    → Strings b argv ws
    → Short 4094 ws
    → length argv < fuel
    → read_args fuel b args i ≡ ws
unfolding read_args Entries Short
read_args-Strings zero b args i argv ws e r a l = absurd (omega arith)
read_args-Strings (suc fuel) b args i [] [] e r a l = rw (read_args, e) refl
read_args-Strings (suc fuel) b args i (p ∷ argv) (w ∷ ws) e r a l =
    rw
      (
        read_args,
        e.0,
        string_at-Holds bufsize b p w r.0 (omega (arith, a.0)),
        read_args-Strings fuel b args (suc i) argv ws e.1 r.1 a.1 (omega arith),
      )
      refl
read_args-Strings (suc fuel) b args i [] (w ∷ ws) e r a l = absurd r
read_args-Strings (suc fuel) b args i (p ∷ argv) [] e r a l = absurd r
