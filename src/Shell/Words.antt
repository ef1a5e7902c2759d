-- ===== src/Shell/Words.antt =====
-- 392/minishell/version2/minishell.c: the words of a line.
use cs.Prelude.{
  ℕ, suc, ◌≤◌, ◌≡◌, ◌≢◌, refl, sym, ◌∙◌, ap, Bool, true, false, not, List, [], ◌∷◌, ◌++◌, Bytes,
  arith, if◌then◌else◌, length, Bool-cases, inl, inr,
}
use mathlib.Core.Path.{ap₂}
use cs.Shell.{Buffer, is_white}

-- The C string at `p` is `s`.
abbrev pub Holds : Buffer → ℕ → Bytes → Type 0
Holds b p [] = b p ≡ 0
Holds b p (c ∷ s) = (b p ≡ c) × (c ≢ 0) × Holds b (suc p) s

-- The C strings at these places are these.
abbrev pub Strings : Buffer → List ℕ → List Bytes → Type 0
Strings b [] [] = Unit
Strings b (p ∷ ps) (w ∷ ws) = Holds b p w × Strings b ps ws
Strings b [] (w ∷ ws) = ⊥
Strings b (p ∷ ps) [] = ⊥

abbrev pub starts_word : Bytes → Bool
starts_word [] = false
starts_word (c ∷ s) = not (is_white c)

abbrev pub cons_first : ℕ → List Bytes → List Bytes
cons_first c [] = (c ∷ []) ∷ []
cons_first c (w ∷ ws) = (c ∷ w) ∷ ws

-- The words of a line: its maximal runs of bytes other than white space.
abbrev pub words : Bytes → List Bytes
words [] = []
words (c ∷ s) =
    if is_white c
    then words s
    else if starts_word s
    then cons_first c (words s)
    else (c ∷ []) ∷ words s

abbrev pub ends_white : Bytes → Bool
ends_white [] = false
ends_white (c ∷ []) = is_white c
ends_white (c ∷ d ∷ s) = ends_white (d ∷ s)

-- What the shell passes on: the words, and an empty one more where the line ends in white space.
abbrev pub arguments : Bytes → List Bytes
arguments s = words s ++ (if ends_white s then [] ∷ [] else [])

pub frame_Holds :
    (b b' : Buffer) (p : ℕ) (s : Bytes)
    → ((k : ℕ) → p ≤ k → b' k ≡ b k)
    → Holds b p s
    → Holds b' p s
frame_Holds b b' p [] f h = f p (omega arith) ∙ h
frame_Holds b b' p (c ∷ s) f h =
    (f p (omega arith) ∙ h.0, h.1, frame_Holds b b' (suc p) s (λ k l. f k (omega arith)) h.2)

arguments-white :
    (c d : ℕ) (s : Bytes) → is_white c ≡ true → arguments (c ∷ d ∷ s) ≡ arguments (d ∷ s)
arguments-white c d s w = rw w refl

pub white_some :
    (c : ℕ) (s rest : Bytes)
    → is_white c ≡ true
    → length rest ≤ length s
    → starts_word rest ≡ true
    → arguments s ≡ arguments rest
    → arguments (c ∷ s) ≡ arguments rest
white_some c [] [] w l q e = absurd (ground arith)
white_some c [] (r ∷ rest) w l q e = absurd (omega arith)
white_some c (d ∷ s) rest w l q e = arguments-white c d s w ∙ e

pub white_none :
    (c : ℕ) (s : Bytes)
    → is_white c ≡ true
    → (s ≢ [] → arguments s ≡ [] ∷ [])
    → arguments (c ∷ s) ≡ [] ∷ []
white_none c [] w f = rw w refl
white_none c (d ∷ s) w f = arguments-white c d s w ∙ f (λ e. ground arith)

not_white : (d : ℕ) → not (is_white d) ≡ true → is_white d ≡ false
not_white d q = ground arith

cons_first-append :
    (c : ℕ) (s : Bytes) (more : List Bytes)
    → starts_word s ≡ true
    → cons_first c (words s) ++ more ≡ cons_first c (words s ++ more)
cons_first-append c [] more q = absurd (ground arith)
cons_first-append c (d ∷ s) more q = elim (Bool-cases (starts_word s)) [
  | inl inside ↦ rw (not_white d q, inside) (twice (words s))
  | inr last ↦ rw (not_white d q, last) refl
]
  where
    twice :
        (ws : List Bytes)
        → cons_first c (cons_first d ws) ++ more ≡ cons_first c (cons_first d ws ++ more)
    twice [] = refl
    twice (w ∷ ws) = refl

arguments-in :
    (c : ℕ) (s w : Bytes) (ws : List Bytes)
    → is_white c ≡ false
    → starts_word s ≡ true
    → arguments s ≡ w ∷ ws
    → arguments (c ∷ s) ≡ (c ∷ w) ∷ ws
arguments-in c [] w ws b q e = absurd (ground arith)
arguments-in c (d ∷ s) w ws b q e =
    rw (b, q)
      (cons_first-append c (d ∷ s) (if ends_white (d ∷ s) then [] ∷ [] else []) q
        ∙ ap (cons_first c) e)

arguments-last :
    (c : ℕ) (s : Bytes)
    → is_white c ≡ false
    → starts_word s ≡ false
    → arguments (c ∷ s) ≡ (c ∷ []) ∷ arguments s
arguments-last c [] b q = rw b refl
arguments-last c (d ∷ s) b q = rw (b, q) refl

pub arguments-word :
    (c : ℕ) (s w rest : Bytes)
    → is_white c ≡ false
    → (starts_word s ≡ true → arguments s ≡ w ∷ arguments rest)
    → (starts_word s ≡ false → (w ≡ []) × (rest ≡ s))
    → arguments (c ∷ s) ≡ (c ∷ w) ∷ arguments rest
arguments-word c s w rest b f g = elim (Bool-cases (starts_word s)) [
  | inl inside ↦ arguments-in c s w (arguments rest) b inside (f inside)
  | inr last ↦
      let (e, r) = g last in
      arguments-last c s b last ∙ ap₂ (λ u v. (c ∷ u) ∷ arguments v) (sym e) (sym r)
]
