-- ===== src/Shell/Parse/Loops.antt =====
-- 392/minishell/version2/minishell.c: the inner loops of `parse`.
use cs.Prelude.{
  ℕ, zero, suc, ◌≤◌, ◌<◌, ◌≡◌, ◌≢◌, refl, sym, ◌∙◌, ap, true, false, not, [], ◌∷◌, Bytes, arith,
  ◌==◌, length, Bool-cases, inl, inr, ◌⊎◌,
}
use cs.Shell.{Buffer, put_byte, is_white, skip_white, skip_word}
use cs.Shell.Words.{
  frame_Holds, Holds, starts_word, arguments, white_some, white_none, arguments-word,
}

-- What `skip_white` makes of a line `s` at `p`.
pub record Skipped (b : Buffer) (p : ℕ) (s : Bytes) (b' : Buffer) (p' : ℕ) : Type 0 where
  pub rest : Bytes
  pub holds : Holds b' p' rest
  pub further : p ≤ p'
  pub shorter : length rest ≤ length s
  pub at_word : starts_word rest ≡ true ⊎ (rest ≡ [])
  pub frame : (k : ℕ) → k < p → b' k ≡ b k
  pub zeroed : is_white (b p) ≡ true → (b' p ≡ 0) × (p < p')
  pub some_word : starts_word rest ≡ true → arguments s ≡ arguments rest
  pub no_word : s ≢ [] → rest ≡ [] → arguments s ≡ [] ∷ []

nothing : (b : Buffer) (p : ℕ) → Holds b p [] → Skipped b p [] b p
nothing b p h = record {
  rest = [];
  holds = h;
  further = omega arith;
  shorter = omega arith;
  at_word = inr refl;
  frame = λ k m. refl;
  zeroed = λ w. absurd (ground (arith, h));
  some_word = λ w. refl;
  no_word = λ n e. absurd (n refl);
}

pub skip_white-Skipped :
    (fuel : ℕ) (b : Buffer) (p : ℕ) (s : Bytes)
    → Holds b p s
    → length s ≤ fuel
    → Skipped b p s (skip_white fuel b p).0 (skip_white fuel b p).1
unfolding skip_white
skip_white-Skipped zero b p [] h l = nothing b p h
skip_white-Skipped (suc fuel) b p [] h l = rw (ap is_white h) (nothing b p h)
skip_white-Skipped zero b p (c ∷ s) h l = absurd (omega arith)
skip_white-Skipped (suc fuel) b p (c ∷ s) h l = elim (Bool-cases (is_white (b p))) [
  | inl white ↦
      let r =
        skip_white-Skipped fuel (put_byte b p 0) (suc p) s
          (frame_Holds b (put_byte b p 0) (suc p) s (λ k m. ground arith) h.2) (omega arith) in
      rw white (record {
        rest = r.rest;
        holds = r.holds;
        further = omega (arith, r.further);
        shorter = omega (arith, r.shorter);
        at_word = r.at_word;
        frame = λ k m. r.frame k (omega arith) ∙ ground arith;
        zeroed = λ w. (r.frame p (omega arith) ∙ ground arith, omega (arith, r.further));
        some_word =
            λ w. white_some c s r.rest (ap is_white (sym h.0) ∙ white) r.shorter w (r.some_word w);
        no_word = λ n e. white_none c s (ap is_white (sym h.0) ∙ white) (λ m. r.no_word m e);
      })
  | inr black ↦ rw black (record {
    rest = c ∷ s;
    holds = h;
    further = omega arith;
    shorter = omega arith;
    at_word = inl (ap (λ x. not (is_white x)) (sym h.0) ∙ ap not black);
    frame = λ k m. refl;
    zeroed = λ w. absurd (ground (arith, black));
    some_word = λ w. refl;
    no_word = λ n e. absurd (n e);
  })
]

-- The bytes of `w` stand from `p` up to `q`.
unfoldable pub Prefix : Buffer → ℕ → Bytes → ℕ → Type 0
Prefix b p [] q = p ≡ q
Prefix b p (c ∷ w) q = (b p ≡ c) × (c ≢ 0) × Prefix b (suc p) w q

-- What `skip_word` makes of a line `s` at `p`.
pub record Worded (b : Buffer) (p : ℕ) (s : Bytes) (p' : ℕ) : Type 0 where
  pub word : Bytes
  pub rest : Bytes
  pub holds : Holds b p' rest
  pub between : Prefix b p word p'
  pub further : p ≤ p'
  pub shorter : length rest ≤ length s
  pub less : starts_word s ≡ true → length rest < length s
  pub stopped : starts_word rest ≡ false
  pub split : starts_word s ≡ true → arguments s ≡ word ∷ arguments rest
  pub none : starts_word s ≡ false → (word ≡ []) × (rest ≡ s)

no_word_here :
    (b : Buffer) (p : ℕ) (s : Bytes) → Holds b p s → starts_word s ≡ false → Worded b p s p
unfolding Prefix
no_word_here b p s h q = record {
  word = [];
  rest = s;
  holds = h;
  between = refl;
  further = omega arith;
  shorter = omega arith;
  less = λ r. absurd (ground (arith, q, r));
  stopped = q;
  split = λ r. absurd (ground (arith, q, r));
  none = λ e. (refl, refl);
}

pub skip_word-Worded :
    (fuel : ℕ) (b : Buffer) (p : ℕ) (s : Bytes)
    → Holds b p s
    → length s ≤ fuel
    → Worded b p s (skip_word fuel b p)
unfolding skip_word Prefix
skip_word-Worded zero b p [] h l = no_word_here b p [] h refl
skip_word-Worded (suc fuel) b p [] h l = rw h (no_word_here b p [] h refl)
skip_word-Worded zero b p (c ∷ s) h l = absurd (omega arith)
skip_word-Worded (suc fuel) b p (c ∷ s) h l = elim (Bool-cases (is_white (b p))) [
  | inl white ↦
      let nonzero : (b p == 0) ≡ false = ground (arith, h.0, h.1) in
      rw (nonzero, white)
        (no_word_here b p (c ∷ s) h (ap (λ x. not (is_white x)) (sym h.0) ∙ ap not white))
  | inr black ↦
      let r = skip_word-Worded fuel b (suc p) s h.2 (omega arith) in
      let nonzero : (b p == 0) ≡ false = ground (arith, h.0, h.1) in
      let c_black : is_white c ≡ false = ap is_white (sym h.0) ∙ black in
      let q_black : starts_word (c ∷ s) ≡ true = ap not c_black in
      rw (nonzero, black)
        (record {
          word = c ∷ r.word;
          rest = r.rest;
          holds = r.holds;
          between = (h.0, h.1, r.between);
          further = omega (arith, r.further);
          shorter = omega (arith, r.shorter);
          less = λ q. omega (arith, r.shorter);
          stopped = r.stopped;
          split = λ q. arguments-word c s r.word r.rest c_black r.split r.none;
          none = λ e. absurd (ground (arith, e, q_black));
        })
]
