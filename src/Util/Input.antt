-- ===== src/Util/Input.antt =====
-- hw7/util.h: `get_string`, over what `read` makes of standard input.
pub mod Terminal
pub mod Text
use cs.Prelude.{
  ℕ, zero, suc, ◌+◌, ◌-◌, ◌≤◌, ◌<◌, ◌≡◌, refl, Bool, true, false, Option, none, some, List, [], ◌∷◌,
  Bytes, ltb, leb, ◌==◌, if◌then◌else◌, arith, length, set, Bool-cases, inl, inr, ◌≢◌,
}

-- What `read` returns: -1, or the bytes that it stored. No bytes mean the end of the input.
pub data ReadResult : Type 0 where
  failed : ReadResult
  got : Bytes → ReadResult

-- Standard input as a state: `read(STDIN_FILENO, buf, n)` stores at most `n` bytes, and takes what
-- it stores from a finite amount that is left.
pub record Stdin (S : Type 0) : Type 0 where
  pub read : S → ℕ → ReadResult × S
  pub left : S → ℕ
  pub bounded : (s : S) (n : ℕ) (b : Bytes) (t : S) → read s n ≡ (got b, t) → length b ≤ n
  pub shrinks :
      (s : S) (n c : ℕ) (b : Bytes) (t : S) → read s n ≡ (got (c ∷ b), t) → left t < left s

-- enum parse_string_t
pub data ParseString : Type 0 where
  ok : ParseString
  no_input : ParseString
  too_long : ParseString

-- A C string ends before its first '\0'.
unfoldable pub cstr : Bytes → Bytes
cstr [] = []
cstr (c ∷ s) = if c == 0 then [] else c ∷ cstr s

pub cstr-length : (s : Bytes) → length (cstr s) ≤ length s
unfolding cstr
cstr-length [] = omega arith
cstr-length (c ∷ s) = ground (arith, cstr-length s)

abbrev pub newline : ℕ
newline = 10

abbrev pub last_byte : Bytes → ℕ
last_byte [] = 0
last_byte (c ∷ []) = c
last_byte (c ∷ d ∷ s) = last_byte (d ∷ s)

-- buf[bytes_read - 1] = '\0'
abbrev pub end_last : Bytes → Bytes
end_last [] = []
end_last (c ∷ []) = 0 ∷ []
end_last (c ∷ d ∷ s) = c ∷ end_last (d ∷ s)

-- The value returned, and what was stored at the start of `buf`.
pub record Reply (S : Type 0) : Type 0 where
  pub status : ParseString
  pub buf : Bytes
  pub rest : S

module _ {S : Type 0} (io : Stdin S) where
  -- The test and the body of the `while` that consumes the rest of a long line.
  abbrev after_byte : ReadResult × S → (S → Option S) → Option S
  after_byte (failed, t) next = some t
  after_byte (got [], t) next = some t
  after_byte (got (c ∷ b), t) next = let more = next t in if c == newline then some t else more

  unfoldable pub consume : ℕ → S → Option S
  consume zero s = none
  consume (suc fuel) s = after_byte (io.read s 1) (consume fuel)

  abbrev pub long_line : Bytes → Option S → Option (Reply S)
  long_line b none = none
  long_line b (some t) = some (record { status = too_long; buf = b; rest = t })

  abbrev pub finish : Bytes → S → Reply S
  finish b t = record {
    status = elim (cstr (end_last b)) [ [] ↦ no_input | c ∷ s ↦ ok ];
    buf = end_last b;
    rest = t;
  }

  abbrev pub after_line : ReadResult × S → Option (Reply S)
  after_line (failed, t) = some (record { status = no_input; buf = []; rest = t })
  after_line (got [], t) = some (record { status = no_input; buf = []; rest = t })
  after_line (got (c ∷ b), t) =
      if last_byte (c ∷ b) == newline
      then some (finish (c ∷ b) t)
      else long_line (c ∷ b) (consume (io.left t + 1) t)

  unfoldable pub get_string : S → ℕ → Option (Reply S)
  get_string s sz = after_line (io.read s sz)

  pub after_line-line :
      (b : Bytes) (t : S)
      → b ≢ []
      → last_byte b ≡ newline
      → after_line (got b, t) ≡ some (finish b t)
  after_line-line [] t ne e = absurd (ne refl)
  after_line-line (c ∷ b) t ne e = ground arith

  pub after_line-long :
      (b : Bytes) (t : S)
      → b ≢ []
      → last_byte b ≢ newline
      → after_line (got b, t) ≡ long_line b (consume (io.left t + 1) t)
  after_line-long [] t ne e = absurd (ne refl)
  after_line-long (c ∷ b) t ne e = ground arith

  after_byte-total :
      {r : ReadResult × S} (s : S) (next : S → Option S)
      → io.read s 1 ≡ r
      → ((t : S) → io.left t < io.left s → (u : S) × (next t ≡ some u))
      → (u : S) × (after_byte r next ≡ some u)
  after_byte-total {r = (failed, t)} s next e h = (t, refl)
  after_byte-total {r = (got [], t)} s next e h = (t, refl)
  after_byte-total {r = (got (c ∷ b), t)} s next e h = elim (Bool-cases (c == newline)) [
    | inl end ↦ (t, rw end)
    | inr more ↦ rw more (h t (io.shrinks s 1 c b t e))
  ]

  pub consume-total : (fuel : ℕ) (s : S) → io.left s < fuel → (t : S) × (consume fuel s ≡ some t)
  unfolding consume
  consume-total zero s h = absurd (omega arith)
  consume-total (suc fuel) s h =
      after_byte-total s (consume fuel) refl (λ t less. consume-total fuel t (omega arith))

  after_line-total : (r : ReadResult × S) → (p : Reply S) × (after_line r ≡ some p)
  after_line-total (failed, t) = (_, refl)
  after_line-total (got [], t) = (_, refl)
  after_line-total (got (c ∷ b), t) = elim (Bool-cases (last_byte (c ∷ b) == newline)) [
    | inl end ↦ (finish (c ∷ b) t, rw end)
    | inr more ↦
        let (u, e) = consume-total (io.left t + 1) t (omega arith) in
        (record { status = too_long; buf = c ∷ b; rest = u }, rw (more, e))
  ]

  -- Whatever standard input does, `get_string` returns: its loop ends on every finite input.
  pub get_string-total : (s : S) (sz : ℕ) → (p : Reply S) × (get_string s sz ≡ some p)
  unfolding get_string
  get_string-total s sz = after_line-total (io.read s sz)
