-- ===== src/Util/Input/Terminal.antt =====
-- `get_string` of hw7/util.h at a terminal or a pipe that hands out whole lines.
use cs.Prelude.{
  ℕ, zero, suc, ◌+◌, ◌≤◌, ◌<◌, ◌≡◌, refl, some, [], ◌∷◌, ◌++◌, Bytes, ltb, ◌==◌, if◌then◌else◌,
  arith, length, length-append, take, drop, Bool-cases, inl, inr, All, ltb→lt, ◌≢◌, ap, ◌∙◌,
}
use cs.Util.Input.{
  ReadResult, got, Stdin, ok, no_input, too_long, cstr, newline, Reply, get_string, consume,
  last_byte, end_last, after_line-line, after_line-long,
}

-- `read` stores the bytes that are waiting, up to the end of the line and to the size asked for.
pub line_of : ℕ → Bytes → Bytes × Bytes
line_of zero s = ([], s)
line_of (suc n) [] = ([], [])
line_of (suc n) (c ∷ s) =
    let (b, t) = line_of n s in if c == newline then (c ∷ [], s) else (c ∷ b, t)

abbrev pub read_line : Bytes → ℕ → ReadResult × Bytes
read_line s n = (got (line_of n s).0, (line_of n s).1)

line_of-length :
    (n : ℕ) (s : Bytes)
    → (length (line_of n s).0 ≤ n) × (length (line_of n s).0 + length (line_of n s).1 ≡ length s)
unfolding line_of
line_of-length zero s = omega arith
line_of-length (suc n) [] = omega arith
line_of-length (suc n) (c ∷ s) = ground (arith, line_of-length n s)

pub read_line-bounded :
    (s : Bytes) (n : ℕ) (b : Bytes) (t : Bytes) → read_line s n ≡ (got b, t) → length b ≤ n
read_line-bounded s n b t e = ground (arith, line_of-length n s)

pub read_line-shrinks :
    (s : Bytes) (n c : ℕ) (b : Bytes) (t : Bytes)
    → read_line s n ≡ (got (c ∷ b), t)
    → length t < length s
read_line-shrinks s n c b t e = ground (arith, line_of-length n s)

unfoldable pub terminal : Stdin Bytes
unfolding line_of
terminal = record {
  read = read_line;
  left = length;
  bounded = read_line-bounded;
  shrinks = read_line-shrinks;
}

-- The rest of the input after the line `l`.
abbrev pub then_line : Bytes → Bytes → Bytes
then_line l rest = l ++ newline ∷ rest

abbrev pub IsLine : Bytes → Type 0
IsLine = All (λ c. c ≢ newline)

line_of-fits :
    (n : ℕ) (l rest : Bytes)
    → IsLine l
    → length l < n
    → line_of n (then_line l rest) ≡ (l ++ newline ∷ [], rest)
unfolding line_of
line_of-fits zero l rest h lt = absurd (omega arith)
line_of-fits (suc n) [] rest h lt = refl
line_of-fits (suc n) (c ∷ l) rest h lt = ground (arith, line_of-fits n l rest h.1)

line_of-cut :
    (n : ℕ) (l rest : Bytes)
    → IsLine l
    → n ≤ length l
    → line_of n (then_line l rest) ≡ (take n l, then_line (drop n l) rest)
unfolding line_of
line_of-cut zero l rest h le = refl
line_of-cut (suc n) [] rest h le = absurd (omega arith)
line_of-cut (suc n) (c ∷ l) rest h le = ground (arith, line_of-cut n l rest h.1)

consume-line :
    (fuel : ℕ) (l rest : Bytes)
    → IsLine l
    → length l < fuel
    → consume terminal fuel (then_line l rest) ≡ some rest
unfolding terminal consume line_of
consume-line zero l rest h lt = absurd (omega arith)
consume-line (suc fuel) [] rest h lt = refl
consume-line (suc fuel) (c ∷ l) rest h lt = ground (arith, consume-line fuel l rest h.1)

last_byte-line : (l : Bytes) → last_byte (l ++ newline ∷ []) ≡ newline
last_byte-line [] = refl
last_byte-line (c ∷ []) = refl
last_byte-line (c ∷ d ∷ l) = last_byte-line (d ∷ l)

end_last-line : (l : Bytes) → end_last (l ++ newline ∷ []) ≡ l ++ 0 ∷ []
end_last-line [] = refl
end_last-line (c ∷ []) = refl
end_last-line (c ∷ d ∷ l) = ap (◌∷◌ c) (end_last-line (d ∷ l))

pub cstr-terminated : (l : Bytes) → cstr (l ++ 0 ∷ []) ≡ cstr l
unfolding cstr
cstr-terminated [] = refl
cstr-terminated (c ∷ l) = ground (arith, cstr-terminated l)

last_byte-take :
    (n : ℕ) (l : Bytes) → IsLine l → n < length l → last_byte (take (suc n) l) ≢ newline
last_byte-take n [] h lt = absurd (omega arith)
last_byte-take zero (c ∷ l) h lt = h.0
last_byte-take (suc n) (c ∷ []) h lt = h.0
last_byte-take (suc n) (c ∷ d ∷ l) h lt = last_byte-take n (d ∷ l) h.1 (omega arith)

abbrev pub line_reply : Bytes → Bytes → Reply Bytes
line_reply l rest = record {
  status = elim (cstr l) [ [] ↦ no_input | c ∷ s ↦ ok ];
  buf = l ++ 0 ∷ [];
  rest = rest;
}

line-ne-nil : (l : Bytes) → (l ++ newline ∷ []) ≢ []
line-ne-nil [] e = cc
line-ne-nil (c ∷ l) e = cc

take-ne-nil : (n : ℕ) (l : Bytes) → n < length l → take (suc n) l ≢ []
take-ne-nil n [] h e = absurd (omega arith)
take-ne-nil n (c ∷ l) h e = cc

get_string-short :
    (l rest : Bytes) (sz : ℕ)
    → IsLine l
    → length l < sz
    → get_string terminal (then_line l rest) sz ≡ some (line_reply l rest)
unfolding terminal get_string
get_string-short l rest sz h lt = rw (line_of-fits sz l rest h lt) (
    after_line-line terminal (l ++ newline ∷ []) rest (line-ne-nil l) (last_byte-line l)
    ∙ rw (end_last-line l, cstr-terminated l))

length-drop-le : (n : ℕ) (l : Bytes) → length (drop n l) ≤ length l
length-drop-le zero l = omega arith
length-drop-le (suc n) [] = omega arith
length-drop-le (suc n) (c ∷ l) = omega (arith, length-drop-le n l)

IsLine-drop : (n : ℕ) (l : Bytes) → IsLine l → IsLine (drop n l)
IsLine-drop zero l h = h
IsLine-drop (suc n) [] h = tt
IsLine-drop (suc n) (c ∷ l) h = IsLine-drop n l h.1

get_string-long :
    (l rest : Bytes) (n : ℕ)
    → IsLine l
    → n < length l
    → get_string terminal (then_line l rest) (suc n)
      ≡ some (record { status = too_long; buf = take (suc n) l; rest = rest })
unfolding terminal get_string
get_string-long l rest n h lt = rw (line_of-cut (suc n) l rest h lt) (
    after_line-long terminal (take (suc n) l) (then_line (drop (suc n) l) rest) (take-ne-nil n l lt)
      (last_byte-take n l h lt)
    ∙ rw (
        consume-line (length (then_line (drop (suc n) l) rest) + 1) (drop (suc n) l) rest
          (IsLine-drop (suc n) l h)
          (omega (arith, length-append (drop (suc n) l) (newline ∷ rest)))))

-- At a terminal, `get_string(buf, sz)` with 0 < sz takes the waiting line off the input whatever its
-- length. A line of fewer than `sz` bytes is stored with '\0' for its new line, and the status is
-- NO_INPUT exactly where the stored C string is empty, else OK; any longer line is TOO_LONG.
pub get_string-line :
    (l rest : Bytes) (sz : ℕ)
    → IsLine l
    → 0 < sz
    → get_string terminal (then_line l rest) sz
      ≡ some (
          if ltb (length l) sz
          then line_reply l rest
          else record { status = too_long; buf = take sz l; rest = rest })
get_string-line l rest zero h lt = absurd (omega arith)
get_string-line l rest (suc n) h lt = elim (Bool-cases (ltb (length l) (suc n))) [
  | inl short ↦ rw short (get_string-short l rest (suc n) h (ltb→lt _ _ short))
  | inr long ↦ rw long (get_string-long l rest n h (ground arith))
]
