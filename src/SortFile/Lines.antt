-- ===== src/SortFile/Lines.antt =====
-- 392/Quciksort/sort.c: the lines that are read.
use cs.Prelude.{
  ℕ, zero, suc, ◌+◌, ◌-◌, ◌*◌, ◌≤◌, ◌<◌, ◌≡◌, ◌≢◌, refl, sym, ◌∙◌, ap, Bool, true, false, none,
  some, List, [], ◌∷◌, ◌++◌, map, Bytes, length, arith, All, length-append, ==_ne, ◌==◌, take,
  Bool-cases, inl, inr, ◌⊎◌, if◌then◌else◌,
}
use cs.Prelude.Int.{ℤ, pos, wrap32}
use cs.Util.{clamp64, is_digit, scan_digits, scan_number, sscanf_lld, atoi}
use cs.Util.Input.{cstr}
use cs.SortFile.{fgets, before_newline, end_string, read_lines}

-- A line of a file: no newline, at most `n` bytes.
pub record IsLine (n : ℕ) (line : Bytes) : Type 0 where
  pub plain : All (λ c. c ≢ b'\n') line
  pub short : length line ≤ n

-- The file with these lines, each with a newline behind it.
abbrev pub file_of : List Bytes → Bytes
file_of [] = []
file_of (line ∷ lines) = line ++ b'\n' ∷ file_of lines

fgets-line :
    (room : ℕ) (line rest : Bytes)
    → All (λ c. c ≢ b'\n') line
    → length line < room
    → fgets room (line ++ b'\n' ∷ rest) ≡ (line ++ b'\n' ∷ [], rest)
unfolding fgets
fgets-line zero line rest p l = absurd (omega arith)
fgets-line (suc room) [] rest p l = refl
fgets-line (suc room) (c ∷ line) rest p l =
    rw (==_ne c b'\n' p.0, fgets-line room line rest p.1 (omega arith)) refl

-- strchr finds the end of the line, or a '\0' before it.
before_newline-line :
    (n : ℕ) (line : Bytes)
    → All (λ c. c ≢ b'\n') line
    → length line ≤ n
    → (before_newline (line ++ b'\n' ∷ []) ≡ some (cstr line))
      ⊎ ((before_newline (line ++ b'\n' ∷ []) ≡ none)
          × (cstr (take n (line ++ b'\n' ∷ [])) ≡ cstr line))
unfolding before_newline cstr
before_newline-line n [] p l = inl refl
before_newline-line zero (c ∷ line) p l = absurd (omega (arith, l))
before_newline-line (suc n) (c ∷ line) p l = elim (Bool-cases (c == 0)) [
  | inl zero_byte ↦ inr (rw zero_byte refl, rw zero_byte refl)
  | inr other ↦ elim (before_newline-line n line p.1 (omega (arith, l))) [
    | inl found ↦ inl (rw (other, ==_ne c b'\n' p.0, found) refl)
    | inr (none_found, cut) ↦
        inr (rw (other, ==_ne c b'\n' p.0, none_found) refl, rw (other, cut) refl)
  ]
]

end_string-line :
    (n : ℕ) (line : Bytes) → IsLine n line → end_string n (line ++ b'\n' ∷ []) ≡ cstr line
end_string-line n line p = elim (before_newline-line n line p.plain p.short) [
  | inl found ↦ rw (end_string, found) refl
  | inr (none_found, cut) ↦ rw (end_string, none_found) cut
]

read_one :
    (n fuel : ℕ) (line rest : Bytes)
    → IsLine n line
    → read_lines n (suc fuel) (line ++ b'\n' ∷ rest) ≡ cstr line ∷ read_lines n fuel rest
unfolding read_lines
read_one n fuel [] rest p =
    ap (λ r. end_string n r.0 ∷ read_lines n fuel r.1)
      (fgets-line (n + 1) [] rest p.plain (omega arith))
    ∙ ap (λ x. x ∷ read_lines n fuel rest) (end_string-line n [] p)
read_one n fuel (c ∷ line) rest p =
    ap (λ r. end_string n r.0 ∷ read_lines n fuel r.1)
      (fgets-line (n + 1) (c ∷ line) rest p.plain (omega (arith, p.short)))
    ∙ ap (λ x. x ∷ read_lines n fuel rest) (end_string-line n (c ∷ line) p)

-- Of a file with lines of at most `n` bytes, each with a newline, the C strings of the lines are read.
pub read_lines-file_of :
    (n fuel : ℕ) (lines : List Bytes)
    → All (IsLine n) lines
    → length (file_of lines) ≤ fuel
    → read_lines n fuel (file_of lines) ≡ map cstr lines
unfolding read_lines
read_lines-file_of n zero [] p l = refl
read_lines-file_of n (suc fuel) [] p l = refl
read_lines-file_of n zero (line ∷ lines) p l =
    absurd (omega (arith, l, length-append line (b'\n' ∷ file_of lines)))
read_lines-file_of n (suc fuel) (line ∷ lines) p l =
    read_one n fuel line (file_of lines) p.0
    ∙ ap (◌∷◌ (cstr line)) (
        read_lines-file_of n fuel lines p.1
          (omega (arith, l, length-append line (b'\n' ∷ file_of lines))))

-- The number at the front of a text stands before a '\0'.
scan_digits-cstr : (acc : ℕ) (s : Bytes) → scan_digits acc (cstr s) ≡ scan_digits acc s
unfolding cstr scan_digits is_digit
scan_digits-cstr acc [] = refl
scan_digits-cstr acc (c ∷ s) = ground (arith, scan_digits-cstr (acc * 10 + (c - b'0')) s)

cstr-suc : (c : ℕ) (s : Bytes) → cstr (suc c ∷ s) ≡ suc c ∷ cstr s
unfolding cstr
cstr-suc c s = rw (==_ne (suc c) 0 (λ e. omega arith)) refl

scan_number-cstr : (b : Bool) (s : Bytes) → scan_number b (cstr s) ≡ scan_number b s
unfolding cstr scan_number is_digit
scan_number-cstr b [] = refl
scan_number-cstr b (zero ∷ s) = refl
scan_number-cstr b (suc c ∷ s) =
    ap (scan_number b) (cstr-suc c s)
    ∙ ap (λ x. if is_digit (suc c) then some (clamp64 b x) else none)
        (ap (scan_digits 0) (sym (cstr-suc c s)) ∙ scan_digits-cstr 0 (suc c ∷ s))

no_number : (s : Bytes) → none ≡ scan_number false (zero ∷ s)
unfolding scan_number is_digit
no_number s = refl

sscanf_lld-cstr : (s : Bytes) → sscanf_lld (cstr s) ≡ sscanf_lld s
unfolding cstr sscanf_lld
sscanf_lld-cstr [] = refl
sscanf_lld-cstr (zero ∷ s) = no_number s
sscanf_lld-cstr (suc c ∷ s) =
    ap sscanf_lld (cstr-suc c s)
    ∙ rw
        (
          sscanf_lld-cstr s,
          scan_number-cstr true s,
          scan_number-cstr false s,
          ap (scan_number false) (sym (cstr-suc c s)) ∙ scan_number-cstr false (suc c ∷ s),
        )
        refl

pub atoi-cstr : (s : Bytes) → atoi (cstr s) ≡ atoi s
atoi-cstr s = ap (λ o. elim o as (λ x. ℤ) [ none ↦ pos 0 | some z ↦ wrap32 z ]) (sscanf_lld-cstr s)
