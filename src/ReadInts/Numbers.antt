-- ===== src/ReadInts/Numbers.antt =====
-- 392/Creadins/readints.c: the numbers that are printed.
use cs.Prelude.{
  ◌++◌, ==_ne, ℕ, zero, suc, ◌+◌, ◌*◌, ◌/◌, ◌%◌, ◌^◌, ◌≤◌, ◌<◌, ◌≡◌, ◌≢◌, refl, ◌∙◌, ap, true,
  false, Option, none, some, List, [], ◌∷◌, map, Bytes, length, ltb, arith, All, Bool-cases, inl,
  inr, length-append,
}
use cs.Prelude.Int.{ℤ, pos, negsuc, InInt32}
use cs.Util.{is_digit, all_digits, is_integer, sscanf_lld, parse_int, store_int}
use cs.Util.Show.{show_ℕ, show, decimal, all_digits-show_ℕ}
use cs.Util.ParseInt.{parse_int-show}
use cs.Util.Input.{cstr}
use cs.SortFile.Lines.{IsLine, file_of, read_lines-file_of}
use cs.ReadInts.{
  bufsize, convert, get_integer, Out, number, report, for_line, for_lines, prints, main,
}

-- `10 * 10 ^ k`
bound : ℕ → ℕ
bound zero = 10
bound (suc k) = 10 * bound k

length-decimal : (k f n : ℕ) → n < bound k → length (decimal f n) ≤ suc k
unfolding decimal bound
length-decimal k zero n h = omega arith
length-decimal zero (suc f) n h = ground (arith, h)
length-decimal (suc k) (suc f) n h = elim (Bool-cases (ltb n 10)) [
  | inl small ↦ rw small (omega arith)
  | inr big ↦ rw big (
      omega (
        arith,
        length-append (decimal f (n / 10)) ((b'0' + n % 10) ∷ []),
        length-decimal k f (n / 10) (omega (arith, h)),
      ))
]

no_newline : (s : Bytes) → all_digits s ≡ true → All (λ c. c ≢ b'\n') s
unfolding all_digits is_digit
no_newline [] h = tt
no_newline (c ∷ s) h = (λ e. ground arith, no_newline s (ground (arith, h)))

show_ℕ-IsLine : (n : ℕ) → n ≤ 2 ^ 31 → IsLine 10 (show_ℕ n)
unfolding show_ℕ bound
show_ℕ-IsLine n h = record {
  plain = no_newline (show_ℕ n) (all_digits-show_ℕ n);
  short = length-decimal 9 (suc n) n (omega arith);
}

show-IsLine : (z : ℤ) → InInt32 z → IsLine bufsize (show z)
unfolding show
show-IsLine (pos n) h =
    let l = show_ℕ-IsLine n (omega arith) in
    record { plain = l.plain; short = omega (arith, l.short) }
show-IsLine (negsuc n) h =
    let l = show_ℕ-IsLine (suc n) (omega arith) in
    record { plain = ((λ e. ground arith), l.plain); short = omega (arith, l.short) }

convert-store :
    (i : ℤ) (o : Option ℤ) → (store_int i o).success ≡ true → convert i o ≡ store_int i o
convert-store i none h = absurd (ground arith)
convert-store i (some z) h = refl

-- Where `parse_int` of hw7/util.h succeeds, so do the two functions here, with its result.
pub parse_int-get_integer :
    (s : Bytes) (i : ℤ)
    → (parse_int s i).success ≡ true
    → (is_integer s ≡ true) × (get_integer s i ≡ parse_int s i)
unfolding parse_int
parse_int-get_integer [] i h = absurd (ground arith)
parse_int-get_integer (c ∷ s) i h = elim (Bool-cases (is_integer (c ∷ s))) [
  | inl e ↦ (e, rw e (convert-store i (sscanf_lld (c ∷ s)) (rw e at h)))
  | inr e ↦ absurd (ground (arith, e, h))
]

-- A line of the file: a number, or a text that as a C string is not an integer.
pub data Line : Type 0 where
  numeral : ℤ → Line
  text : Bytes → Line

abbrev pub render : Line → Bytes
render (numeral z) = show z
render (text t) = t

abbrev pub IsGood : Line → Type 0
IsGood (numeral z) = InInt32 z
IsGood (text t) = IsLine bufsize t × (is_integer (cstr t) ≡ false)

abbrev pub numbers : List Line → List Out
numbers [] = []
numbers (numeral z ∷ lines) = number z ∷ numbers lines
numbers (text t ∷ lines) = numbers lines

render-IsLine : (lines : List Line) → All IsGood lines → All (IsLine bufsize) (map render lines)
render-IsLine [] g = tt
render-IsLine (numeral z ∷ lines) g = (show-IsLine z g.0, render-IsLine lines g.1)
render-IsLine (text t ∷ lines) g = (g.0.0, render-IsLine lines g.1)

cstr-digits : (s : Bytes) → all_digits s ≡ true → cstr s ≡ s
unfolding cstr all_digits is_digit
cstr-digits [] h = refl
cstr-digits (c ∷ s) h =
    rw (==_ne c 0 (λ e. ground (arith, e, h))) (ap (◌∷◌ c) (cstr-digits s (ground (arith, h))))

cstr-show : (z : ℤ) → cstr (show z) ≡ show z
unfolding show show_ℕ cstr
cstr-show (pos n) = cstr-digits (show_ℕ n) (all_digits-show_ℕ n)
cstr-show (negsuc n) = ap (◌∷◌ b'-') (cstr-digits (show_ℕ (suc n)) (all_digits-show_ℕ (suc n)))

for_line-show : (val z : ℤ) → InInt32 z → for_line val (show z) ≡ number z ∷ []
for_line-show val z h =
    let e = parse_int-show z val h in
    let (d, f) = parse_int-get_integer (show z) val (ap (λ p. p.success) e) in
    rw d (ap (report (show z)) (f ∙ e))

for_lines-numbers :
    (val : ℤ) (lines : List Line)
    → All IsGood lines
    → for_lines val (map cstr (map render lines)) ≡ numbers lines
unfolding for_lines
for_lines-numbers val [] g = refl
for_lines-numbers val (numeral z ∷ lines) g =
    ap (λ b. for_line val b ++ for_lines val (map cstr (map render lines))) (cstr-show z)
    ∙ rw (for_line-show val z g.0, for_lines-numbers val lines g.1) refl
for_lines-numbers val (text t ∷ lines) g = rw g.0.1 (for_lines-numbers val lines g.1)

-- From a file with an `int` in decimal or a text that is no integer as a C string on each line, the program prints the
-- numbers in their order and nothing else, whatever was on its stack.
pub main-numbers :
    (fopen : Bytes → Option Bytes) (val : ℤ) (name : Bytes) (lines : List Line)
    → fopen name ≡ some (file_of (map render lines))
    → All IsGood lines
    → main fopen val (name ∷ []) ≡ prints (numbers lines)
unfolding main
main-numbers fopen val name lines o g =
    let back =
      read_lines-file_of bufsize (length (file_of (map render lines))) (map render lines)
        (render-IsLine lines g) (omega arith) in
    rw (main, o) (ap prints (ap (for_lines val) back ∙ for_lines-numbers val lines g))
