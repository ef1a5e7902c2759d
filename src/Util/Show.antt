-- ===== src/Util/Show.antt =====
-- Decimal printing, the independent description that `parse_int` of hw7/util.h is held against.
use cs.Prelude.{
  ℕ, zero, suc, ◌+◌, ◌-◌, ◌*◌, ◌/◌, ◌%◌, ◌<◌, ◌≡◌, refl, true, [], ◌∷◌, ◌++◌, Bytes, ltb,
  if◌then◌else◌, arith, ◌∙◌, Bool-cases, inl, inr, ◌≢◌,
}
use cs.Prelude.Int.{ℤ, pos, negsuc}
use cs.Util.{is_digit, all_digits, scan_digits}

-- The decimal digits of `n`, with fuel above the number of digits.
abbrev pub digit : ℕ → ℕ
digit d = b'0' + d

unfoldable pub decimal : ℕ → ℕ → Bytes
decimal zero n = []
decimal (suc f) n =
    let front = decimal f (n / 10) in
    if ltb n 10 then digit n ∷ [] else front ++ digit (n % 10) ∷ []

unfoldable pub show_ℕ : ℕ → Bytes
unfolding decimal
show_ℕ n = decimal (suc n) n

-- `%d`
unfoldable pub show : ℤ → Bytes
unfolding show_ℕ
show (pos n) = show_ℕ n
show (negsuc n) = b'-' ∷ show_ℕ (suc n)

is_digit-digit : (d : ℕ) → d < 10 → is_digit (digit d) ≡ true
unfolding is_digit
is_digit-digit d h = ground arith

all_digits-append :
    (s : Bytes) (d : ℕ) → d < 10 → all_digits s ≡ true → all_digits (s ++ digit d ∷ []) ≡ true
unfolding all_digits
all_digits-append [] d h a = ground arith
all_digits-append (c ∷ s) d h a = ground (arith, all_digits-append s d h)

scan_digits-append :
    (acc : ℕ) (s : Bytes) (d : ℕ)
    → d < 10
    → all_digits s ≡ true
    → scan_digits acc (s ++ digit d ∷ []) ≡ scan_digits acc s * 10 + d
unfolding scan_digits all_digits
scan_digits-append acc [] d h a = ground arith
scan_digits-append acc (c ∷ s) d h a =
    ground (arith, scan_digits-append (acc * 10 + (c - b'0')) s d h)

all_digits-decimal : (f n : ℕ) → all_digits (decimal f n) ≡ true
unfolding decimal
all_digits-decimal zero n = unfold all_digits in refl
all_digits-decimal (suc f) n = elim (Bool-cases (ltb n 10)) [
  | inl small ↦ rw small (all_digits-append [] n (ground arith) (unfold all_digits in refl))
  | inr big ↦ rw big (
      all_digits-append (decimal f (n / 10)) (n % 10) (omega arith) (all_digits-decimal f (n / 10)))
]

scan_digits-decimal : (f n : ℕ) → n < f → scan_digits 0 (decimal f n) ≡ n
unfolding decimal
scan_digits-decimal zero n h = absurd (omega arith)
scan_digits-decimal (suc f) n h = elim (Bool-cases (ltb n 10)) [
  | inl small ↦ rw small (unfold scan_digits in ground arith)
  | inr big ↦ rw big (
      scan_digits-append 0 (decimal f (n / 10)) (n % 10) (omega arith)
        (all_digits-decimal f (n / 10))
      ∙ omega (arith, scan_digits-decimal f (n / 10) (ground arith)))
]

pub all_digits-show_ℕ : (n : ℕ) → all_digits (show_ℕ n) ≡ true
unfolding show_ℕ
all_digits-show_ℕ n = all_digits-decimal (suc n) n

pub scan_digits-show_ℕ : (n : ℕ) → scan_digits 0 (show_ℕ n) ≡ n
unfolding show_ℕ
scan_digits-show_ℕ n = scan_digits-decimal (suc n) n (omega arith)

snoc_ne_nil : (s : Bytes) (d : ℕ) → (s ++ d ∷ []) ≢ []
snoc_ne_nil [] d e = cc
snoc_ne_nil (x ∷ s) d e = cc

pub show_ℕ-ne-nil : (n : ℕ) → show_ℕ n ≢ []
unfolding show_ℕ
show_ℕ-ne-nil n e = elim (Bool-cases (ltb n 10)) [
  | inl small ↦ absurd (ground arith)
  | inr big ↦ absurd (ground (arith, snoc_ne_nil (decimal n (n / 10)) (b'0' + n % 10)))
]
