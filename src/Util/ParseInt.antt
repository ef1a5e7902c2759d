-- ===== src/Util/ParseInt.antt =====
-- hw7/util.h: `parse_int` against decimal printing, and what it refuses.
use cs.Prelude.{
  ℕ, suc, ◌≤◌, ◌≡◌, refl, Bool, true, false, Option, none, some, [], ◌∷◌, ◌⊎◌, Bytes, ◌==◌,
  if◌then◌else◌, arith, Bool-cases, inl, inr, sym, ◌≢◌, ◌↔◌, All,
}
use cs.Prelude.Int.{ℤ, pos, negsuc, wrap32, InInt32, wrap32_self, wrap32-InInt32, eq_ℤ, eq_ℤ→eq}
use cs.Util.{
  is_digit, all_digits, scan_digits, clamp64, scan_number, sscanf_lld, is_integer, empty_input,
  invalid_input, overflow, parse_int, store_int,
}
use cs.Util.Show.{show_ℕ, show, all_digits-show_ℕ, scan_digits-show_ℕ, show_ℕ-ne-nil}

-- A number's digits, seen from the front.
record Front (n : ℕ) (c : ℕ) (s : Bytes) : Type 0 where
  shown : show_ℕ n ≡ c ∷ s
  first : is_digit c ≡ true
  digits : all_digits (c ∷ s) ≡ true
  scanned : scan_digits 0 (c ∷ s) ≡ n

show_ℕ-Front_of : (n : ℕ) (t : Bytes) → show_ℕ n ≡ t → t ≢ [] → (c : ℕ) × (s : Bytes) × Front n c s
show_ℕ-Front_of n [] e h = absurd (h refl)
show_ℕ-Front_of n (c ∷ s) e h = (
  c,
  s,
  record {
    shown = e;
    first = unfold all_digits in ground (arith, all);
    digits = all;
    scanned = rw e at (scan_digits-show_ℕ n);
  },
)
  where
    all : all_digits (c ∷ s) ≡ true
    all = rw e at (all_digits-show_ℕ n)

front : (n : ℕ) → (c : ℕ) × (s : Bytes) × Front n c s
front n = show_ℕ-Front_of n (show_ℕ n) refl (show_ℕ-ne-nil n)

-- The `long long` that sscanf reads back.
abbrev clamped : ℤ → ℤ
clamped (pos n) = clamp64 false n
clamped (negsuc n) = clamp64 true (suc n)

-- The three calls of `parse_int` at a text that begins with these digits.
module _ {n c : ℕ} {s : Bytes} (f : Front n c s) where
  scan_number-digits : (negative : Bool) → scan_number negative (c ∷ s) ≡ some (clamp64 negative n)
  unfolding scan_number
  scan_number-digits negative = rw (f.first, f.scanned)

  sscanf_lld-digits : sscanf_lld (c ∷ s) ≡ some (clamp64 false n)
  unfolding sscanf_lld is_digit
  sscanf_lld-digits = ground (arith, scan_number-digits false, f.first)

  sscanf_lld-minus : sscanf_lld (b'-' ∷ c ∷ s) ≡ some (clamp64 true n)
  unfolding sscanf_lld
  sscanf_lld-minus = scan_number-digits true

  is_integer-digits : is_integer (c ∷ s) ≡ true
  unfolding is_integer
  is_integer-digits = ground (arith, f.digits)

  is_integer-minus : is_integer (b'-' ∷ c ∷ s) ≡ true
  unfolding is_integer
  is_integer-minus = ground (arith, f.digits)

parse_int-clamped : (z i : ℤ) → parse_int (show z) i ≡ store_int i (some (clamped z))
unfolding parse_int show
parse_int-clamped (pos n) i =
    let (c, s, f) = front n in rw (f.shown, is_integer-digits f, sscanf_lld-digits f)
parse_int-clamped (negsuc n) i =
    let (c, s, f) = front (suc n) in rw (f.shown, is_integer-minus f, sscanf_lld-minus f)

-- Printing an `int` in decimal and reading it back with `parse_int` gives the number, stores it
-- and prints no message.
pub parse_int-show :
    (z i : ℤ)
    → InInt32 z
    → parse_int (show z) i ≡ record { success = true; value = z; complaint = none }
parse_int-show (pos n) i h = rw (parse_int-clamped (pos n) i) (ground (arith, wrap32_self (pos n)))
parse_int-show (negsuc n) i h =
    rw (parse_int-clamped (negsuc n) i) (ground (arith, wrap32_self (negsuc n)))

-- The decimal form of any integer outside the range of `int`, however large, is refused with the
-- overflow message.
pub parse_int-overflow :
    (z i : ℤ)
    → ¬ InInt32 z
    → ((parse_int (show z) i).success ≡ false) × ((parse_int (show z) i).complaint ≡ some overflow)
parse_int-overflow (pos n) i h =
    rw (parse_int-clamped (pos n) i) (ground (arith, wrap32-InInt32 (pos n)))
parse_int-overflow (negsuc n) i h =
    rw (parse_int-clamped (negsuc n) i) (ground (arith, wrap32-InInt32 (negsuc n)))

abbrev pub AllDigits : Bytes → Type 0
AllDigits = All (λ c. (b'0' ≤ c) × (c ≤ b'9'))

-- An optional minus sign and at least one digit.
abbrev pub IsNumeral : Bytes → Type 0
IsNumeral [] = ⊥
IsNumeral (c ∷ s) = AllDigits (c ∷ s) ⊎ ((c ≡ b'-') × (s ≢ []) × AllDigits s)

all_digits→AllDigits : (s : Bytes) → all_digits s ≡ true → AllDigits s
unfolding all_digits
all_digits→AllDigits [] h = tt
all_digits→AllDigits (c ∷ s) h = (ground arith, all_digits→AllDigits s (ground arith))

AllDigits→all_digits : (s : Bytes) → AllDigits s → all_digits s ≡ true
unfolding all_digits
AllDigits→all_digits [] h = refl
AllDigits→all_digits (c ∷ s) h = ground (arith, AllDigits→all_digits s h.1)

is_integer→IsNumeral : (c : ℕ) (s : Bytes) → is_integer (c ∷ s) ≡ true → IsNumeral (c ∷ s)
unfolding is_integer
is_integer→IsNumeral c [] h = inl (all_digits→AllDigits (c ∷ []) (ground arith))
is_integer→IsNumeral c (d ∷ s) h = elim (Bool-cases (c == b'-')) [
  | inl e ↦ inr (ground arith, λ q. cc, all_digits→AllDigits (d ∷ s) (ground arith))
  | inr e ↦ inl (all_digits→AllDigits (c ∷ d ∷ s) (ground arith))
]

IsNumeral→is_integer : (c : ℕ) (s : Bytes) → IsNumeral (c ∷ s) → is_integer (c ∷ s) ≡ true
unfolding is_integer
IsNumeral→is_integer c s (inl d) = ground (arith, AllDigits→all_digits (c ∷ s) d)
IsNumeral→is_integer c [] (inr (e, ne, d)) = absurd (ne refl)
IsNumeral→is_integer c (x ∷ s) (inr (e, ne, d)) = ground (arith, AllDigits→all_digits (x ∷ s) d)

-- `is_integer` accepts exactly the empty text and the texts of an optional minus sign before one or
-- more decimal digits.
pub is_integer_iff : (s : Bytes) → (is_integer s ≡ true) ↔ ((s ≡ []) ⊎ IsNumeral s)
is_integer_iff [] = (λ h. inl refl, λ h. unfold is_integer in refl)
is_integer_iff (c ∷ s) = (
  λ h. inr (is_integer→IsNumeral c s h),
  λ h. elim h [ inl e ↦ cc | inr n ↦ IsNumeral→is_integer c s n ],
)

-- Whatever the branch: a success stores an `int`, and a failed scan stores nothing.
store_int-success :
    (i : ℤ) (o : Option ℤ) → (store_int i o).success ≡ true → InInt32 (store_int i o).value
store_int-success i none h = cc
store_int-success i (some z) h = elim (Bool-cases (eq_ℤ z (wrap32 z))) [
  | inl e ↦ rw e (let q = eq_ℤ→eq z (wrap32 z) e in rw q at (wrap32-InInt32 z (sym q)))
  | inr e ↦ absurd (ground arith)
]

store_int-success_some :
    (i : ℤ) (b : Bool) (o : Option ℤ)
    → (store_int i (if b then o else none)).success ≡ true
    → b ≡ true
store_int-success_some i true o h = refl
store_int-success_some i false o h = cc

-- What `parse_int` accepts is a numeral, and the number that it stores then is an `int`.
pub parse_int-IsNumeral :
    (s : Bytes) (i : ℤ)
    → (parse_int s i).success ≡ true
    → IsNumeral s × InInt32 (parse_int s i).value
unfolding parse_int
parse_int-IsNumeral [] i h = cc
parse_int-IsNumeral (c ∷ s) i h = (
  is_integer→IsNumeral c s (store_int-success_some i _ (sscanf_lld (c ∷ s)) h),
  store_int-success i (if is_integer (c ∷ s) then sscanf_lld (c ∷ s) else none) h,
)

-- A text that is no numeral is refused, the variable is left as it was, and the message is that of
-- an empty or of an invalid input.
pub parse_int_refuses :
    (s : Bytes) (i : ℤ)
    → ¬ IsNumeral s
    → parse_int s i ≡ record {
      success = false;
      value = i;
      complaint = some (elim s [ [] ↦ empty_input | c ∷ t ↦ invalid_input ]);
    }
unfolding parse_int
parse_int_refuses [] i h = refl
parse_int_refuses (c ∷ s) i h = elim (Bool-cases (is_integer (c ∷ s))) [
  | inl e ↦ absurd (h (is_integer→IsNumeral c s e))
  | inr e ↦ rw e
]
