-- ===== src/Sieve/Digits.antt =====
-- mtsieve/mtsieve.c: the loop over the digits, against the decimal form.
use cs.Prelude.{
  ℕ, zero, suc, ◌+◌, ◌/◌, ◌%◌, ◌≡◌, refl, ◌∙◌, true, [], ◌∷◌, ◌++◌, Bytes, ltb, leb, ◌==◌,
  if◌then◌else◌, arith, Bool-cases, inl, inr,
}
use cs.Util.Show.{digit, decimal, show_ℕ}
use cs.Sieve.{count_threes, two_threes}

unfoldable pub occurrences : ℕ → Bytes → ℕ
occurrences c [] = 0
occurrences c (x ∷ s) = let rest = occurrences c s in if x == c then suc rest else rest

occurrences-append :
    (c x : ℕ) (s : Bytes)
    → occurrences c (s ++ x ∷ []) ≡ (if x == c then suc (occurrences c s) else occurrences c s)
unfolding occurrences
occurrences-append c x [] = refl
occurrences-append c x (y ∷ s) = ground (arith, occurrences-append c x s)

count_threes-zero : (fuel counter : ℕ) → count_threes fuel 0 counter ≡ counter
unfolding count_threes
count_threes-zero zero counter = refl
count_threes-zero (suc fuel) counter = refl

count_threes-decimal :
    (fuel n counter : ℕ)
    → ltb 1 (count_threes fuel n counter) ≡ ltb 1 (counter + occurrences b'3' (decimal fuel n))
unfolding count_threes decimal occurrences
count_threes-decimal zero n counter = ground arith
count_threes-decimal (suc fuel) n counter = elim (Bool-cases (ltb n 10)) [
  | inl small ↦
      let no_front : n / 10 ≡ 0 = ground arith in
      let last : n % 10 ≡ n = ground arith in
      rw (small, no_front, last, count_threes-zero) (ground arith)
  | inr big ↦
      let next : ℕ = if n % 10 == 3 then suc counter else counter in
      let more : ltb 0 n ≡ true = ground arith in
      rw (big, more, occurrences-append b'3' (digit (n % 10)) (decimal fuel (n / 10)))
        (elim (Bool-cases (ltb counter 2)) [
          | inl few ↦ rw few (count_threes-decimal fuel (n / 10) next ∙ ground arith)
          | inr enough ↦ rw enough (ground arith)
        ])
]

-- The loop that stops at the second digit 3 finds two exactly where the decimal form of the number has
-- two or more.
pub two_threes-show : (n : ℕ) → two_threes n ≡ leb 2 (occurrences b'3' (show_ℕ n))
unfolding show_ℕ two_threes
two_threes-show n = count_threes-decimal (suc n) n 0 ∙ ground arith
