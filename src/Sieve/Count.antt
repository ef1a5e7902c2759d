-- ===== src/Sieve/Count.antt =====
-- mtsieve/mtsieve.c: what a thread adds to `total_count`.
use cs.Prelude.{
  sym, ℕ, zero, suc, ◌+◌, ◌-◌, ◌*◌, ◌≤◌, ◌<◌, ◌≡◌, ◌≢◌, ◌↔◌, refl, ◌∙◌, ap, Bool, true, false, ◌&&◌,
  leb, if◌then◌else◌, arith, Bool-cases, inl, inr,
}
use cs.Util.Show.{show_ℕ}
use cs.Sieve.{Flags, count_flags, high_primes, sieve}
use cs.Sieve.Low.{IsComposite, IsPrime}
use cs.Sieve.Primes.{high_primes-prime, high_primes-composite}
use cs.Sieve.Digits.{occurrences, two_threes-show}

-- How many of the `n` numbers from `start` on satisfy `p`.
unfoldable pub how_many : (ℕ → Bool) → ℕ → ℕ → ℕ
how_many p start zero = 0
how_many p start (suc n) = let rest = how_many p (suc start) n in if p start then suc rest else rest

abbrev pub shows_threes : ℕ → Bool
shows_threes m = leb 2 (occurrences b'3' (show_ℕ m))

count_flags-how_many :
    (prime : ℕ → Bool) (a n i : ℕ) (high : Flags)
    → ((x : ℕ) → i ≤ x → x < i + n → high x ≡ prime (a + x))
    → count_flags a n i high ≡ how_many (λ m. prime m && shows_threes m) (a + i) n
unfolding count_flags how_many
count_flags-how_many prime a zero i high h = refl
count_flags-how_many prime a (suc n) i high h =
    let swap : i + a ≡ a + i = omega arith in
    let next : suc (a + i) ≡ a + suc i = omega arith in
    let flag = h i (omega arith) (omega arith) in
    let rest =
      count_flags-how_many prime a n (suc i) high (λ x l r. h x (omega arith) (omega arith)) in
    rw (swap, next, flag, two_threes-show, rest) (ground arith)

-- The thread of the segment from `a` to `b`, where 2 <= a <= b and `malloc` left 0 in the flags 0 and 1, counts exactly
-- the primes of the segment whose decimal form has two or more digits 3, unless `b` is the square of
-- a prime. Here `prime` is any test for the primes of the segment.
pub sieve-how_many :
    (a b : ℕ) (heap : Flags) (prime : ℕ → Bool)
    → ((y : ℕ) → y < 2 → heap y ≡ false)
    → 2 ≤ a
    → a ≤ b
    → ((n : ℕ) → a ≤ n → n ≤ b → (prime n ≡ true) ↔ IsPrime n)
    → ((q : ℕ) → IsPrime q → b ≢ q * q)
    → sieve a b heap ≡ how_many (λ m. prime m && shows_threes m) a (b - a + 1)
unfolding sieve
sieve-how_many a b heap prime clear from_two ordered test no_square =
    count_flags-how_many prime a (b - a + 1) 0 (high_primes a b heap)
      (λ x l r. agree x (omega arith))
    ∙ ap (λ s. how_many (λ m. prime m && shows_threes m) s (b - a + 1)) (omega arith)
  where
    agree : (x : ℕ) → x < b - a + 1 → high_primes a b heap x ≡ prime (a + x)
    agree x lt = elim (Bool-cases (prime (a + x))) [
      | inl is ↦
          high_primes-prime a b heap clear from_two ordered x lt
            ((test (a + x) (omega arith) (omega arith)).0 is)
          ∙ sym is
      | inr is_not ↦ elim (Bool-cases (high_primes a b heap x)) [
        | inr gone ↦ gone ∙ sym is_not
        | inl kept ↦
            let composite_free : ¬ IsComposite (a + x) = λ c.
              let (q, p, end, square) =
                high_primes-composite a b heap clear from_two ordered x lt kept c in
              no_square q p square in
            let is = (test (a + x) (omega arith) (omega arith)).1 (omega arith, composite_free) in
            absurd (ground (arith, is, is_not))
      ]
    ]
