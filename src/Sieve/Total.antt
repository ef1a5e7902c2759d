-- ===== src/Sieve/Total.antt =====
-- mtsieve/mtsieve.c: the total over all threads.
use cs.Prelude.{
  ltb→lt, ℕ, zero, suc, ◌+◌, ◌-◌, ◌*◌, ◌/◌, ◌%◌, ◌≤◌, ◌<◌, ◌≡◌, ◌≢◌, ◌↔◌, refl, sym, ◌∙◌, ap, Bool,
  true, false, ◌&&◌, List, ltb, arith, All, Bool-cases, inl, inr,
}
use cs.Sieve.{Flags, sieve, targs, segments, segments_of}
use cs.Sieve.Low.{IsPrime}
use cs.Sieve.Count.{how_many, shows_threes, sieve-how_many}
use cs.Sieve.Segments.{division}
use cs.Sieve.Main.{total_count}

how_many-append :
    (p : ℕ → Bool) (s m n : ℕ) → how_many p s (m + n) ≡ how_many p s m + how_many p (s + m) n
unfolding how_many
how_many-append p s zero n =
    let e : s + 0 ≡ s = omega arith in let z : 0 + n ≡ n = omega arith in rw (z, e) (omega arith)
how_many-append p s (suc m) n =
    let z : suc m + n ≡ suc (m + n) = omega arith in
    let e : s + suc m ≡ suc s + m = omega arith in
    rw (z, e) (ground (arith, how_many-append p (suc s) m n))

-- No segment ends at the square of a prime.
abbrev pub NoSquares : List (ℕ × ℕ) → Type 0
NoSquares = All (λ s. (q : ℕ) → IsPrime q → s.1 ≢ q * q)

module _ (heap : ℕ → Flags) (clear : (k y : ℕ) → y < 2 → heap k y ≡ false) (prime : ℕ → Bool) where
  abbrev wanted : ℕ → Bool
  wanted m = prime m && shows_threes m

  abbrev Tests : ℕ → ℕ → Type 0
  Tests start stop = (n : ℕ) → start ≤ n → n < stop → (prime n ≡ true) ↔ IsPrime n

  segment-how_many :
      (k start end m : ℕ)
      → 2 ≤ start
      → end + 1 ≡ start + suc m
      → Tests start (end + 1)
      → ((q : ℕ) → IsPrime q → end ≢ q * q)
      → sieve start end (heap k) ≡ how_many wanted start (suc m)
  segment-how_many k start end m h e test square =
      sieve-how_many start end (heap k) prime (clear k) h (omega arith)
        (λ n l r. test n l (omega arith)) square
      ∙ ap (how_many wanted start) (omega arith)

  -- One segment and the rest.
  total_step :
      (k start end w v whole rest : ℕ)
      → sieve start end (heap k) ≡ how_many wanted start w
      → end + 1 ≡ start + w
      → w + v ≡ whole
      → rest ≡ how_many wanted (end + 1) v
      → sieve start end (heap k) + rest ≡ how_many wanted start whole
  total_step k start end w v whole rest first e f others =
      rw (first, others, e, ← f) (sym (how_many-append wanted start w v))

  targs-how_many :
      (m n remainder k start end : ℕ)
      → 2 ≤ start
      → end + 1 ≡ start + suc m
      → remainder ≤ n
      → Tests start (start + (n * suc m + remainder))
      → NoSquares (targs n (suc m) remainder start end)
      → total_count heap k (targs n (suc m) remainder start end)
        ≡ how_many wanted start (n * suc m + remainder)
  unfolding total_count targs
  targs-how_many m zero remainder k start end h e r test square =
      let z : zero * suc m + remainder ≡ 0 = omega arith in rw z (unfold how_many in refl)
  targs-how_many m (suc n) remainder k start end h e r test square =
      elim (Bool-cases (ltb 0 remainder)) [
        | inl some_left ↦
            let more : 0 < remainder = ltb→lt 0 remainder some_left in
            let squares = rw some_left at square in
            rw some_left (
              total_step k start (end + 1) (suc (suc m)) (n * suc m + (remainder - 1))
                (suc n * suc m + remainder) _
                (segment-how_many k start (end + 1) (suc m) h (omega arith)
                  (λ x l u. test x l (omega arith)) squares.0)
                (omega arith) (omega arith)
                (targs-how_many m n (remainder - 1) (suc k) (end + 1 + 1) (end + 1 + 1 + suc m - 1)
                  (omega arith) (omega arith) (omega arith)
                  (λ x l u. test x (omega arith) (omega arith)) squares.1))
        | inr none_left ↦
            let none : remainder ≡ 0 = ground arith in
            let squares = rw none_left at square in
            rw none_left (
              total_step k start end (suc m) (n * suc m + (remainder - 1))
                (suc n * suc m + remainder) _
                (segment-how_many k start end m h e (λ x l u. test x l (omega arith)) squares.0) e
                (omega arith)
                (targs-how_many m n (remainder - 1) (suc k) (end + 1) (end + 1 + suc m - 1)
                  (omega arith) (omega arith) (omega arith)
                  (λ x l u. test x (omega arith) (omega arith)) squares.1))
      ]

-- The total of `main`, over all its threads, for a range from `a` to `b` with 2 <= a <= b: if every
-- `malloc` leaves 0 in the flags 0 and 1 and no segment ends at the square of a prime, then it is the number of primes
-- from `a` to `b` whose decimal form has two or more digits 3, whatever the number of threads.
pub total_count-how_many :
    (heap : ℕ → Flags) (clear : (k y : ℕ) → y < 2 → heap k y ≡ false) (prime : ℕ → Bool) (a b t : ℕ)
    → 2 ≤ a
    → a ≤ b
    → 1 ≤ t
    → ((n : ℕ) → a ≤ n → n ≤ b → (prime n ≡ true) ↔ IsPrime n)
    → NoSquares (segments a b t)
    → total_count heap 0 (segments a b t) ≡ how_many (λ m. prime m && shows_threes m) a (b - a + 1)
unfolding segments
total_count-how_many heap clear prime a b t h l k test square =
    let n = segments_of a b t in
    let at_least_one : 1 ≤ n = ground arith in
    let at_most : n ≤ b - a + 1 = ground arith in
    let (len, less, whole) = division (b - a + 1) n at_least_one at_most in
    shared ((b - a + 1) / n) n ((b - a + 1) % n) len (omega arith) whole square
  where
    shared :
        (len n remainder : ℕ)
        → 1 ≤ len
        → remainder ≤ n
        → n * len + remainder ≡ b - a + 1
        → NoSquares (targs n len remainder a (a + len - 1))
        → total_count heap 0 (targs n len remainder a (a + len - 1))
          ≡ how_many (λ m. prime m && shows_threes m) a (b - a + 1)
    shared zero n remainder p r e s = absurd (omega arith)
    shared (suc m) n remainder p r e s =
        targs-how_many heap clear prime m n remainder 0 a (a + suc m - 1) h (omega arith) r
          (λ x u v. test x u (omega arith)) s
        ∙ ap (how_many (λ m. prime m && shows_threes m) a) e
