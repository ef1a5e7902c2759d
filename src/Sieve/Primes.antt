-- ===== src/Sieve/Primes.antt =====
-- mtsieve/mtsieve.c: the flags that a thread counts are those of the primes.
use cs.Prelude.{
  ℕ, ◌+◌, ◌-◌, ◌*◌, ◌≤◌, ◌<◌, ◌≡◌, sym, ◌∙◌, ap, true, false, arith, Bool-cases, inl, inr, dec_lt,
  dec_le,
}
use native.Mathlib.Nat.{mul-le-mul_left, mul-le-mul, mul_comm, mul_assoc, add-mul}
use cs.Sieve.{Flags, low_primes_limit, low_primes, high_primes_limit, high_primes}
use cs.Sieve.Low.{IsComposite, IsPrime, uncrossed_factor, low_primes-IsSieved, low_primes-ge_two}
use cs.Sieve.High.{
  sieve_high-source, sieve_high-hit, first_multiple-least, ceil_sqrt_from-le, limit_ge_two,
}

-- A multiple from the double on is composite.
multiple-IsComposite : (q m n : ℕ) → 2 ≤ q → 2 ≤ m → m * q ≡ n → IsComposite n
multiple-IsComposite q m n h k e = elim (dec_le m q) [
  | yes l ↦ (m, q, k, l, e)
  | no g ↦ (q, m, h, omega arith, mul_comm q m ∙ e)
]

multiple_at : (a x f c k q : ℕ) → a + f ≡ c * q → x ≡ f + k * q → (c + k) * q ≡ a + x
multiple_at a x f c k q first e = omega (arith, add-mul c k q)

index_of : (a x f c k q : ℕ) → a + f ≡ c * q → k * q ≡ a + x → c ≤ k → x ≡ f + (k - c) * q
index_of a x f c k q first e l =
    let parts : (c + (k - c)) * q ≡ k * q = ap (λ t. t * q) (omega arith) in
    omega (arith, add-mul c (k - c) q, parts)

module _ (a b : ℕ) (heap : Flags) (clear : (y : ℕ) → y < 2 → heap y ≡ false) (from_two : 2 ≤ a)
    (ordered : a ≤ b) where
  abbrev limit : ℕ
  limit = low_primes_limit b

  square : b ≤ limit * limit
  square = ceil_sqrt_from-le b 0 b (omega arith)

  limit_two : 2 ≤ limit
  limit_two = limit_ge_two limit b (omega arith) square

  -- Every prime of the segment keeps its flag.
  pub high_primes-prime :
      (x : ℕ) → x < high_primes_limit a b → IsPrime (a + x) → high_primes a b heap x ≡ true
  unfolding high_primes
  high_primes-prime x lt (h, p) = elim (Bool-cases (high_primes a b heap x)) [
    | inl kept ↦ kept
    | inr gone ↦
        elim (sieve_high-source (high_primes_limit a b) a (low_primes b heap) b 0 (λ i. true) x
          gone) [
            | inl never ↦ absurd (ground arith)
            | inr (q, k, t, e) ↦
                let two = low_primes-ge_two b heap q clear t in
                let (c, twice, first, least) =
                  first_multiple-least a q (omega (arith, two)) (omega arith) in
                absurd (
                  p (
                    multiple-IsComposite q (c + k) (a + x) two (omega (arith, twice))
                      (multiple_at a x _ c k q first e)))
          ]
  ]

  small_factor_crossed :
      (x i j : ℕ)
      → x < high_primes_limit a b
      → 2 ≤ i
      → i ≤ j
      → i * j ≡ a + x
      → i < limit
      → high_primes a b heap x ≡ false
  unfolding high_primes
  small_factor_crossed x i j lt h l e below =
      let (d, k, u, v, w, y, f) =
        uncrossed_factor limit (low_primes b heap) (low_primes-IsSieved b heap limit_two) i i j
          (a + x) (omega arith) h l e below in
      let (c, two, first, least) = first_multiple-least a d (omega arith) (omega arith) in
      let kd : k * d ≡ a + x = mul_comm k d ∙ f in
      let enough : c ≤ k = least k (omega arith) (omega (arith, kd)) in
      let double : d * 2 ≤ d * k = mul-le-mul_left {m = 2} {n = k} d (omega arith) in
      sieve_high-hit (high_primes_limit a b) a (low_primes b heap) b 0 d (k - c) (λ i. true) x
        (omega arith) (omega (arith, double, f)) (omega arith) u
        (index_of a x _ c k d first kd enough) lt

  -- A factor of the limit would be crossed out at the square.
  limit_prime :
      (x : ℕ)
      → x < high_primes_limit a b
      → high_primes a b heap x ≡ true
      → a + x ≡ limit * limit
      → ¬ IsComposite limit
  limit_prime x lt kept e (d, k, two, l, f) =
      let smaller : d * 2 ≤ d * k = mul-le-mul_left {m = 2} {n = k} d (omega arith) in
      let cofactor : k * 1 ≤ k * limit =
        mul-le-mul_left {m = 1} {n = limit} k (omega (arith, limit_two)) in
      let whole : d * (k * limit) ≡ a + x =
        sym (mul_assoc d k limit) ∙ ap (λ t. t * limit) f ∙ sym e in
      let gone =
        small_factor_crossed x d (k * limit) lt two (omega arith) whole
          (omega (arith, limit_two)) in
      absurd (ground (arith, kept, gone))

  -- A flag that is kept stands for a prime, but for one number: the end of the segment, where it is
  -- the square of a prime.
  pub high_primes-composite :
      (x : ℕ)
      → x < high_primes_limit a b
      → high_primes a b heap x ≡ true
      → IsComposite (a + x)
      → (q : ℕ) × IsPrime q × (a + x ≡ b) × (b ≡ q * q)
  high_primes-composite x lt kept (i, j, h, l, e) = elim (dec_lt i limit) [
    | yes below ↦ absurd (ground (arith, kept, small_factor_crossed x i j lt h l e below))
    | no above ↦
        let corner : limit * limit ≤ i * j = mul-le-mul (omega arith) (omega arith) in
        let end : a + x ≡ b = omega (arith, square) in
        let is_square : b ≡ limit * limit = omega (arith, square) in
        (limit, (limit_two, limit_prime x lt kept (end ∙ is_square)), end, is_square)
  ]
