-- ===== src/Sieve/Low.antt =====
-- mtsieve/mtsieve.c: what `low_primes` holds.
use cs.Prelude.{
  subst, ◌&&◌, ℕ, zero, suc, ◌+◌, ◌-◌, ◌*◌, ◌≤◌, ◌<◌, ◌≡◌, sym, ◌∙◌, ap, true, false, ltb, leb,
  ◌==◌, if◌then◌else◌, arith, Bool-cases, inl, inr, ◌⊎◌, dec_lt,
}
use native.Mathlib.Nat.{mul-le-mul_left, mul-le-mul_right, mul_assoc}
use cs.Sieve.{Flags, store, low_primes_limit, fill, cross_low, sieve_low, low_primes}

-- A product of two numbers from 2 on, the smaller one first.
abbrev pub IsComposite : ℕ → Type 0
IsComposite n = (i : ℕ) × (j : ℕ) × (2 ≤ i) × (i ≤ j) × (i * j ≡ n)

abbrev pub IsPrime : ℕ → Type 0
IsPrime n = (2 ≤ n) × ¬ IsComposite n

-- `n` is a multiple of `i` from `i * j` on.
abbrev Hit : ℕ → ℕ → ℕ → Type 0
Hit i j n = (k : ℕ) × (j ≤ k) × (i * k ≡ n)

module _ (limit : ℕ) where
  cross_low-false :
      (fuel i j : ℕ) (low : Flags) (n : ℕ) → low n ≡ false → cross_low limit fuel i j low n ≡ false
  unfolding cross_low
  cross_low-false zero i j low n h = h
  cross_low-false (suc fuel) i j low n h =
      ground (arith, cross_low-false fuel i (suc j) (store low (i * j) false) n)

  cross_low-Hit :
      (fuel i j : ℕ) (low : Flags) (n : ℕ)
      → limit ≤ j + fuel
      → 2 ≤ i
      → Hit i j n
      → n < limit
      → cross_low limit fuel i j low n ≡ false
  unfolding cross_low
  cross_low-Hit zero i j low n f h (k, l, e) lt =
      absurd (omega (arith, mul-le-mul_right {m = 1} {n = i} k (omega arith)))
  cross_low-Hit (suc fuel) i j low n f h (k, l, e) lt =
      let inside : ltb (i * j) limit ≡ true = ground (arith, mul-le-mul_left i l) in
      elim (dec_lt j k) [
        | yes later ↦ rw inside (
            cross_low-Hit fuel i (suc j) (store low (i * j) false) n (omega arith) h (k, later, e)
              lt)
        | no here ↦
            let at : n ≡ i * j = sym e ∙ ap (◌*◌ i) (omega arith) in
            rw inside (cross_low-false fuel i (suc j) (store low (i * j) false) n (ground arith))
      ]

  cross_low-source :
      (fuel i j : ℕ) (low : Flags) (n : ℕ)
      → cross_low limit fuel i j low n ≡ false
      → (low n ≡ false) ⊎ Hit i j n
  unfolding cross_low
  cross_low-source zero i j low n h = inl h
  cross_low-source (suc fuel) i j low n h = elim (Bool-cases (ltb (i * j) limit)) [
    | inr out ↦ inl (ground arith)
    | inl inside ↦
        elim (cross_low-source fuel i (suc j) (store low (i * j) false) n (ground arith)) [
          | inr (k, l, e) ↦ inr (k, omega arith, e)
          | inl kept ↦ elim (Bool-cases (n == i * j)) [
            | inl at ↦ inr (j, omega arith, ground arith)
            | inr off ↦ inl (ground arith)
          ]
        ]
  ]

  -- Before the round of `i`: only composites are crossed out, and the multiples of every number below
  -- `i` that is not crossed out are.
  pub record IsSieved (i : ℕ) (low : Flags) : Type 0 where
    pub sound : (n : ℕ) → 2 ≤ n → n < limit → low n ≡ false → IsComposite n
    pub crossed :
        (d k n : ℕ) → 2 ≤ d → d < i → low d ≡ true → d ≤ k → d * k ≡ n → n < limit → low n ≡ false

  cross_low-IsSieved :
      (i : ℕ) (low : Flags)
      → 2 ≤ i
      → IsSieved i low
      → low i ≡ true
      → IsSieved (suc i) (cross_low limit limit i i low)
  cross_low-IsSieved i low h s e = record {
    sound = λ n a b f. elim (cross_low-source limit i i low n f) [
      | inl kept ↦ s.sound n a b kept
      | inr (k, l, p) ↦ (i, k, h, l, p)
    ];
    crossed = λ d k n a b f l p lt. elim (Bool-cases (low d)) [
      | inr gone ↦ absurd (ground (arith, cross_low-false limit i i low d gone))
      | inl stays ↦ elim (dec_lt d i) [
        | yes earlier ↦ cross_low-false limit i i low n (s.crossed d k n a earlier stays l p lt)
        | no now ↦
            let at : d ≡ i = omega arith in
            cross_low-Hit limit i i low n (omega arith) h (k, rw (← at) l, rw (← at) p) lt
      ]
    ];
  }

  skip-IsSieved : (i : ℕ) (low : Flags) → IsSieved i low → low i ≡ false → IsSieved (suc i) low
  skip-IsSieved i low s e = record {
    sound = s.sound;
    crossed = λ d k n a b f l p lt. elim (dec_lt d i) [
      | yes earlier ↦ s.crossed d k n a earlier f l p lt
      | no now ↦ let at : d ≡ i = omega arith in absurd (ground (arith, ap low at, e, f))
    ];
  }

  sieve_low-IsSieved :
      (n i : ℕ) (low : Flags) → 2 ≤ i → IsSieved i low → IsSieved (i + n) (sieve_low limit n i low)
  unfolding sieve_low
  sieve_low-IsSieved zero i low h s = let e : i + 0 ≡ i = omega arith in rw e s
  sieve_low-IsSieved (suc n) i low h s =
      let e : i + suc n ≡ suc i + n = omega arith in
      rw e (elim (Bool-cases (low i)) [
        | inl prime ↦ rw prime (
            sieve_low-IsSieved n (suc i) (cross_low limit limit i i low) (omega arith)
              (cross_low-IsSieved i low h s prime))
        | inr gone ↦
            rw gone (sieve_low-IsSieved n (suc i) low (omega arith) (skip-IsSieved i low s gone))
      ])

  -- Flags that are not set stay so.
  sieve_low-false :
      (n i : ℕ) (low : Flags) (x : ℕ) → low x ≡ false → sieve_low limit n i low x ≡ false
  unfolding sieve_low
  sieve_low-false zero i low x h = h
  sieve_low-false (suc n) i low x h = sieve_low-false n (suc i) _ x (elim (Bool-cases (low i)) [
    | inl prime ↦ rw prime (cross_low-false limit i i low x h)
    | inr gone ↦ rw gone h
  ])

  -- A factor that is not crossed out, from a factor `i` of `n`.
  pub uncrossed_factor :
      (low : Flags)
      → IsSieved limit low
      → (m i j n : ℕ) → i ≤ m
      → 2 ≤ i
      → i ≤ j
      → i * j ≡ n
      → i < limit
      → (d : ℕ) × (k : ℕ) × (low d ≡ true) × (2 ≤ d) × (d ≤ k) × (d ≤ i) × (d * k ≡ n)
  uncrossed_factor low s zero i j n a h l e lt = absurd (omega arith)
  uncrossed_factor low s (suc m) i j n a h l e lt = elim (Bool-cases (low i)) [
    | inl prime ↦ (i, j, prime, h, l, omega arith, e)
    | inr gone ↦
        let (d, k, p, q, r) = s.sound i h lt gone in
        let smaller : d * 2 ≤ i =
          omega (arith, mul-le-mul_left {m = 2} {n = k} d (omega arith), r) in
        let factor : d * (k * j) ≡ n = sym (mul_assoc d k j) ∙ ap (λ t. t * j) r ∙ e in
        let cofactor : k * 1 ≤ k * j = mul-le-mul_left k (omega arith) in
        let (d', k', u, v, w, x, y) =
          uncrossed_factor low s m d (k * j) n (omega arith) p (omega arith) factor (omega arith) in
        (d', k', u, v, w, omega arith, y)
  ]

fill-inside :
    (n i : ℕ) (low : Flags) (x : ℕ)
    → fill n i low x ≡ (if leb i x && ltb x (i + n) then true else low x)
unfolding fill
fill-inside zero i low x = ground arith
fill-inside (suc n) i low x = ground (arith, fill-inside n (suc i) (store low i true) x)

pub low_primes-IsSieved :
    (b : ℕ) (heap : Flags)
    → 2 ≤ low_primes_limit b
    → IsSieved (low_primes_limit b) (low_primes_limit b) (low_primes b heap)
unfolding low_primes
low_primes-IsSieved b heap h =
    let limit = low_primes_limit b in
    let e : 2 + (limit - 2) ≡ limit = omega arith in
    subst (λ t. IsSieved limit t (low_primes b heap)) e
      (sieve_low-IsSieved limit (limit - 2) 2 (fill (limit - 2) 2 heap) (omega arith) (record {
        sound = λ n p q f. absurd (ground (arith, fill-inside (limit - 2) 2 heap n));
        crossed = λ d k n p q. absurd (omega arith);
      }))

low_primes-outside :
    (b : ℕ) (heap : Flags) (x : ℕ)
    → heap x ≡ false
    → (leb 2 x && ltb x (low_primes_limit b)) ≡ false
    → low_primes b heap x ≡ false
unfolding low_primes
low_primes-outside b heap x z out =
    let limit = low_primes_limit b in
    sieve_low-false limit (limit - 2) 2 (fill (limit - 2) 2 heap) x
      (ground (arith, fill-inside (limit - 2) 2 heap x))

-- Where the flags 0 and 1, which are never written, hold 0, only flags from 2 on are set.
pub low_primes-ge_two :
    (b : ℕ) (heap : Flags) (x : ℕ)
    → ((y : ℕ) → y < 2 → heap y ≡ false)
    → low_primes b heap x ≡ true
    → 2 ≤ x
low_primes-ge_two b heap x z t = elim (dec_lt x 2) [
  | no far ↦ omega (arith, far)
  | yes near ↦
      let out : (leb 2 x && ltb x (low_primes_limit b)) ≡ false = ground (arith, near) in
      absurd (ground (arith, t, low_primes-outside b heap x (z x near) out))
]
