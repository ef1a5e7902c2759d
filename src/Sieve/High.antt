-- ===== src/Sieve/High.antt =====
-- mtsieve/mtsieve.c: what `high_primes` holds.
use cs.Prelude.{
  ℕ, zero, suc, ◌+◌, ◌-◌, ◌*◌, ◌/◌, ◌≤◌, ◌<◌, ◌≡◌, true, false, ltb, leb, ◌==◌, arith, Bool-cases,
  inl, inr, ◌⊎◌, dec_lt, dec_le,
}
use native.Mathlib.Nat.{mul-le-mul_left, mul-le-mul_right, mod-lt, div-add-mod'}
use cs.Sieve.{Flags, store, ceil_sqrt_from, cross_high, first_multiple, sieve_high}

module _ (limit : ℕ) where
  cross_high-false :
      (fuel p i : ℕ) (high : Flags) (x : ℕ)
      → high x ≡ false
      → cross_high limit fuel p i high x ≡ false
  unfolding cross_high
  cross_high-false zero p i high x h = h
  cross_high-false (suc fuel) p i high x h =
      ground (arith, cross_high-false fuel p (i + p) (store high i false) x)

  cross_high-hit :
      (fuel p i k : ℕ) (high : Flags) (x : ℕ)
      → limit ≤ i + fuel
      → 1 ≤ p
      → x ≡ i + k * p
      → x < limit
      → cross_high limit fuel p i high x ≡ false
  unfolding cross_high
  cross_high-hit zero p i k high x f h e lt = absurd (omega arith)
  cross_high-hit (suc fuel) p i zero high x f h e lt =
      let inside : ltb i limit ≡ true = ground arith in
      rw inside (cross_high-false fuel p (i + p) (store high i false) x (ground arith))
  cross_high-hit (suc fuel) p i (suc k) high x f h e lt =
      let inside : ltb i limit ≡ true = ground arith in
      rw inside
        (cross_high-hit fuel p (i + p) k (store high i false) x (omega arith) h (omega arith) lt)

  cross_high-source :
      (fuel p i : ℕ) (high : Flags) (x : ℕ)
      → cross_high limit fuel p i high x ≡ false
      → (high x ≡ false) ⊎ ((k : ℕ) × (x ≡ i + k * p))
  unfolding cross_high
  cross_high-source zero p i high x h = inl h
  cross_high-source (suc fuel) p i high x h = elim (Bool-cases (ltb i limit)) [
    | inr out ↦ inl (ground arith)
    | inl inside ↦ elim (cross_high-source fuel p (i + p) (store high i false) x (ground arith)) [
      | inr (k, e) ↦ inr (suc k, omega arith)
      | inl kept ↦ elim (Bool-cases (x == i)) [
        | inl at ↦ inr (0, ground arith)
        | inr off ↦ inl (ground arith)
      ]
    ]
  ]

  module _ (a : ℕ) (low : Flags) where
    pub sieve_high-false :
        (n p : ℕ) (high : Flags) (x : ℕ)
        → high x ≡ false
        → sieve_high a limit n p low high x ≡ false
    unfolding sieve_high
    sieve_high-false zero p high x h = h
    sieve_high-false (suc n) p high x h =
        sieve_high-false n (suc p) _ x (elim (Bool-cases (low p)) [
          | inl prime ↦ rw prime (cross_high-false limit p (first_multiple a p) high x h)
          | inr gone ↦ rw gone h
        ])

    pub sieve_high-hit :
        (n p q k : ℕ) (high : Flags) (x : ℕ)
        → p ≤ q
        → q < p + n
        → 1 ≤ q
        → low q ≡ true
        → x ≡ first_multiple a q + k * q
        → x < limit
        → sieve_high a limit n p low high x ≡ false
    unfolding sieve_high
    sieve_high-hit zero p q k high x l r h t e lt = absurd (omega arith)
    sieve_high-hit (suc n) p q k high x l r h t e lt = elim (dec_lt p q) [
      | yes later ↦ sieve_high-hit n (suc p) q k _ x later (omega arith) h t e lt
      | no now ↦
          let at : p ≡ q = omega arith in
          rw (at, t)
            (sieve_high-false n (suc q) _ x
              (cross_high-hit limit q (first_multiple a q) k high x (omega arith) h e lt))
    ]

    pub sieve_high-source :
        (n p : ℕ) (high : Flags) (x : ℕ)
        → sieve_high a limit n p low high x ≡ false
        → (high x ≡ false) ⊎ ((q : ℕ) × (k : ℕ) × (low q ≡ true) × (x ≡ first_multiple a q + k * q))
    unfolding sieve_high
    sieve_high-source zero p high x h = inl h
    sieve_high-source (suc n) p high x h = elim (sieve_high-source n (suc p) _ x h) [
      | inr found ↦ inr found
      | inl f ↦ elim (Bool-cases (low p)) [
        | inr gone ↦ inl (ground (arith, gone, f))
        | inl prime ↦
            elim (cross_high-source limit p (first_multiple a p) high x
              (ground (arith, prime, f))) [
                | inl kept ↦ inl kept
                | inr (k, e) ↦ inr (p, k, prime, e)
              ]
      ]
    ]

quotient-lt : (c d q : ℕ) → c * q < d * q → c < d
quotient-lt c d q h = elim (dec_lt c d) [
  | yes l ↦ l
  | no g ↦ absurd (omega (arith, mul-le-mul_right {m = d} {n = c} q (omega arith)))
]

pub ceil_div : (a q : ℕ) → 1 ≤ q → (a ≤ (a + (q - 1)) / q * q) × ((a + (q - 1)) / q * q < a + q)
ceil_div a q h =
    let e = div-add-mod' (a + (q - 1)) q in
    let l = mod-lt (a + (q - 1)) {m = q} h in (omega (arith, e, l), omega (arith, e, l))

module _ (a q c : ℕ) (low : a ≤ c * q) (high : c * q < a + q) where
  near_multiple : 1 ≤ a → a ≤ q → a + (c * q - a + q) ≡ 2 * q
  near_multiple g near =
      let some_part : 0 < c = quotient-lt 0 c q (omega arith) in
      let one_part : c < 2 = quotient-lt c 2 q (omega arith) in
      let e : c ≡ 1 = omega arith in rw e (omega arith)

  far_multiple : q < a → 2 ≤ c
  far_multiple far = quotient-lt 1 c q (omega arith)

  least_multiple : (m : ℕ) → a ≤ m * q → c ≤ m
  least_multiple m l = let below : c < suc m = quotient-lt c (suc m) q (omega arith) in omega arith

-- The first index crossed out for `q` stands for the first multiple of `q` in the segment that is not
-- `q` itself.
pub first_multiple-least :
    (a q : ℕ)
    → 1 ≤ q
    → 1 ≤ a
    → (c : ℕ) × (2 ≤ c) × (a + first_multiple a q ≡ c * q) × ((m : ℕ) → 2 ≤ m → a ≤ m * q → c ≤ m)
first_multiple-least a q h g =
    let (low, high) = ceil_div a q h in
    let c = (a + (q - 1)) / q in
    elim (dec_le a q) [
      | yes near ↦
          let is_near : leb a q ≡ true = ground arith in
          (2, omega arith, rw is_near (near_multiple a q c low high g near), λ m p l. p)
      | no far ↦
          let is_far : leb a q ≡ false = ground arith in
          (
            c,
            far_multiple a q c low high (omega arith),
            rw is_far (omega (arith, low)),
            λ m p l. least_multiple a q c low high m l,
          )
    ]

pub ceil_sqrt_from-le :
    (fuel l b : ℕ) → b ≤ l + fuel → b ≤ ceil_sqrt_from fuel l b * ceil_sqrt_from fuel l b
unfolding ceil_sqrt_from
ceil_sqrt_from-le zero zero b h = omega arith
ceil_sqrt_from-le zero (suc l) b h =
    omega (arith, mul-le-mul_left {m = 1} {n = suc l} (suc l) (omega arith))
ceil_sqrt_from-le (suc fuel) l b h = elim (Bool-cases (leb b (l * l))) [
  | inl here ↦ rw here (ground arith)
  | inr later ↦ rw later (ceil_sqrt_from-le fuel (suc l) b (omega arith))
]

pub limit_ge_two : (l b : ℕ) → 2 ≤ b → b ≤ l * l → 2 ≤ l
limit_ge_two zero b h k = absurd (omega arith)
limit_ge_two (suc zero) b h k = absurd (omega arith)
limit_ge_two (suc (suc l)) b h k = omega arith
