-- ===== src/Sieve/Fits.antt =====
-- mtsieve/mtsieve.c: ranges without an overflow.
use cs.Prelude.{
  ℕ, zero, suc, ◌+◌, ◌-◌, ◌*◌, ◌/◌, ◌%◌, ◌≤◌, ◌<◌, ◌≡◌, refl, true, false, ◌&&◌, ltb, leb, arith,
  Bool-cases, inl, inr, le→leb, ltb→lt,
}
use cs.Sieve.{Flags, low_primes, first_multiple, high_primes_limit, segments_of, segments, targs}
use cs.Sieve.Low.{low_primes-ge_two}
use cs.Sieve.High.{ceil_div}
use cs.Sieve.Segments.{division}
use cs.Sieve.Overflow.{last_multiple, multiples_fit, flags_fit, threads_fit, targs_fit, ints_fit}

last_multiple-le :
    (top limit fuel p i : ℕ) → i ≤ top → limit + p ≤ suc top → last_multiple limit fuel p i ≤ top
unfolding last_multiple
last_multiple-le top limit zero p i h l = h
last_multiple-le top limit (suc fuel) p i h l = elim (Bool-cases (ltb i limit)) [
  | inl more ↦
      rw more (last_multiple-le top limit fuel p (i + p) (omega (arith, l, ltb→lt i limit more)) l)
  | inr done ↦ rw done h
]

first_multiple-le : (a p : ℕ) → 1 ≤ p → first_multiple a p ≤ 2 * p
first_multiple-le a p h =
    let (low, high) = ceil_div a p h in
    elim (Bool-cases (leb a p)) [
      | inl near ↦ rw (first_multiple, near) (omega (arith, high))
      | inr far ↦ rw (first_multiple, far) (omega (arith, high))
    ]

multiples_fit-true :
    (top a limit b n p : ℕ) (low : Flags)
    → ((q : ℕ) → low q ≡ true → 2 ≤ q)
    → p + n ≤ b
    → 2 * b ≤ top
    → limit + b ≤ suc top
    → multiples_fit top a limit n p low ≡ true
unfolding multiples_fit
multiples_fit-true top a limit b zero p low two e h l = refl
multiples_fit-true top a limit b (suc n) p low two e h l =
    let rest = multiples_fit-true top a limit b n (suc p) low two (omega (arith, e)) h l in
    elim (Bool-cases (low p)) [
      | inr gone ↦ rw (gone, rest) refl
      | inl kept ↦
          let first = first_multiple-le a p (omega (arith, two p kept)) in
          let last =
            last_multiple-le top limit limit p (first_multiple a p) (omega (arith, first, e, h))
              (omega (arith, e, l)) in
          rw (kept, le→leb (last_multiple limit limit p (first_multiple a p)) top last, rest) refl
    ]

flags_fit-true :
    (top a b : ℕ) (heap : Flags)
    → ((y : ℕ) → y < 2 → heap y ≡ false)
    → 2 ≤ a
    → 2 * b ≤ top
    → flags_fit top a b heap ≡ true
flags_fit-true top a b heap clear two h =
    multiples_fit-true top a (high_primes_limit a b) b b 0 (low_primes b heap)
      (λ q. low_primes-ge_two b heap q clear) (omega arith) h (omega (arith, two, h))

module _ (top b m : ℕ) (room : 2 * b ≤ top) (last : b + 1 + suc m ≤ top) where
  targs_fit-true :
      (n remainder start end : ℕ)
      → end + 1 ≡ start + suc m
      → remainder ≤ n
      → start + (n * suc m + remainder) ≤ b + 1
      → targs_fit top n (suc m) remainder end ≡ true
  unfolding targs_fit
  targs_fit-true zero remainder start end e r s = refl
  targs_fit-true (suc n) remainder start end e r s = elim (Bool-cases (ltb 0 remainder)) [
    | inl more ↦
        let some_left = ltb→lt 0 remainder more in
        let rest =
          targs_fit-true n (remainder - 1) (end + 1 + 1) (end + 1 + 1 + suc m - 1) (omega arith)
            (omega (arith, r, some_left)) (omega (arith, e, s, some_left)) in
        rw (more, le→leb (end + 1 + 1 + suc m) top (omega (arith, e, s, some_left, last)), rest)
          refl
    | inr done ↦
        let none_left : remainder ≡ 0 = ground (arith, done) in
        let rest =
          targs_fit-true n (remainder - 1) (end + 1) (end + 1 + suc m - 1) (omega arith)
            (omega (arith, none_left)) (omega (arith, e, s, none_left)) in
        rw (done, le→leb (end + 1 + suc m) top (omega (arith, e, s, last)), rest) refl
  ]

  module _ (heap : ℕ → Flags) (clear : (k y : ℕ) → y < 2 → heap k y ≡ false) where
    one_thread : (k start end : ℕ) → 2 ≤ start → end ≤ b → flags_fit top start end (heap k) ≡ true
    one_thread k start end two l =
        flags_fit-true top start end (heap k) (clear k) two (omega (arith, l, room))

    threads_fit-true :
        (n remainder k start end : ℕ)
        → 2 ≤ start
        → end + 1 ≡ start + suc m
        → remainder ≤ n
        → start + (n * suc m + remainder) ≤ b + 1
        → threads_fit top heap k (targs n (suc m) remainder start end) ≡ true
    unfolding threads_fit targs
    threads_fit-true zero remainder k start end two e r s = refl
    threads_fit-true (suc n) remainder k start end two e r s = elim (Bool-cases (ltb 0 remainder)) [
      | inl more ↦
          let some_left = ltb→lt 0 remainder more in
          let rest =
            threads_fit-true n (remainder - 1) (suc k) (end + 1 + 1) (end + 1 + 1 + suc m - 1)
              (omega (arith, e, two)) (omega arith) (omega (arith, r, some_left))
              (omega (arith, e, s, some_left)) in
          rw (more, one_thread k start (end + 1) two (omega (arith, e, s, some_left)), rest) refl
      | inr done ↦
          let none_left : remainder ≡ 0 = ground (arith, done) in
          let rest =
            threads_fit-true n (remainder - 1) (suc k) (end + 1) (end + 1 + suc m - 1)
              (omega (arith, e, two)) (omega arith) (omega (arith, none_left))
              (omega (arith, e, s, none_left)) in
          rw (done, one_thread k start end two (omega (arith, e, s)), rest) refl
    ]

-- Up to half of the largest `int` no addition overflows.
pub ints_fit-true :
    (top : ℕ) (heap : ℕ → Flags) (a b t : ℕ)
    → ((k y : ℕ) → y < 2 → heap k y ≡ false)
    → 2 ≤ a
    → a ≤ b
    → 1 ≤ t
    → 2 * b ≤ top
    → ints_fit top heap a b t ≡ true
unfolding ints_fit segments
ints_fit-true top heap a b t clear two ordered some_thread room =
    let n = segments_of a b t in
    let at_least_one : 1 ≤ n = ground arith in
    let at_most : n ≤ b - a + 1 = ground arith in
    let (len, less, whole) = division (b - a + 1) n at_least_one at_most in
    shared ((b - a + 1) / n) n ((b - a + 1) % n) len at_least_one (omega (arith, less)) whole
  where
    shared :
        (len n remainder : ℕ)
        → 1 ≤ len
        → 1 ≤ n
        → remainder ≤ n
        → n * len + remainder ≡ b - a + 1
        → (targs_fit top n len remainder (a + len - 1)
            && threads_fit top heap 0 (targs n len remainder a (a + len - 1)))
          ≡ true
    shared zero n remainder p o r e = absurd (omega (arith, p))
    shared (suc m) zero remainder p o r e = absurd (omega (arith, o))
    shared (suc m) (suc n) remainder p o r e =
        let last : b + 1 + suc m ≤ top = omega (arith, e, two, ordered, room) in
        rw
          (
            targs_fit-true top b m room last (suc n) remainder a (a + suc m - 1) (omega arith) r
                (omega (arith, e, ordered)),
            threads_fit-true top b m room last heap clear (suc n) remainder 0 a (a + suc m - 1) two
                (omega arith) r (omega (arith, e, ordered)),
          )
          refl
