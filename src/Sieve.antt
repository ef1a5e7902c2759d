-- ===== src/Sieve.antt =====
-- mtsieve/mtsieve.c: the segmented sieve that counts primes with two or more digits 3.
pub mod Low
pub mod High
pub mod Primes
pub mod Segments
pub mod Digits
pub mod Count
pub mod Overflow
pub mod Fits
pub mod Main
pub mod Total
pub mod Whole
pub mod Accepted
mod Examples
use cs.Prelude.{
  ℕ, zero, suc, ◌+◌, ◌-◌, ◌*◌, ◌/◌, ◌%◌, Bool, true, false, ◌&&◌, List, [], ◌∷◌, ltb, leb, ◌==◌,
  if◌then◌else◌,
}

-- An array as a function of the index. A fresh one holds what `malloc` leaves in it.
abbrev pub Flags : Type 0
Flags = ℕ → Bool

abbrev pub store : Flags → ℕ → Bool → Flags
store f x v y = if y == x then v else f y

-- `ceil(sqrt(b))`: the first `l` from the given one on whose square is at least `b`, where there is
-- one among the next `fuel`.
unfoldable pub ceil_sqrt_from : ℕ → ℕ → ℕ → ℕ
ceil_sqrt_from zero l b = l
ceil_sqrt_from (suc fuel) l b =
    let next = ceil_sqrt_from fuel (suc l) b in if leb b (l * l) then l else next

abbrev pub low_primes_limit : ℕ → ℕ
low_primes_limit b = ceil_sqrt_from b 0 b

-- The loop that sets `low_primes`, with `n` rounds left from index `i` on.
unfoldable pub fill : ℕ → ℕ → Flags → Flags
fill zero i low = low
fill (suc n) i low = fill n (suc i) (store low i true)

-- The loop over `j`; `fuel` is at least the number of its rounds.
unfoldable pub cross_low : ℕ → ℕ → ℕ → ℕ → Flags → Flags
cross_low limit zero i j low = low
cross_low limit (suc fuel) i j low =
    let rest = cross_low limit fuel i (suc j) (store low (i * j) false) in
    if ltb (i * j) limit then rest else low

-- The loop over `i`, with `n` rounds left.
unfoldable pub sieve_low : ℕ → ℕ → ℕ → Flags → Flags
sieve_low limit zero i low = low
sieve_low limit (suc n) i low =
    sieve_low limit n (suc i) (if low i then cross_low limit limit i i low else low)

unfoldable pub low_primes : ℕ → Flags → Flags
low_primes b heap =
    let limit = low_primes_limit b in sieve_low limit (limit - 2) 2 (fill (limit - 2) 2 heap)

-- `while (i < high_primes_limit)`; `fuel` is at least the number of its rounds. (Whether `i + p` is an
-- `int` is followed in Sieve/Overflow, here and for the additions of `main`.)
unfoldable pub cross_high : ℕ → ℕ → ℕ → ℕ → Flags → Flags
cross_high limit zero p i high = high
cross_high limit (suc fuel) p i high =
    let rest = cross_high limit fuel p (i + p) (store high i false) in
    if ltb i limit then rest else high

-- `ceil((double)a / p) * p - a`, and `p` more where `a <= p`.
abbrev pub first_multiple : ℕ → ℕ → ℕ
first_multiple a p = let i = (a + (p - 1)) / p * p - a in if leb a p then i + p else i

-- The loop over `p`, with `n` rounds left.
unfoldable pub sieve_high : ℕ → ℕ → ℕ → ℕ → Flags → Flags → Flags
sieve_high a limit zero p low high = high
sieve_high a limit (suc n) p low high =
    sieve_high a limit n (suc p) low
      (if low p then cross_high limit limit p (first_multiple a p) high else high)

abbrev pub high_primes_limit : ℕ → ℕ → ℕ
high_primes_limit a b = b - a + 1

-- The array `high_primes` after its loops: the flag of `a + i` has index `i`.
unfoldable pub high_primes : ℕ → ℕ → Flags → Flags
high_primes a b heap = sieve_high a (high_primes_limit a b) b 0 (low_primes b heap) (λ i. true)

-- `while (temp > 0 && counter < 2)`; `fuel` is at least the number of digits.
unfoldable pub count_threes : ℕ → ℕ → ℕ → ℕ
count_threes zero temp counter = counter
count_threes (suc fuel) temp counter =
    let rest = count_threes fuel (temp / 10) (if temp % 10 == 3 then suc counter else counter) in
    if ltb 0 temp && ltb counter 2 then rest else counter

unfoldable pub two_threes : ℕ → Bool
unfolding count_threes
two_threes n = ltb 1 (count_threes (suc n) n 0)

-- The loop over the segment, with `n` rounds left from index `i` on.
unfoldable pub count_flags : ℕ → ℕ → ℕ → Flags → ℕ
count_flags a zero i high = 0
count_flags a (suc n) i high =
    let rest = count_flags a n (suc i) high in
    if high i then (if two_threes (i + a) then suc rest else rest) else rest

-- What the thread of the segment from `a` to `b` adds to `total_count`.
unfoldable pub sieve : ℕ → ℕ → Flags → ℕ
sieve a b heap = count_flags a (high_primes_limit a b) 0 (high_primes a b heap)

abbrev pub segments_of : ℕ → ℕ → ℕ → ℕ
segments_of a b t = if ltb (b - a + 1) t then b - a + 1 else t

-- The loop of `main` that hands out the segments, with `n` threads left; an overflow of its additions is
-- a result of `main`.
unfoldable pub targs : ℕ → ℕ → ℕ → ℕ → ℕ → List (ℕ × ℕ)
targs zero thread_length remainder temp_start temp_end = []
targs (suc n) thread_length remainder temp_start temp_end =
    let end = if ltb 0 remainder then temp_end + 1 else temp_end in
    (temp_start, end)
    ∷ targs n thread_length (remainder - 1) (end + 1) (end + 1 + thread_length - 1)

unfoldable pub segments : ℕ → ℕ → ℕ → List (ℕ × ℕ)
segments a b t =
    let n = segments_of a b t in
    let thread_length = (b - a + 1) / n in
    targs n thread_length ((b - a + 1) % n) a (a + thread_length - 1)
