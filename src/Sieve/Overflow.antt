-- ===== src/Sieve/Overflow.antt =====
-- mtsieve/mtsieve.c: whether the `int` additions of the program stay below a bound.
use cs.Prelude.{
  ℕ, zero, suc, ◌+◌, ◌-◌, ◌/◌, ◌%◌, Bool, true, ◌&&◌, List, [], ◌∷◌, ltb, leb, if◌then◌else◌,
}
use cs.Sieve.{Flags, low_primes, first_multiple, high_primes_limit, segments_of, segments}

-- `i` after the loop `while (i < high_primes_limit)`: the largest value that `i += p` gives it.
unfoldable pub last_multiple : ℕ → ℕ → ℕ → ℕ → ℕ
last_multiple limit zero p i = i
last_multiple limit (suc fuel) p i =
    let rest = last_multiple limit fuel p (i + p) in if ltb i limit then rest else i

-- The loop over `p`, with `n` rounds left.
unfoldable pub multiples_fit : ℕ → ℕ → ℕ → ℕ → ℕ → Flags → Bool
multiples_fit top a limit zero p low = true
multiples_fit top a limit (suc n) p low =
    (if low p then leb (last_multiple limit limit p (first_multiple a p)) top else true)
    && multiples_fit top a limit n (suc p) low

-- The loops of one thread.
abbrev pub flags_fit : ℕ → ℕ → ℕ → Flags → Bool
flags_fit top a b heap = multiples_fit top a (high_primes_limit a b) b 0 (low_primes b heap)

-- The threads of the segments; `heap k` is what `malloc` leaves to thread `k`.
unfoldable pub threads_fit : ℕ → (ℕ → Flags) → ℕ → List (ℕ × ℕ) → Bool
threads_fit top heap k [] = true
threads_fit top heap k ((start, end) ∷ rest) =
    flags_fit top start end (heap k) && threads_fit top heap (suc k) rest

-- The loop of `main` that hands out the segments: `targs[i].end + 1 + thread_length` in each round.
unfoldable pub targs_fit : ℕ → ℕ → ℕ → ℕ → ℕ → Bool
targs_fit top zero thread_length remainder temp_end = true
targs_fit top (suc n) thread_length remainder temp_end =
    let end = if ltb 0 remainder then temp_end + 1 else temp_end in
    leb (end + 1 + thread_length) top
    && targs_fit top n thread_length (remainder - 1) (end + 1 + thread_length - 1)

unfoldable pub ints_fit : ℕ → (ℕ → Flags) → ℕ → ℕ → ℕ → Bool
ints_fit top heap a b t =
    let n = segments_of a b t in
    let thread_length = (b - a + 1) / n in
    targs_fit top n thread_length ((b - a + 1) % n) (a + thread_length - 1)
    && threads_fit top heap 0 (segments a b t)
