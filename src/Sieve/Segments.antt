-- ===== src/Sieve/Segments.antt =====
-- mtsieve/mtsieve.c: how `main` divides the range among the threads.
use cs.Prelude.{
  ap, ◌∙◌, dec_lt, ℕ, zero, suc, ◌+◌, ◌-◌, ◌*◌, ◌/◌, ◌%◌, ◌≤◌, ◌<◌, ◌≡◌, refl, ◌&&◌, List, [], ◌∷◌,
  ltb, leb, if◌then◌else◌, arith, All, length, Bool-cases, inl, inr,
}
use native.Mathlib.Nat.{div-add-mod, mod-lt}
use cs.Sieve.{segments_of, targs, segments}

-- How many of the segments the number `x` belongs to.
unfoldable pub belongs : ℕ → List (ℕ × ℕ) → ℕ
belongs x [] = 0
belongs x ((start, end) ∷ rest) =
    let others = belongs x rest in if leb start x && leb x end then suc others else others

abbrev pub HasSize : ℕ → ℕ × ℕ → Type 0
HasSize n s = (s.0 + n ≤ s.1 + 1) × (s.1 ≤ s.0 + n)

module _ (len : ℕ) (some_part : 1 ≤ len) where
  targs-belongs :
      (n remainder start end x : ℕ)
      → end + 1 ≡ start + len
      → remainder ≤ n
      → belongs x (targs n len remainder start end)
        ≡ (if leb start x && ltb x (start + (n * len + remainder)) then 1 else 0)
  unfolding targs belongs
  targs-belongs zero remainder start end x e r = ground arith
  targs-belongs (suc n) remainder start end x e r = elim (Bool-cases (ltb 0 remainder)) [
    | inl some_left ↦
        let rest =
          targs-belongs n (remainder - 1) (end + 1 + 1) (end + 1 + 1 + len - 1) x (omega arith)
            (omega arith) in
        rw (some_left, rest) (ground arith)
    | inr none_left ↦
        let rest =
          targs-belongs n (remainder - 1) (end + 1) (end + 1 + len - 1) x (omega arith)
            (omega arith) in
        rw (none_left, rest) (ground arith)
  ]

  targs-sizes :
      (n remainder start end : ℕ)
      → end + 1 ≡ start + len
      → (length (targs n len remainder start end) ≡ n)
        × All (HasSize len) (targs n len remainder start end)
  unfolding targs
  targs-sizes zero remainder start end e = (refl, tt)
  targs-sizes (suc n) remainder start end e = elim (Bool-cases (ltb 0 remainder)) [
    | inl some_left ↦
        let (l, a) =
          targs-sizes n (remainder - 1) (end + 1 + 1) (end + 1 + 1 + len - 1) (omega arith) in
        rw some_left (ap suc l, ((omega arith, omega arith), a))
    | inr none_left ↦
        let (l, a) = targs-sizes n (remainder - 1) (end + 1) (end + 1 + len - 1) (omega arith) in
        rw none_left (ap suc l, ((omega arith, omega arith), a))
  ]

pub division : (m n : ℕ) → 1 ≤ n → n ≤ m → (1 ≤ m / n) × (m % n < n) × (n * (m / n) + m % n ≡ m)
division m n h l =
    let e = div-add-mod m n in
    let r = mod-lt m {m = n} h in
    (
      elim (dec_lt 0 (m / n)) [
        | yes some_part ↦ some_part
        | no empty ↦
            let z : m / n ≡ 0 = omega arith in
            let e' : n * (m / n) ≡ n * 0 = ap (◌*◌ n) z in absurd (omega (arith, e, r, e'))
      ],
      r,
      e,
    )

range_end :
    (a b x w : ℕ)
    → a ≤ b
    → w ≡ b - a + 1
    → ◌≡◌ {A = ℕ} (if leb a x && ltb x (a + w) then 1 else 0) (if leb a x && leb x b then 1 else 0)
range_end a b x w h e = ground arith

-- For `t` threads and a range from `a` to `b`, `main` makes a segment for each thread, or for each
-- number where there are fewer. Every number of the range belongs to exactly one segment, and no
-- other number to any; the sizes of the segments differ by at most one.
pub segments-belongs :
    (a b t : ℕ)
    → a ≤ b
    → 1 ≤ t
    → (length (segments a b t) ≡ segments_of a b t)
      × All (HasSize ((b - a + 1) / segments_of a b t)) (segments a b t)
      × ((x : ℕ) → belongs x (segments a b t) ≡ (if leb a x && leb x b then 1 else 0))
unfolding segments
segments-belongs a b t h k =
    let n = segments_of a b t in
    let m = b - a + 1 in
    let at_least_one : 1 ≤ n = ground arith in
    let at_most : n ≤ m = ground arith in
    let (len, less, whole) = division m n at_least_one at_most in
    let start : a + m / n - 1 + 1 ≡ a + m / n = omega (arith, len) in
    let (l, sizes) = targs-sizes (m / n) len n (m % n) a (a + m / n - 1) start in
    (
      l,
      sizes,
      λ x.
          targs-belongs (m / n) len n (m % n) a (a + m / n - 1) x start (omega arith)
          ∙ range_end a b x (n * (m / n) + m % n) h whole,
    )
