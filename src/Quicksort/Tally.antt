-- ===== src/Quicksort/Tally.antt =====
-- Exchanges rearrange an array: each property holds of as many elements after as before.
use cs.Prelude.{
  ℕ, zero, suc, ◌+◌, ◌≤◌, ◌<◌, ◌≡◌, refl, Bool, ◌==◌, ◌≢◌, if◌then◌else◌, arith, ◌∙◌, dec_lt,
  Bool-cases, inl, inr,
}
use cs.Quicksort.Array.{Array, Swaps, same, then_swap}

sum_below : (ℕ → ℕ) → ℕ → ℕ
sum_below f zero = 0
sum_below f (suc n) = sum_below f n + f n

sum_below-eq : (f g : ℕ → ℕ) (n : ℕ) → ((k : ℕ) → k < n → f k ≡ g k) → sum_below f n ≡ sum_below g n
unfolding sum_below
sum_below-eq f g zero h = refl
sum_below-eq f g (suc n) h =
    omega (arith, sum_below-eq f g n (λ k l. h k (omega arith)), h n (omega arith))

-- Two families that differ at one index.
sum_below-change :
    (f g : ℕ → ℕ) (i n : ℕ)
    → i < n
    → ((k : ℕ) → k ≢ i → f k ≡ g k)
    → sum_below f n + g i ≡ sum_below g n + f i
unfolding sum_below
sum_below-change f g i zero l h = absurd (omega arith)
sum_below-change f g i (suc n) l h = elim (dec_lt i n) [
  | yes below ↦
      let apart : n ≢ i = omega arith in omega (arith, sum_below-change f g i n below h, h n apart)
  | no last ↦
      let e : i ≡ n = omega arith in
      rw e (omega (arith, sum_below-eq f g n (λ k less. h k (omega arith))))
]

module _ {S A : Type 0} (array : Array S A) (p : A → Bool) where
  open array use {get, swap, get-swap}

  abbrev weigh : S → ℕ → ℕ
  weigh m k = if p (get m k) then 1 else 0

  -- How many of the first `n` elements satisfy `p`.
  pub tally : S → ℕ → ℕ
  unfolding sum_below
  tally m n = sum_below (weigh m) n

  pub tally-zero : (m : S) → tally m 0 ≡ 0
  unfolding tally
  tally-zero m = refl

  pub tally-suc : (m : S) (n : ℕ) → tally m (suc n) ≡ tally m n + (if p (get m n) then 1 else 0)
  unfolding tally
  tally-suc m n = refl

  half_way : S → ℕ → ℕ → ℕ → ℕ
  half_way m i j k = if k == i then weigh m j else weigh m k

  tally-swap : (m : S) (i j n : ℕ) → i < n → j < n → tally (swap m i j) n ≡ tally m n
  unfolding tally half_way
  tally-swap m i j n a b = elim (Bool-cases (i == j)) [
    | inl eq ↦ sum_below-eq _ _ n (λ k l. ground (arith, get-swap m i j k))
    | inr ne ↦
        let first = sum_below-change (weigh m) (half_way m i j) i n a (λ k h. ground arith) in
        let second =
          sum_below-change (weigh (swap m i j)) (half_way m i j) j n b
            (λ k h. ground (arith, get-swap m i j k)) in
        ground (arith, first, second, get-swap m i j j)
  ]

  pub Swaps-tally :
      {lo hi : ℕ} {m m' : S} → Swaps array lo hi m m' → (n : ℕ) → hi ≤ n → tally m' n ≡ tally m n
  Swaps-tally same n h = refl
  Swaps-tally (then_swap {m'} i j q a b c d) n h =
      tally-swap m' i j n (omega arith) (omega arith) ∙ Swaps-tally q n h
