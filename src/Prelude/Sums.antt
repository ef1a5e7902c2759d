-- ===== src/Prelude/Sums.antt =====
-- Sums over the members of a family that is indexed by a number.
use Prim.Native.Nat.{ℕ, zero, suc, ◌+◌, ◌≤◌, ◌<◌}
use mathlib.Core.Path.{◌≡◌, refl}
use native.Mathlib.Omega.{arith}
use cs.Prelude.Tests.{◌==◌, if◌then◌else◌, Bool-cases}
use mathlib.Core.Logic.{inl, inr}

-- The family `f` with `a` at `i`.
abbrev pub update {ℓ} : {A : Type ℓ} → ℕ → A → (ℕ → A) → ℕ → A
update i a f k = if k == i then a else f k

module _ {ℓ} {A : Type ℓ} (cost : A → ℕ) where
  -- What the first so many members cost together.
  unfoldable pub total : ℕ → (ℕ → A) → ℕ
  total zero ws = 0
  total (suc k) ws = cost (ws k) + total k ws

  -- Two families whose members cost the same.
  total_same :
      (count : ℕ) (ws vs : ℕ → A)
      → ((k : ℕ) → k < count → cost (ws k) ≡ cost (vs k))
      → total count ws ≡ total count vs
  unfolding total
  total_same zero ws vs same = refl
  total_same (suc k) ws vs same =
      omega (arith, same k (omega arith), total_same k ws vs (λ j l. same j (omega (arith, l))))

  pub total-update_beyond :
      (count : ℕ) (ws : ℕ → A) (at : ℕ) (new : A)
      → count ≤ at
      → total count (update at new ws) ≡ total count ws
  total-update_beyond count ws at new far =
      total_same count (update at new ws) ws (λ k l. ground (arith, far, l))

  pub total-update :
      (count : ℕ) (ws : ℕ → A) (at : ℕ) (new : A)
      → at < count
      → total count (update at new ws) + cost (ws at) ≡ total count ws + cost new
  unfolding total
  total-update zero ws at new near = absurd (omega (arith, near))
  total-update (suc k) ws at new near = elim (Bool-cases (k == at)) [
    | inl here ↦ ground (arith, here, near, total-update_beyond k ws at new)
    | inr elsewhere ↦ ground (arith, elsewhere, near, total-update k ws at new)
  ]

  pub total-update_same :
      (count : ℕ) (ws : ℕ → A) (at : ℕ) (new : A)
      → cost new ≡ cost (ws at)
      → total count (update at new ws) ≡ total count ws
  total-update_same count ws at new even =
      total_same count (update at new ws) ws (λ k l. ground (arith, even))

  pub total_zero :
      (count : ℕ) (ws : ℕ → A) → ((k : ℕ) → k < count → cost (ws k) ≡ 0) → total count ws ≡ 0
  unfolding total
  total_zero zero ws free = refl
  total_zero (suc k) ws free =
      omega (arith, free k (omega arith), total_zero k ws (λ j l. free j (omega (arith, l))))

  pub zero_total :
      (count : ℕ) (ws : ℕ → A) (at : ℕ) → total count ws ≡ 0 → at < count → cost (ws at) ≡ 0
  unfolding total
  zero_total zero ws at zero_sum near = absurd (omega (arith, near))
  zero_total (suc k) ws at zero_sum near = elim (Bool-cases (k == at)) [
    | inl here ↦ ground (arith, zero_sum, here)
    | inr elsewhere ↦ ground (arith, elsewhere, zero_total k ws at (omega (arith, zero_sum)))
  ]
