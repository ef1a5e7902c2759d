-- ===== src/Quicksort/Array.antt =====
-- The array that quicksort sorts: elements at indices, exchanged by `swap`. What a series of
-- exchanges within a segment keeps.
use cs.Prelude.{
  ℕ, ◌≤◌, ◌<◌, ◌≡◌, refl, false, ◌&&◌, ltb, leb, ◌==◌, if◌then◌else◌, arith, Bool-cases, inl, inr,
}

-- `swap(a, b)` is `swap(array + a * elem_sz, array + b * elem_sz, elem_sz)`.
pub record Array (S : Type 0) (A : Type 0) : Type 0 where
  pub get : S → ℕ → A
  pub swap : S → ℕ → ℕ → S
  pub get-swap :
      (m : S) (i j k : ℕ)
      → get (swap m i j) k ≡ (if k == i then get m j else if k == j then get m i else get m k)

module _ {S A : Type 0} (array : Array S A) where
  open array use {get, swap, get-swap}

  -- `m'` comes from `m` by exchanges of elements with indices from `lo` up to, not including, `hi`.
  pub data Swaps (lo hi : ℕ) (m : S) : S → Type 0 where
    same : Swaps lo hi m m
    then_swap :
        {m' : S} (i j : ℕ)
        → Swaps lo hi m m'
        → lo ≤ i
        → i < hi
        → lo ≤ j
        → j < hi
        → Swaps lo hi m (swap m' i j)

  module _ {lo hi : ℕ} where
    pub Swaps-trans : {m m' m'' : S} → Swaps lo hi m m' → Swaps lo hi m' m'' → Swaps lo hi m m''
    Swaps-trans p same = p
    Swaps-trans p (then_swap i j q a b c d) = then_swap i j (Swaps-trans p q) a b c d

    pub Swaps-mono :
        (lo' hi' : ℕ) {m m' : S} → Swaps lo hi m m' → lo' ≤ lo → hi ≤ hi' → Swaps lo' hi' m m'
    Swaps-mono lo' hi' same h k = same
    Swaps-mono lo' hi' (then_swap i j q a b c d) h k =
        then_swap i j (Swaps-mono lo' hi' q h k) (omega arith) (omega arith) (omega arith)
          (omega arith)

    -- What lies outside the segment stays.
    pub Swaps-frame :
        {m m' : S}
        → Swaps lo hi m m'
        → (k : ℕ) → (leb lo k && ltb k hi) ≡ false
        → get m' k ≡ get m k
    Swaps-frame same k h = refl
    Swaps-frame (then_swap {m'} i j q a b c d) k h =
        ground (arith, get-swap m' i j k, Swaps-frame q k h)

    -- Every element of the segment stood somewhere in the segment before.
    pub Swaps-source :
        {m m' : S}
        → Swaps lo hi m m'
        → (k : ℕ) → lo ≤ k
        → k < hi
        → (x : ℕ) × (lo ≤ x) × (x < hi) × (get m' k ≡ get m x)
    Swaps-source same k p q = (k, p, q, refl)
    Swaps-source (then_swap {m'} i j s a b c d) k p q = elim (Bool-cases (k == i)) [
      | inl at_i ↦
          let (x, l, h, e) = Swaps-source s j c d in (x, l, h, ground (arith, get-swap m' i j k))
      | inr off ↦ elim (Bool-cases (k == j)) [
        | inl at_j ↦
            let (x, l, h, e) = Swaps-source s i a b in (x, l, h, ground (arith, get-swap m' i j k))
        | inr elsewhere ↦
            let (x, l, h, e) = Swaps-source s k p q in (x, l, h, ground (arith, get-swap m' i j k))
      ]
    ]
