-- ===== src/Quicksort/Memory.antt =====
-- 392/Quciksort/quicksort.c: `swap` on bytes. The memory behind `void *array` is a function from the
-- offset of a byte to its value, and element `k` is the `elem_sz` bytes from `k * elem_sz` on.
use cs.Prelude.{
  ℕ, zero, suc, ◌+◌, ◌*◌, ◌≤◌, ◌<◌, ◌≡◌, refl, false, ◌&&◌, [], ◌∷◌, Bytes, ltb, leb, ◌==◌, ◌≢◌,
  if◌then◌else◌, arith, ap, ◌∙◌, dec_lt, Bool-cases, inl, inr, ◌⊎◌, ==_refl,
}
use native.Mathlib.Nat.{mul-le-mul_right}
use cs.Quicksort.Array.{Array}

abbrev pub Memory : Type 0
Memory = ℕ → ℕ

abbrev pub put : Memory → ℕ → ℕ → Memory
put m a v x = if x == a then v else m x

-- The body of the loop: `temporary = *x; *x = *y; *y = temporary`.
abbrev pub exchange : ℕ → ℕ → Memory → Memory
exchange x y m = let temporary = m x in put (put m x (m y)) y temporary

-- The loop of `swap`, with `w` bytes left.
unfoldable pub swap_bytes : ℕ → ℕ → ℕ → Memory → Memory
swap_bytes zero x y m = m
swap_bytes (suc w) x y m = swap_bytes w (suc x) (suc y) (exchange x y m)

unfoldable pub read_bytes : ℕ → ℕ → Memory → Bytes
read_bytes zero x m = []
read_bytes (suc w) x m = m x ∷ read_bytes w (suc x) m

abbrev pub Apart : ℕ → ℕ → ℕ → Type 0
Apart w x y = (x + w ≤ y) ⊎ (y + w ≤ x)

module _ (x y : ℕ) (m : Memory) where
  exchange-left : x ≢ y → exchange x y m x ≡ m y
  exchange-left h = ground arith

  exchange-right : exchange x y m y ≡ m x
  exchange-right = ground arith

  exchange-outside : (z : ℕ) → z ≢ x → z ≢ y → exchange x y m z ≡ m z
  exchange-outside z h k = ground arith

-- Bytes of neither range stay.
pub swap_bytes-outside :
    (w x y : ℕ) (m : Memory) (z : ℕ)
    → (leb x z && ltb z (x + w)) ≡ false
    → (leb y z && ltb z (y + w)) ≡ false
    → swap_bytes w x y m z ≡ m z
unfolding swap_bytes
swap_bytes-outside zero x y m z h k = refl
swap_bytes-outside (suc w) x y m z h k =
    swap_bytes-outside w (suc x) (suc y) (exchange x y m) z (ground arith) (ground arith)
    ∙ exchange-outside x y m z (ground arith) (ground arith)

-- The first range gets the second's bytes.
pub swap_bytes-left :
    (w x y : ℕ) (m : Memory) (t : ℕ) → Apart w x y → t < w → swap_bytes w x y m (x + t) ≡ m (y + t)
unfolding swap_bytes
swap_bytes-left zero x y m t h l = omega arith
swap_bytes-left (suc w) x y m zero h l =
    swap_bytes-outside w (suc x) (suc y) (exchange x y m) (x + 0) (ground arith) (ground arith)
    ∙ ground (arith, exchange-left x y m)
swap_bytes-left (suc w) x y m (suc t) h l =
    ap (swap_bytes w (suc x) (suc y) (exchange x y m)) (omega arith)
    ∙ swap_bytes-left w (suc x) (suc y) (exchange x y m) t (ground arith) (omega arith)
    ∙ exchange-outside x y m (suc y + t) (ground arith) (ground arith)
    ∙ ap m (omega arith)

pub swap_bytes-right :
    (w x y : ℕ) (m : Memory) (t : ℕ) → Apart w x y → t < w → swap_bytes w x y m (y + t) ≡ m (x + t)
unfolding swap_bytes
swap_bytes-right zero x y m t h l = omega arith
swap_bytes-right (suc w) x y m zero h l =
    swap_bytes-outside w (suc x) (suc y) (exchange x y m) (y + 0) (ground arith) (ground arith)
    ∙ ground (arith, exchange-right x y m)
swap_bytes-right (suc w) x y m (suc t) h l =
    ap (swap_bytes w (suc x) (suc y) (exchange x y m)) (omega arith)
    ∙ swap_bytes-right w (suc x) (suc y) (exchange x y m) t (ground arith) (omega arith)
    ∙ exchange-outside x y m (suc x + t) (ground arith) (ground arith)
    ∙ ap m (omega arith)

exchange_same : (x : ℕ) (m : Memory) (z : ℕ) → exchange x x m z ≡ m z
exchange_same x m z = elim (Bool-cases (z == x)) [
  | inl h ↦ ground (arith, ap m)
  | inr h ↦ ground arith
]

swap_bytes_same : (w x : ℕ) (m : Memory) (z : ℕ) → swap_bytes w x x m z ≡ m z
unfolding swap_bytes
swap_bytes_same zero x m z = refl
swap_bytes_same (suc w) x m z = swap_bytes_same w (suc x) (exchange x x m) z ∙ exchange_same x m z

read_bytes-eq :
    (w x y : ℕ) (m n : Memory)
    → ((t : ℕ) → t < w → m (x + t) ≡ n (y + t))
    → read_bytes w x m ≡ read_bytes w y n
unfolding read_bytes
read_bytes-eq zero x y m n h = refl
read_bytes-eq (suc w) x y m n h =
    ground (arith, h 0, read_bytes-eq w (suc x) (suc y) m n (λ t l. ground (arith, h (suc t))))

distant_blocks : (w i j : ℕ) → i ≢ j → Apart w (i * w) (j * w)
distant_blocks w i j h = elim (dec_lt i j) [
  | yes l ↦ inl (omega (arith, mul-le-mul_right {m = suc i} {n = j} w (omega arith)))
  | no g ↦ inr (omega (arith, mul-le-mul_right {m = suc j} {n = i} w (omega arith)))
]

-- The element at index `k`.
abbrev pub element : ℕ → Memory → ℕ → Bytes
element elem_sz m k = read_bytes elem_sz (k * elem_sz) m

abbrev pub swap : ℕ → Memory → ℕ → ℕ → Memory
swap elem_sz m i j = swap_bytes elem_sz (i * elem_sz) (j * elem_sz) m

Apart-outside : (w x y t : ℕ) → Apart w x y → t < w → (leb y (x + t) && ltb (x + t) (y + w)) ≡ false
Apart-outside w x y t h l = ground arith

module _ (w : ℕ) (m : Memory) where
  element-swap_first : (i j : ℕ) → element w (swap w m i j) i ≡ element w m j
  element-swap_first i j = elim (Bool-cases (i == j)) [
    | inl h ↦
        let e : i ≡ j = ground arith in
        rw e (
          read_bytes-eq w (j * w) (j * w) (swap w m j j) m
            (λ t l. swap_bytes_same w (j * w) m (j * w + t)))
    | inr h ↦
        read_bytes-eq w (i * w) (j * w) (swap w m i j) m
          (λ t l. swap_bytes-left w (i * w) (j * w) m t (distant_blocks w i j (ground arith)) l)
  ]

  element-swap_second : (i j : ℕ) → i ≢ j → element w (swap w m i j) j ≡ element w m i
  element-swap_second i j h =
      read_bytes-eq w (j * w) (i * w) (swap w m i j) m
        (λ t l. swap_bytes-right w (i * w) (j * w) m t (distant_blocks w i j h) l)

  element-swap_other : (i j k : ℕ) → k ≢ i → k ≢ j → element w (swap w m i j) k ≡ element w m k
  element-swap_other i j k h g = read_bytes-eq w (k * w) (k * w) (swap w m i j) m (λ t l.
      swap_bytes-outside w (i * w) (j * w) m (k * w + t)
        (Apart-outside w (k * w) (i * w) t (distant_blocks w k i h) l)
        (Apart-outside w (k * w) (j * w) t (distant_blocks w k j g) l))

  -- `swap` byte by byte exchanges the elements with the indices `i` and `j`, which may be the same,
  -- and leaves every other element, whatever the size of an element is.
  pub element-swap :
      (i j k : ℕ)
      → element w (swap w m i j) k
        ≡ (if k == i then element w m j else if k == j then element w m i else element w m k)
  element-swap i j k = elim (Bool-cases (k == i)) [
    | inl h ↦ let e : k ≡ i = ground arith in rw e (rw (==_refl i) (element-swap_first i j))
    | inr h ↦ elim (Bool-cases (k == j)) [
      | inl g ↦
          let e : k ≡ j = ground arith in rw (h, g) (rw e (element-swap_second i j (ground arith)))
      | inr g ↦ rw (h, g) (element-swap_other i j k (ground arith) (ground arith))
    ]
  ]

-- The array that the source works on, as one for `quicksort`.
abbrev pub memory : ℕ → Array Memory Bytes
memory elem_sz = record {
  get = element elem_sz;
  swap = swap elem_sz;
  get-swap = element-swap elem_sz;
}
