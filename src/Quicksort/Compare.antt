-- ===== src/Quicksort/Compare.antt =====
-- 392/Quciksort/quicksort.c: the comparators for integers and strings, on the bytes of an element.
use cs.Prelude.{
  ℕ, ◌+◌, ◌*◌, ◌<◌, ◌≡◌, refl, true, false, [], ◌∷◌, Bytes, some, ltb, if◌then◌else◌, arith,
}
use cs.Prelude.Int.{ℤ, pos, minus_one, is_neg, eq_ℤ, ltb_ℤ, signed32}
use cs.Quicksort.{quicksort}
use cs.Quicksort.Memory.{Memory, memory, element}
use cs.Quicksort.Sorted.{IsOrder, quicksort-IsSorted}
use cs.Quicksort.Tally.{tally}

-- The number that a little-endian machine reads.
unfoldable pub from_bytes : Bytes → ℕ
from_bytes [] = 0
from_bytes (b ∷ bs) = b + 256 * from_bytes bs

-- `*(int *)a`
abbrev pub load_int : Bytes → ℤ
load_int a = signed32 (from_bytes a)

abbrev pub compare_int : ℤ → ℤ → ℤ
compare_int x y = if eq_ℤ x y then pos 0 else if ltb_ℤ x y then minus_one else pos 1

abbrev pub int_cmp : Bytes → Bytes → ℤ
int_cmp a b = compare_int (load_int a) (load_int b)

-- The sign of `strcmp`.
unfoldable pub strcmp : Bytes → Bytes → ℤ
strcmp [] [] = pos 0
strcmp [] (y ∷ ys) = minus_one
strcmp (x ∷ xs) [] = pos 1
strcmp (x ∷ xs) (y ∷ ys) =
    let rest = strcmp xs ys in if ltb x y then minus_one else if ltb y x then pos 1 else rest

-- `string` is what the pointer in an element points to.
abbrev pub str_cmp : (Bytes → Bytes) → Bytes → Bytes → ℤ
str_cmp string a b = strcmp (string a) (string b)

compare_int_asym : (x y : ℤ) → is_neg (compare_int x y) ≡ true → is_neg (compare_int y x) ≡ false
compare_int_asym x y h = ground arith

compare_int_trans :
    (x y z : ℤ)
    → is_neg (compare_int y x) ≡ false
    → is_neg (compare_int z y) ≡ false
    → is_neg (compare_int z x) ≡ false
compare_int_trans x y z h k = ground arith

pub compare_int-IsOrder : IsOrder compare_int
compare_int-IsOrder = record { asym = compare_int_asym; trans = compare_int_trans }

pub int_cmp-IsOrder : IsOrder int_cmp
int_cmp-IsOrder = record {
  asym = λ a b. compare_int_asym (load_int a) (load_int b);
  trans = λ a b c. compare_int_trans (load_int a) (load_int b) (load_int c);
}

strcmp_asym : (a b : Bytes) → is_neg (strcmp a b) ≡ true → is_neg (strcmp b a) ≡ false
unfolding strcmp
strcmp_asym [] [] h = refl
strcmp_asym [] (y ∷ ys) h = refl
strcmp_asym (x ∷ xs) [] h = ground arith
strcmp_asym (x ∷ xs) (y ∷ ys) h = ground (arith, strcmp_asym xs ys)

strcmp_trans :
    (a b c : Bytes)
    → is_neg (strcmp b a) ≡ false
    → is_neg (strcmp c b) ≡ false
    → is_neg (strcmp c a) ≡ false
unfolding strcmp
strcmp_trans [] b [] h k = refl
strcmp_trans [] b (z ∷ zs) h k = refl
strcmp_trans (x ∷ xs) [] c h k = ground arith
strcmp_trans (x ∷ xs) (y ∷ ys) [] h k = ground arith
strcmp_trans (x ∷ xs) (y ∷ ys) (z ∷ zs) h k = ground (arith, strcmp_trans xs ys zs)

-- `str_cmp` orders, whatever the pointers point to, so that `quicksort` may be called with it.
pub str_cmp-IsOrder : (string : Bytes → Bytes) → IsOrder (str_cmp string)
str_cmp-IsOrder string = record {
  asym = λ a b. strcmp_asym (string a) (string b);
  trans = λ a b c. strcmp_trans (string a) (string b) (string c);
}

-- The `int` at index `k`.
abbrev pub int_at : Memory → ℕ → ℤ
int_at m k = load_int (element 4 m k)

below : (x y : ℤ) → is_neg (compare_int x y) ≡ false → ltb_ℤ x y ≡ false
below x y h = ground arith

-- `quicksort` with `int_cmp` and elements of four bytes returns on the bytes of every array of
-- `int`: no number is then less than an earlier one, every number occurs as often as before, and
-- the elements behind the array are as they were.
pub quicksort-ints :
    (len : ℕ) (m : Memory)
    → (m' : Memory) × (quicksort (memory 4) int_cmp len m ≡ some m')
      × ((i j : ℕ) → i < j → j < len → ltb_ℤ (int_at m' j) (int_at m' i) ≡ false)
      × ((v : ℤ)
          → tally (memory 4) (λ a. eq_ℤ (load_int a) v) m' len
            ≡ tally (memory 4) (λ a. eq_ℤ (load_int a) v) m len)
      × ((k : ℕ) → ltb k len ≡ false → element 4 m' k ≡ element 4 m k)
quicksort-ints len m =
    let (m', e, sorted, counts, rest) =
      quicksort-IsSorted (memory 4) int_cmp int_cmp-IsOrder len m in
    (
      m',
      e,
      λ i j a b. below (int_at m' j) (int_at m' i) (sorted i j (omega arith) a b),
      λ v. counts (λ a. eq_ℤ (load_int a) v),
      rest,
    )
