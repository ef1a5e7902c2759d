-- ===== src/SortFile/Sorted.antt =====
-- 392/Quciksort/sort.c: what the program prints.
use cs.Prelude.{
  ℕ, zero, suc, ◌+◌, ◌≤◌, ◌<◌, ◌≡◌, refl, sym, ◌∙◌, ap, Bool, true, false, Option, some, List, [],
  ◌∷◌, ◌++◌, map, Bytes, if◌then◌else◌, length, arith, All, ltb, le→leb, lt→ltb, All-append,
}
use cs.Prelude.Int.{ℤ, pos, is_neg}
use cs.Util.{atoi}
use cs.Util.Show.{show}
use cs.Quicksort.Sorted.{IsOrder, quicksort-IsSorted}
use cs.Quicksort.Tally.{tally, tally-zero, tally-suc}
use cs.Quicksort.Compare.{strcmp, compare_int, str_cmp-IsOrder, compare_int-IsOrder}
use cs.SortFile.{
  max_strlen, max_elements, cells, array_of, listing, Outcome, out_of_bounds, prints, frees_unset,
  frees_beyond, free_strings, strings_branch, all_fit, print_sorted, sort_texts, sort_numbers,
  i_option, getopts, read_file, main,
}
use cs.Util.Input.{cstr-length, cstr}
use cs.SortFile.Lines.{atoi-cstr, IsLine, file_of, read_lines-file_of}

-- How many elements of a list have a property.
abbrev pub count : {A : Type 0} → (A → Bool) → List A → ℕ
count p [] = 0
count p (a ∷ rest) = (if p a then 1 else 0) + count p rest

-- No element is below an earlier one.
abbrev pub NoneBelow : {A : Type 0} → (A → A → ℤ) → A → List A → Type 0
NoneBelow comp a rest = All (λ b. is_neg (comp b a) ≡ false) rest

abbrev pub InOrder : {A : Type 0} → (A → A → ℤ) → List A → Type 0
InOrder comp [] = Unit
InOrder comp (a ∷ rest) = NoneBelow comp a rest × InOrder comp rest

-- The list holds the same elements as the other, as often, in order.
pub record IsSorting {A : Type 0} (comp : A → A → ℤ) (before after : List A) : Type 0 where
  pub in_order : InOrder comp after
  pub same : (p : A → Bool) → count p after ≡ count p before

module _ {A : Type 0} where
  count-append : (p : A → Bool) (xs ys : List A) → count p (xs ++ ys) ≡ count p xs + count p ys
  count-append p [] ys = omega arith
  count-append p (x ∷ xs) ys = omega (arith, count-append p xs ys)

  count-listing : (p : A → Bool) (m : ℕ → A) (n : ℕ) → count p (listing m n) ≡ tally (cells A) p m n
  count-listing p m zero = sym (tally-zero (cells A) p m)
  count-listing p m (suc n) = omega (
    arith,
    tally-suc (cells A) p m n,
    count-append p (listing m n) (m n ∷ []),
    count-listing p m n,
  )

  listing-cons :
      (d a : A) (rest : List A) (n : ℕ)
      → listing (array_of d (a ∷ rest)) (suc n) ≡ a ∷ listing (array_of d rest) n
  listing-cons d a rest zero = refl
  listing-cons d a rest (suc n) = ap (λ l. l ++ array_of d rest n ∷ []) (listing-cons d a rest n)

  listing-array_of :
      (d : A) (elements : List A) → listing (array_of d elements) (length elements) ≡ elements
  listing-array_of d [] = refl
  listing-array_of d (a ∷ rest) =
      listing-cons d a rest (length rest) ∙ ap (◌∷◌ a) (listing-array_of d rest)

  All-listing :
      (P : A → Type 0) (m : ℕ → A) (n : ℕ) → ((k : ℕ) → k < n → P (m k)) → All P (listing m n)
  All-listing P m zero f = tt
  All-listing P m (suc n) f =
      All-append P (listing m n) (m n ∷ []) (All-listing P m n (λ k l. f k (omega arith)))
        (f n (omega arith), tt)

  module _ (comp : A → A → ℤ) where
    NoneBelow-append :
        (a b : A) (rest : List A)
        → NoneBelow comp a rest
        → is_neg (comp b a) ≡ false
        → NoneBelow comp a (rest ++ b ∷ [])
    NoneBelow-append a b [] n h = (h, tt)
    NoneBelow-append a b (c ∷ rest) n h = (n.0, NoneBelow-append a b rest n.1 h)

    InOrder-append :
        (xs : List A) (b : A)
        → InOrder comp xs
        → All (λ a. is_neg (comp b a) ≡ false) xs
        → InOrder comp (xs ++ b ∷ [])
    InOrder-append [] b o h = (tt, tt)
    InOrder-append (x ∷ xs) b o h = (NoneBelow-append x b xs o.0 h.0, InOrder-append xs b o.1 h.1)

    InOrder-listing :
        (m : ℕ → A) (n : ℕ)
        → ((i j : ℕ) → i < j → j < n → is_neg (comp (m j) (m i)) ≡ false)
        → InOrder comp (listing m n)
    InOrder-listing m zero f = tt
    InOrder-listing m (suc n) f =
        InOrder-append (listing m n) (m n) (InOrder-listing m n (λ i j a b. f i j a (omega arith)))
          (All-listing (λ a. is_neg (comp (m n) a) ≡ false) m n (λ k l. f k n l (omega arith)))

    -- At most 1024 elements are sorted by quicksort and printed.
    print_sorted-IsSorting :
        (text : A → Bytes) (d : A) (elements : List A)
        → IsOrder comp
        → length elements ≤ max_elements
        → (after : List A) × (print_sorted text comp d elements ≡ prints (map text after))
          × IsSorting comp elements after
    print_sorted-IsSorting text d elements ord l =
        let n = length elements in
        let (m, e, sorted, counts, rest) =
          quicksort-IsSorted (cells A) comp ord n (array_of d elements) in
        (
          listing m n,
          rw (le→leb n max_elements l, e) refl,
          record {
            in_order = InOrder-listing m n (λ i j a b. sorted i j (omega arith) a b);
            same = λ p.
                count-listing p m n
                ∙ counts p
                ∙ sym (count-listing p (array_of d elements) n)
                ∙ ap (count p) (listing-array_of d elements);
          },
        )

all_fit-IsLine : (lines : List Bytes) → All (IsLine 63) lines → all_fit (map cstr lines) ≡ true
all_fit-IsLine [] a = refl
all_fit-IsLine (line ∷ lines) a =
    rw
      (
        lt→ltb (length (cstr line)) max_strlen (omega (arith, a.0.short, cstr-length line)),
        all_fit-IsLine lines a.1,
      )
      refl

IsLine-longer : (lines : List Bytes) → All (IsLine 63) lines → All (IsLine max_strlen) lines
IsLine-longer [] a = tt
IsLine-longer (line ∷ lines) a =
    (record { plain = a.0.plain; short = omega (arith, a.0.short) }, IsLine-longer lines a.1)

length-map : {A B : Type 0} (f : A → B) (xs : List A) → length (map f xs) ≡ length xs
length-map f [] = refl
length-map f (x ∷ xs) = ap suc (length-map f xs)

map_same : (xs : List Bytes) → map (λ line. line) xs ≡ xs
map_same [] = refl
map_same (x ∷ xs) = ap (◌∷◌ x) (map_same xs)

map-atoi : (lines : List Bytes) → map atoi (map cstr lines) ≡ map atoi lines
map-atoi [] = refl
map-atoi (line ∷ lines) =
    ap (◌∷◌ (atoi (cstr line))) (map-atoi lines) ∙ ap (λ z. z ∷ map atoi lines) (atoi-cstr line)

-- What `sort file` comes to when it has printed the lines: the `free` of an element that was never set.
abbrev pub freed_too_many : ℕ → List Bytes → Outcome
freed_too_many n lines = if ltb n max_elements then frees_unset lines else frees_beyond lines

-- On a file of at most 1024 lines of at most 63 bytes, each with a newline, `sort file` prints the lines as
-- C strings, each as often as it occurs, in the order of strcmp. Then it gives `free` an element that
-- it has never set, and with 1024 lines one that lies behind the array.
pub main-strings :
    (fopen : Bytes → Option Bytes) (name : Bytes) (lines : List Bytes)
    → fopen name ≡ some (file_of lines)
    → All (IsLine 63) lines
    → length lines ≤ max_elements
    → (after : List Bytes) × (main fopen (name ∷ []) [] ≡ freed_too_many (length lines) after)
      × IsSorting strcmp (map cstr lines) after
unfolding main getopts
main-strings fopen name lines o a l =
    let texts = map cstr lines in
    let (after, e, sorting) =
      print_sorted-IsSorting strcmp (λ line. line) [] texts (str_cmp-IsOrder (λ b. b))
        (omega (arith, l, length-map cstr lines)) in
    let back =
      read_lines-file_of max_strlen (length (file_of lines)) lines (IsLine-longer lines a)
        (omega arith) in
    let sorted : sort_texts texts ≡ prints after =
      rw (sort_texts, all_fit-IsLine lines a) (e ∙ ap prints (map_same after)) in
    (
      after,
      rw (read_file, o)
          (ap strings_branch back
            ∙ ap (free_strings (length texts)) sorted
            ∙ ap (λ n. freed_too_many n after) (length-map cstr lines)),
      sorting,
    )

-- On a file of at most 1024 lines of at most 64 bytes, `sort -i file` prints the numbers that `atoi` reads
-- from the lines, each as often as it occurs, in their order.
pub main-ints :
    (fopen : Bytes → Option Bytes) (flag name : Bytes) (lines : List Bytes)
    → fopen name ≡ some (file_of lines)
    → All (IsLine max_strlen) lines
    → length lines ≤ max_elements
    → (after : List ℤ) × (main fopen (flag ∷ name ∷ []) (i_option ∷ []) ≡ prints (map show after))
      × IsSorting compare_int (map atoi lines) after
unfolding main getopts
main-ints fopen flag name lines o a l =
    let (after, e, sorting) =
      print_sorted-IsSorting compare_int show (pos 0) (map atoi lines) compare_int-IsOrder
        (omega (arith, l, length-map atoi lines)) in
    let back = read_lines-file_of max_strlen (length (file_of lines)) lines a (omega arith) in
    (
      after,
      rw (read_file, o)
          (ap sort_numbers back ∙ ap (print_sorted show compare_int (pos 0)) (map-atoi lines) ∙ e),
      sorting,
    )

all_fit-long :
    (front : List Bytes) (line : Bytes) (back : List Bytes)
    → length (cstr line) ≡ 64
    → all_fit (map cstr (front ++ line ∷ back)) ≡ false
all_fit-long [] line back e = ground (arith, e)
all_fit-long (x ∷ front) line back e = ground (arith, all_fit-long front line back e)

-- A line of 64 bytes without a '\0', among lines of at most 64 bytes, makes `sort file` write behind the
-- memory that it has allocated for the line.
pub main-overruns :
    (fopen : Bytes → Option Bytes) (name : Bytes) (front : List Bytes) (line : Bytes)
    (back : List Bytes)
    → fopen name ≡ some (file_of (front ++ line ∷ back))
    → All (IsLine max_strlen) (front ++ line ∷ back)
    → length (cstr line) ≡ 64
    → main fopen (name ∷ []) [] ≡ out_of_bounds
unfolding main getopts
main-overruns fopen name front line back o a e =
    let lines = front ++ line ∷ back in
    let same = read_lines-file_of max_strlen (length (file_of lines)) lines a (omega arith) in
    let long : sort_texts (map cstr lines) ≡ out_of_bounds =
      rw (sort_texts, all_fit-long front line back e) refl in
    rw (read_file, o) (ap strings_branch same ∙ ap (free_strings (length (map cstr lines))) long)
