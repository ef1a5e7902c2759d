-- ===== src/Quicksort/Examples.antt =====
-- 392/Quciksort/quicksort.c: runs of the sort, and its theorems at concrete inputs.
use cs.Prelude.{
  ℕ, zero, suc, ◌≡◌, refl, Bool, false, List, [], ◌∷◌, Bytes, bytes, Option, none, some, ltb, ◌==◌,
  if◌then◌else◌,
}
use cs.Prelude.Int.{ℤ, pos, negsuc}
use cs.Quicksort.{lomuto, quicksort, quicksort_helper, lomuto_loop}
use cs.Quicksort.Memory.{Memory, memory, element, swap, element-swap, read_bytes, swap_bytes}
use cs.Quicksort.Compare.{int_at, int_cmp, str_cmp, str_cmp-IsOrder, compare_int, from_bytes}
use cs.Quicksort.Sorted.{SortedOn, quicksort-IsSorted}
use cs.Quicksort.Tally.{tally}

abbrev from_list : Bytes → Memory
from_list [] k = 0
from_list (b ∷ bs) zero = b
from_list (b ∷ bs) (suc k) = from_list bs k

-- 7, -2, 300, 7
abbrev four_ints : Memory
four_ints = from_list (7 ∷ 0 ∷ 0 ∷ 0 ∷ 254 ∷ 255 ∷ 255 ∷ 255 ∷ 44 ∷ 1 ∷ 0 ∷ 0 ∷ 7 ∷ 0 ∷ 0 ∷ 0 ∷ [])

abbrev ints_of : Option Memory → List ℤ
ints_of none = []
ints_of (some m) = int_at m 0 ∷ int_at m 1 ∷ int_at m 2 ∷ int_at m 3 ∷ []

sort_four_ints :
    ints_of (quicksort (memory 4) int_cmp 4 four_ints) ≡ negsuc 1 ∷ pos 7 ∷ pos 7 ∷ pos 300 ∷ []
unfolding quicksort quicksort_helper lomuto lomuto_loop from_bytes read_bytes swap_bytes
sort_four_ints = refl

partition_four_ints : (lomuto (memory 4) int_cmp 0 4 four_ints).0 ≡ 1
unfolding lomuto lomuto_loop from_bytes read_bytes swap_bytes
partition_four_ints = refl

compare_two_ints : compare_int (pos 3) (negsuc 4) ≡ pos 1
compare_two_ints = refl

-- One-byte elements that stand for the names of three files.
abbrev name_of : Bytes → Bytes
name_of [] = []
name_of (b ∷ bs) = if b == 0 then bytes "ba" else if b == 1 then bytes "b" else bytes "ab"

abbrev three_names : Memory
three_names = from_list (0 ∷ 1 ∷ 2 ∷ [])

quicksort-IsSorted_example :
    (m' : Memory) × (quicksort (memory 1) (str_cmp name_of) 3 three_names ≡ some m')
    × SortedOn (memory 1) (str_cmp name_of) (str_cmp-IsOrder name_of) m' 0 3
    × ((p : Bytes → Bool) → tally (memory 1) p m' 3 ≡ tally (memory 1) p three_names 3)
    × ((k : ℕ) → ltb k 3 ≡ false → element 1 m' k ≡ element 1 three_names k)
quicksort-IsSorted_example =
    quicksort-IsSorted (memory 1) (str_cmp name_of) (str_cmp-IsOrder name_of) 3 three_names

element-swap_example : element 4 (swap 4 four_ints 0 1) 1 ≡ element 4 four_ints 0
element-swap_example = element-swap 4 four_ints 0 1 1
