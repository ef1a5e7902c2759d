-- ===== src/SortFile/Examples.antt =====
-- 392/Quciksort/sort.c: files, and what the program prints.
use cs.Prelude.{◌≡◌, refl, some, List, [], ◌∷◌, ◌++◌, map, Bytes, bytes, replicate, arith}
use cs.Prelude.Int.{ℤ}
use cs.Util.{atoi}
use cs.Util.Show.{show}
use cs.Quicksort.Compare.{strcmp, compare_int}
use cs.SortFile.{out_of_bounds, prints, i_option, main, read_lines, fgets, before_newline}
use cs.SortFile.Lines.{file_of}
use cs.Util.Input.{cstr}
use cs.SortFile.Sorted.{freed_too_many, IsSorting, main-strings, main-ints, main-overruns}

abbrev lines : List Bytes
lines = bytes "pear" ∷ bytes "apple" ∷ bytes "" ∷ bytes "apple" ∷ []

abbrev numbers : List Bytes
numbers = bytes "10" ∷ bytes "-3" ∷ bytes "7" ∷ []

abbrev long : Bytes
long = replicate 64 b'x'

read_back :
    read_lines 64 18 (bytes "pear\napple\n\nappl")
    ≡ bytes "pear" ∷ bytes "apple" ∷ [] ∷ bytes "appl" ∷ []
unfolding read_lines fgets before_newline cstr
read_back = refl

main-strings_example :
    (after : List Bytes) × (main (λ name. some (file_of lines)) (bytes "fruit" ∷ []) []
      ≡ freed_too_many 4 after)
    × IsSorting strcmp (map cstr lines) after
main-strings_example =
    main-strings (λ name. some (file_of lines)) (bytes "fruit") lines refl (ground arith)
      (omega arith)

main-ints_example :
    (after : List ℤ) × (main
        (λ name. some (file_of numbers))
        (bytes "-i" ∷ bytes "ints" ∷ [])
        (i_option ∷ [])
      ≡ prints (map show after))
    × IsSorting compare_int (map atoi numbers) after
main-ints_example =
    main-ints (λ name. some (file_of numbers)) (bytes "-i") (bytes "ints") numbers refl
      (ground arith) (omega arith)

main-overruns_example :
    main (λ name. some (file_of (lines ++ long ∷ []))) (bytes "fruit" ∷ []) [] ≡ out_of_bounds
unfolding cstr
main-overruns_example =
    main-overruns (λ name. some (file_of (lines ++ long ∷ []))) (bytes "fruit") lines long [] refl
      (ground arith) refl
