-- ===== src/ReadInts/Examples.antt =====
-- 392/Creadins/readints.c and 392/lab 4/head.c: a file with numbers and a text, and a negative line count.
use cs.Prelude.{◌≡◌, refl, true, false, some, List, [], ◌∷◌, map, bytes, arith}
use cs.Prelude.Int.{pos, negsuc}
use cs.Util.{is_integer, all_digits, is_digit}
use cs.Util.Show.{show}
use cs.Util.Input.{cstr}
use cs.SortFile.Lines.{file_of}
use cs.ReadInts.{number, prints, main}
use cs.ReadInts.Head.{frees_argument, n_option, main-last}
use cs.ReadInts.Head
use cs.ReadInts.Numbers.{Line, numeral, text, render, main-numbers}

abbrev lines : List Line
lines = numeral (pos 12) ∷ text (bytes "six") ∷ numeral (negsuc 6) ∷ []

six : is_integer (cstr (bytes "six")) ≡ false
unfolding cstr is_integer all_digits is_digit
six = refl

main-numbers_example :
    main (λ name. some (file_of (map render lines))) (pos 99) (bytes "ints" ∷ [])
    ≡ prints (number (pos 12) ∷ number (negsuc 6) ∷ [])
main-numbers_example =
    main-numbers (λ name. some (file_of (map render lines))) (pos 99) (bytes "ints") lines refl
      (
        omega arith,
        ((record { plain = ground arith; short = omega arith }, six), (omega arith, tt)),
      )

main-last_example :
    Head.main (λ name. true) (n_option (bytes "3") ∷ n_option (bytes "-7") ∷ []) (bytes "log" ∷ [])
    ≡ frees_argument (bytes "log") (record { line_count = negsuc 6; warned = true })
unfolding show
main-last_example =
    main-last (λ name. true) (bytes "3" ∷ []) (negsuc 6) (bytes "log") (omega arith) refl
