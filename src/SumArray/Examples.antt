-- ===== src/SumArray/Examples.antt =====
-- mpsumarray/mpsumarray.c: a run of `main` and its two children, and the theorems at its end.
use cs.Prelude.{
  ℕ, ◌==◌, ◌↔◌, ◌<◌, ◌≤◌, ◌+◌, ◌*◌, ◌≡◌, refl, true, false, none, some, List, [], ◌∷◌, bytes, arith,
}
use cs.Server.State.{success, failure}
use cs.Semaphore.Adders.{add32, enter, load, store, leave}
use cs.SumArray.{
  random_array, sum_array, sum_check, System, printed, child, child_exits, fork, all_forked, wait,
  print, Reachable, started, stepped,
}
use cs.SumArray.{check_loop}
use cs.SumArray.Total.{Reachable-printed}
use cs.SumArray.Halves.{sum_array-sum_check}
use cs.SumArray.Cleanup.{
  main, Answers, Action, Outcome, ends, reads_unset, says, process_failed, frees_array, detaches,
  cannot_detach, removes_segment, deletes_semaphore,
}
use cs.SumArray.Cleanup.Releases.{
  releases, obtained, has_segment, IsUnderWay, main-reads_unset, main-releases,
}
use cs.Util.{sscanf_lld, scan_number, scan_digits, is_digit}

abbrev values : ℕ → ℕ
values = random_array (λ i. 13 * i + 4)

abbrev even : ℕ
even = sum_array values 0 3

abbrev odd : ℕ
odd = sum_array values 1 3

zero_below : 0 < 2
zero_below = omega arith

one_below : 1 < 2
one_below = omega arith

enough : 2 ≤ 2
enough = omega arith

-- The children take turns: the odd places are added first.
run : (s : System) × Reachable values 3 s × (s.phase ≡ printed (add32 (add32 0 odd) even))
run =
    let r0 = started in
    let r1 = stepped r0 (fork 0 refl zero_below) in
    let r2 = stepped r1 (fork 1 refl one_below) in
    let r3 = stepped r2 (child (enter 1 odd [] success none (some 0) refl refl refl)) in
    let r4 = stepped r3 (child (load 1 refl)) in
    let r5 = stepped r4 (child (store 1 0 odd [] refl refl)) in
    let r6 = stepped r5 (child (leave 1 success none (some 1) refl refl)) in
    let r7 = stepped r6 (child_exits 1 one_below refl refl) in
    let r8 = stepped r7 (all_forked 2 refl enough) in
    let r9 = stepped r8 (child (enter 0 even [] success none (some 0) refl refl refl)) in
    let r10 = stepped r9 (child (load 0 refl)) in
    let r11 = stepped r10 (child (store 0 (add32 0 odd) even [] refl refl)) in
    let r12 = stepped r11 (child (leave 0 success none (some 1) refl refl)) in
    let r13 = stepped r12 (child_exits 0 zero_below refl refl) in
    let r14 = stepped r13 (wait 0 1 refl zero_below one_below refl) in
    let r15 = stepped r14 (wait 1 0 refl one_below zero_below refl) in
    let r16 = stepped r15 (print 2 refl enough) in (_, r16, refl)

Reachable-printed_example : add32 (add32 0 odd) even ≡ sum_check values 3
Reachable-printed_example = Reachable-printed values 3 run.0 (add32 (add32 0 odd) even) run.1 run.2

both_sums : sum_check values 3 ≡ 11
unfolding check_loop
both_sums = refl

sum_array-sum_check_example :
    add32 (sum_array values 0 3) (sum_array values 1 3) ≡ sum_check values 3
sum_array-sum_check_example = sum_array-sum_check values 3

-- Every call goes well.
abbrev fine : Answers
fine = record {
  malloc = true;
  ftok = true;
  semget = some 98304;
  setval = some 0;
  shmget = some 32768;
  shmat = some 4096;
  fork = λ i. true;
  wait = λ i. true;
  shmdt = true;
  shmctl = true;
  rmid = some 1;
}

-- The second `fork` fails, and then the detaching.
abbrev one_child : Answers
one_child = record fine { fork = λ i. i == 0; shmdt = false }

abbrev log_of : Outcome → List Action
log_of (ends st log) = log
log_of reads_unset = []

one_child_run :
    main (bytes "12" ∷ []) one_child
    ≡ ends failure (
        says (process_failed 2)
        ∷ frees_array
        ∷ detaches 4096
        ∷ says cannot_detach
        ∷ removes_segment 32768
        ∷ deletes_semaphore 98304
        ∷ [])
unfolding main sscanf_lld scan_number scan_digits is_digit
one_child_run = refl

underway : IsUnderWay (bytes "12") one_child
unfolding sscanf_lld scan_number scan_digits is_digit
underway = (refl, refl)

main-reads_unset_example :
    (main (bytes "12" ∷ []) (record one_child { shmget = none }) ≡ reads_unset)
    ↔ (has_segment (record one_child { shmget = none }) ≡ false)
main-reads_unset_example =
    main-reads_unset (bytes "12") (record one_child { shmget = none }) underway

main-releases_example : releases (log_of (main (bytes "12" ∷ []) one_child)) ≡ obtained one_child
unfolding main sscanf_lld scan_number scan_digits is_digit
main-releases_example =
    main-releases (bytes "12") one_child failure (log_of (main (bytes "12" ∷ []) one_child))
      underway one_child_run
