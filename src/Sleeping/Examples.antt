-- ===== src/Sleeping/Examples.antt =====
-- sharedmem/sleepingprocesses.c: a run with two rounds, and the theorems at its end.
use cs.Prelude.{◌<◌, ◌≤◌, ◌≡◌, refl, true, false, none, some, List, [], ◌∷◌, bytes, arith, ◌==◌}
use cs.Server.State.{success, failure}
use cs.Semaphore.Adders.{add32, enter, load, store, leave}
use cs.Sleeping.{
  increment, decrement, all_done, System, reported, process, child_exits, fork, fork_fails, counted,
  all_forked, wait, tell, Reachable, started, stepped,
}
use cs.Sleeping.Count.{Reachable-reported}
use cs.Sleeping.Setup.{main, serve}
use cs.Sleeping.Setup.Given.{IsUnderWay}
use cs.SumArray.Cleanup.{
  Answers, Action, ends, says, process_failed, cannot_free, detaches, removes_segment,
  deletes_semaphore,
}
use cs.Util.{parse_int, is_integer, all_digits, sscanf_lld, scan_number, scan_digits, is_digit}

zero_below : 0 < 2
zero_below = omega arith

one_below : 1 < 2
one_below = omega arith

enough : 2 ≤ 2
enough = omega arith

-- The child counts itself out before the parent has counted it in; the second `fork` fails.
run : (s : System) × Reachable 2 s × (s.phase ≡ reported s.num_started all_done)
run =
    let r0 = started in
    let r1 = stepped r0 (fork 0 refl zero_below) in
    let r2 = stepped r1 (process (enter 0 decrement [] success none (some 0) refl refl refl)) in
    let r3 = stepped r2 (process (load 0 refl)) in
    let r4 = stepped r3 (process (store 0 0 decrement [] refl refl)) in
    let r5 = stepped r4 (process (leave 0 success none (some 1) refl refl)) in
    let r6 = stepped r5 (process (enter 2 increment [] success none (some 0) refl refl refl)) in
    let r7 = stepped r6 (process (load 2 refl)) in
    let r8 = stepped r7 (process (store 2 (add32 0 decrement) increment [] refl refl)) in
    let r9 = stepped r8 (process (leave 2 success none (some 1) refl refl)) in
    let r10 = stepped r9 (counted 0 refl refl refl) in
    let r11 = stepped r10 (fork_fails 1 refl one_below) in
    let r12 = stepped r11 (all_forked 2 refl enough) in
    let r13 = stepped r12 (child_exits 0 zero_below refl refl) in
    let r14 = stepped r13 (wait 0 0 0 refl (omega arith) zero_below refl) in
    let r15 = stepped r14 (tell 1 1 refl (omega arith)) in (_, r15, refl)

Reachable-reported_example : all_done ≡ all_done
Reachable-reported_example = Reachable-reported 2 run.0 all_done run.1 run.2

-- The second `fork` and the removal of the segment fail.
abbrev answers : Answers
answers = record {
  malloc = true;
  ftok = true;
  semget = some 98304;
  setval = some 0;
  shmget = some 32768;
  shmat = some 4096;
  fork = λ i. i == 1;
  wait = λ i. true;
  shmdt = true;
  shmctl = false;
  rmid = some 1;
}

abbrev log : List Action
log =
    says (process_failed 2)
    ∷ detaches 4096
    ∷ removes_segment 32768
    ∷ says cannot_free
    ∷ deletes_semaphore 98304
    ∷ []

answers_run : main (bytes "2" ∷ []) answers ≡ ends failure log
unfolding main serve parse_int is_integer all_digits sscanf_lld scan_number scan_digits is_digit
answers_run = refl

underway : IsUnderWay (bytes "2") answers
unfolding parse_int is_integer all_digits sscanf_lld scan_number scan_digits is_digit
underway = (refl, refl)
