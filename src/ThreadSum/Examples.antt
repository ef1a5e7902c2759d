-- ===== src/ThreadSum/Examples.antt =====
-- lab 10/mtsumarray.c: a run of `main` and its two threads over three values.
use cs.Prelude.{
  ℕ, ◌^◌, ◌<◌, ◌≤◌, ◌+◌, ◌*◌, ◌≡◌, refl, true, none, some, false, [], ◌∷◌, bytes, arith,
}
use cs.Prelude.Sums.{total}
use cs.Util.{sscanf_lld, scan_number, scan_digits, is_digit}
use cs.Server.State.{success}
use cs.Semaphore.Adders.{add32, enter, load, store, leave, move, loaded}
use cs.SumArray.{random_array, sum_array, System, printed, with_shared, start}
use cs.SumArray.Bounds.{plain}
use cs.ThreadSum.{
  runs, before_threads, thread, thread_exits, create, all_created, join, print, Reachable, started,
  stepped, Run,
}
use cs.ThreadSum.Progress.Ends.{is_over, steps_left, Reachable-goes_on, Reachable-ends}
use cs.ThreadSum.Total.{Reachable-total}

abbrev rand : ℕ → ℕ
rand i = 13 * i + 4

abbrev values : ℕ → ℕ
values = random_array rand

abbrev even : ℕ
even = sum_array values 0 3

abbrev odd : ℕ
odd = sum_array values 1 3

zero_below : 0 < 2
zero_below = omega arith

one_below : 1 < 2
one_below = omega arith

enough : 2 ≤ 2
enough = omega arith

-- The second thread has locked, and the first waits for it.
locked : (s : System) × Reachable values 3 s × (is_over s.phase ≡ false)
locked =
    let r1 = stepped started (create 0 refl zero_below) in
    let r2 = stepped r1 (create 1 refl one_below) in
    let r3 = stepped r2 (all_created 2 refl enough) in
    let r4 = stepped r3 (thread (enter 1 odd [] success none (some 0) refl refl refl)) in
    (_, r4, refl)

Reachable-goes_on_example : (t : System) × Run values 3 locked.0 t
Reachable-goes_on_example = Reachable-goes_on values 3 locked.0 locked.1 locked.2

Reachable-ends_example :
    (steps_left (with_shared (move 1 (loaded 0) locked.0.shared) locked.0) < steps_left locked.0)
    × (steps_left (start values 3) ≡ 16)
unfolding locked
Reachable-ends_example =
    Reachable-ends values 3 locked.0 (with_shared (move 1 (loaded 0) locked.0.shared) locked.0)
      locked.1 (thread (load 1 refl)) locked.2

-- The second thread is the first to lock.
run : (s : System) × Reachable values 3 s × (s.phase ≡ printed (add32 (add32 0 odd) even))
run =
    let r0 = started in
    let r1 = stepped r0 (create 0 refl zero_below) in
    let r2 = stepped r1 (create 1 refl one_below) in
    let r3 = stepped r2 (all_created 2 refl enough) in
    let r4 = stepped r3 (thread (enter 1 odd [] success none (some 0) refl refl refl)) in
    let r5 = stepped r4 (thread (load 1 refl)) in
    let r6 = stepped r5 (thread (store 1 0 odd [] refl refl)) in
    let r7 = stepped r6 (thread (leave 1 success none (some 1) refl refl)) in
    let r8 = stepped r7 (thread (enter 0 even [] success none (some 0) refl refl refl)) in
    let r9 = stepped r8 (thread_exits 1 one_below refl refl) in
    let r10 = stepped r9 (thread (load 0 refl)) in
    let r11 = stepped r10 (thread (store 0 (add32 0 odd) even [] refl refl)) in
    let r12 = stepped r11 (thread (leave 0 success none (some 1) refl refl)) in
    let r13 = stepped r12 (thread_exits 0 zero_below refl refl) in
    let r14 = stepped r13 (join 0 refl zero_below refl) in
    let r15 = stepped r14 (join 1 refl one_below refl) in
    let r16 = stepped r15 (print 2 refl enough) in (_, r16, refl)

accepted : before_threads true true rand (bytes "3" ∷ []) ≡ runs values 3
unfolding sscanf_lld scan_number scan_digits is_digit
accepted = refl

Reachable-total_example :
    (add32 (add32 0 odd) even ≡ total plain 3 values) × (add32 (add32 0 odd) even < 2 ^ 31)
Reachable-total_example =
    Reachable-total true true rand values (bytes "3" ∷ []) 3 run.0 (add32 (add32 0 odd) even)
      accepted (omega arith) run.1 run.2
