-- ===== src/Sleeping/Setup/Given.antt =====
-- sharedmem/sleepingprocesses.c: what `main` has given back when it returns.
use cs.Prelude.{
  ℕ, zero, suc, ◌≡◌, ◌↔◌, true, false, ◌||◌, not, some, List, [], ◌∷◌, ◌++◌, Bytes, arith, refl, ap,
  Option-cases, inl, inr,
}
use cs.Prelude.Int.{pos, leb_ℤ}
use cs.Util.{parse_int}
use cs.Server.State.{Status, success}
use cs.SumArray.Cleanup.{
  Answers, Action, says, frees_array, removes_segment, deletes_semaphore, detaches, holds, Outcome,
  ends, reads_unset, and_then,
}
use cs.SumArray.Cleanup.Releases.{releases, has_segment, shared_things}
use cs.Sleeping.Setup.{start_loop, join_loop, run_processes, exit_section, serve, magnitude, main}

-- A run whose calls up to `create_semaphore` have gone well, on a positive number of processes.
abbrev pub IsUnderWay : Bytes → Answers → Type 0
IsUnderWay arg a =
    (not (parse_int arg (pos 0)).success || leb_ℤ (parse_int arg (pos 0)).value (pos 0) ≡ false)
    × (a.ftok ≡ true)

abbrev log_of : Outcome → List Action
log_of (ends st log) = log
log_of reads_unset = []

releases-append : (xs ys : List Action) → releases (xs ++ ys) ≡ releases xs ++ releases ys
releases-append [] ys = refl
releases-append (says m ∷ xs) ys = releases-append xs ys
releases-append (frees_array ∷ xs) ys = ap (λ l. frees_array ∷ l) (releases-append xs ys)
releases-append (detaches k ∷ xs) ys = ap (λ l. detaches k ∷ l) (releases-append xs ys)
releases-append (removes_segment k ∷ xs) ys =
    ap (λ l. removes_segment k ∷ l) (releases-append xs ys)
releases-append (deletes_semaphore k ∷ xs) ys =
    ap (λ l. deletes_semaphore k ∷ l) (releases-append xs ys)

start_loop-releases :
    (a : Answers) (n i num_started : ℕ) → releases (start_loop a n i num_started).1 ≡ []
start_loop-releases a zero i num_started = refl
start_loop-releases a (suc n) i num_started = ground (
  arith,
  start_loop-releases a n (suc i) (suc num_started),
  start_loop-releases a n (suc i) num_started,
)

join_loop-releases : (a : Answers) (n i : ℕ) → releases (join_loop a n i) ≡ []
join_loop-releases a zero i = refl
join_loop-releases a (suc n) i = ground (arith, join_loop-releases a n (suc i))

run_processes-releases :
    (a : Answers) (n : ℕ) (ys : List Action) → releases (run_processes a n ++ ys) ≡ releases ys
run_processes-releases a n ys =
    let (num_started, log) = start_loop a n 1 0 in
    rw
      (
        releases-append (log ++ join_loop a num_started 0) ys,
        releases-append log (join_loop a num_started 0),
        start_loop-releases a n 1 0,
        join_loop-releases a num_started 0,
      )
      refl

-- `main` reads a variable that has no value exactly if there is a semaphore and its initialisation or
-- `shmget` fails.
pub main-unset :
    (arg : Bytes) (a : Answers) (semid : ℕ)
    → IsUnderWay arg a
    → a.semget ≡ some semid
    → (main (arg ∷ []) a ≡ reads_unset) ↔ (has_segment a ≡ false)
unfolding main serve
main-unset arg a semid h e = ground arith

exit_section-releases :
    (a : Answers) (shm shmid semid : ℕ) (st : Status)
    → releases (log_of (exit_section a (holds shm) (holds shmid) semid st))
      ≡ detaches shm ∷ removes_segment shmid ∷ deletes_semaphore semid ∷ []
exit_section-releases a shm shmid semid st = ground arith

and_then-log :
    (st st' : Status) (xs log : List Action) (f : Status → Outcome)
    → and_then (ends st xs) f ≡ ends st' log
    → log ≡ xs ++ log_of (f st)
and_then-log st st' xs log f e = ground arith

serve-releases :
    (a : Answers) (n semid shmid shm : ℕ) (st : Status) (log : List Action)
    → serve a n semid shmid shm ≡ ends st log
    → releases log ≡ detaches shm ∷ removes_segment shmid ∷ deletes_semaphore semid ∷ []
unfolding serve
serve-releases a n semid shmid shm st log e =
    rw
      (
        and_then-log success st (run_processes a n) log
            (exit_section a (holds shm) (holds shmid) semid) e,
        run_processes-releases a n
            (log_of (exit_section a (holds shm) (holds shmid) semid success)),
      )
      (exit_section-releases a shm shmid semid success)

-- On every other path, whatever fails on it and however many processes there are, `main` gives back
-- exactly what it has obtained: the attached memory, the segment and the semaphore.
pub main-shared_things :
    (arg : Bytes) (a : Answers) (semid : ℕ) (st : Status) (log : List Action)
    → IsUnderWay arg a
    → a.semget ≡ some semid
    → main (arg ∷ []) a ≡ ends st log
    → releases log ≡ shared_things a
unfolding main
main-shared_things arg a semid st log h e q = elim (Option-cases a.shmget) [
  | inl none_got ↦ ground (arith, none_got)
  | inr (shmid, got) ↦ elim (Option-cases a.shmat) [
    | inl unattached ↦ ground (arith, got, unattached)
    | inr (shm, attached) ↦ ground (
      arith,
      got,
      attached,
      serve-releases a (magnitude (parse_int arg (pos 0)).value) semid shmid shm st log,
    )
  ]
]
