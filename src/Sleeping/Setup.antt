-- ===== src/Sleeping/Setup.antt =====
-- sharedmem/sleepingprocesses.c: the calls of `main`, what it does when one fails, and its cleanup section,
-- whose steps are those of mpsumarray/mpsumarray.c.
pub mod Given
use cs.Prelude.{
  ℕ, zero, suc, ◌+◌, ◌≡◌, ◌↔◌, Bool, true, false, ◌&&◌, ◌||◌, not, Option, none, some, List, [],
  ◌∷◌, ◌++◌, Bytes, if◌then◌else◌, arith, refl, ap, Option-cases, inl, inr,
}
use cs.Prelude.Int.{ℤ, pos, leb_ℤ}
use cs.Util.{parse_int}
use cs.Server.State.{Status, success, failure}
use cs.Semaphore.{cannot_create, failed_initialize, set_sem_value, create_semaphore}
use cs.SumArray.Cleanup.{
  Answers, Message, usage, invalid_number, no_key, of_semaphore, cannot_get, cannot_attach,
  process_failed, wait_failed, Action, says, frees_array, removes_segment, deletes_semaphore,
  detaches, Local, unset, minus_one, holds, Outcome, ends, reads_unset, and_then, detach,
  remove_segment, delete_semaphore, is_success,
}
use cs.SumArray.Cleanup.Releases.{releases, has_segment, shared_things}

-- From `EXIT` on.
abbrev pub exit_section : Answers → Local → Local → ℕ → Status → Outcome
exit_section a shm shmid semid st =
    and_then (and_then (detach a shm st) (remove_segment a shmid)) (delete_semaphore a (some semid))

-- `goto EXIT` behind a message.
abbrev pub bail_out : Answers → Message → Local → Local → ℕ → Outcome
bail_out a m shm shmid semid =
    and_then (ends failure (says m ∷ [])) (exit_section a shm shmid semid)

-- The loop of `fork` with `n` rounds left from round `i` on, which goes on when one fails: the number of
-- children started, and the messages.
abbrev pub start_loop : Answers → ℕ → ℕ → ℕ → ℕ × List Action
start_loop a zero i num_started = (num_started, [])
start_loop a (suc n) i num_started =
    let forked = start_loop a n (suc i) (suc num_started) in
    let (count, log) = start_loop a n (suc i) num_started in
    if a.fork i then forked else (count, says (process_failed i) ∷ log)

-- The loop of `wait`, which goes on when one fails.
abbrev pub join_loop : Answers → ℕ → ℕ → List Action
join_loop a zero i = []
join_loop a (suc n) i =
    let rest = join_loop a n (suc i) in if a.wait i then rest else says wait_failed ∷ rest

abbrev pub run_processes : Answers → ℕ → List Action
run_processes a num_processes =
    let (num_started, log) = start_loop a num_processes 1 0 in log ++ join_loop a num_started 0

-- Behind `shmat`.
unfoldable pub serve : Answers → ℕ → ℕ → ℕ → ℕ → Outcome
serve a num_processes semid shmid shm =
    and_then (ends success (run_processes a num_processes))
      (exit_section a (holds shm) (holds shmid) semid)

abbrev pub share_count : Answers → ℕ → ℕ → Outcome
share_count a num_processes semid = elim a.shmget as (λ x. Outcome) [
  | none ↦ bail_out a cannot_get unset minus_one semid
  | some shmid ↦ elim a.shmat as (λ x. Outcome) [
    | none ↦ bail_out a cannot_attach minus_one (holds shmid) semid
    | some shm ↦ serve a num_processes semid shmid shm
  ]
]

abbrev pub with_semaphores : Answers → ℕ → Outcome
with_semaphores a num_processes = elim (create_semaphore a.semget).0 as (λ x. Outcome) [
  | none ↦ ends failure (says (of_semaphore cannot_create) ∷ [])
  | some semid ↦
      if is_success (set_sem_value 1 a.setval)
      then share_count a num_processes semid
      else bail_out a (of_semaphore failed_initialize) unset unset semid
]

abbrev pub magnitude : ℤ → ℕ
magnitude z = elim z as (λ x. ℕ) [ pos n ↦ n | _ ↦ 0 ]

-- `main` behind its name in `argv`.
unfoldable pub main : List Bytes → Answers → Outcome
main (arg ∷ []) a =
    let parsed = parse_int arg (pos 0) in
    if not parsed.success || leb_ℤ parsed.value (pos 0)
    then ends failure (says (invalid_number arg) ∷ [])
    else if a.ftok
    then with_semaphores a (magnitude parsed.value)
    else ends failure (says no_key ∷ [])
main args a = ends failure (says usage ∷ [])
