-- ===== src/SumArray/Cleanup.antt =====
-- mpsumarray/mpsumarray.c: the calls of `main`, what it does when one fails, and its cleanup section.
pub mod Releases
use cs.Prelude.{
  ℕ, zero, suc, ◌+◌, ◌≡◌, Bool, true, false, ◌&&◌, Option, none, some, List, [], ◌∷◌, ◌++◌, Bytes,
  if◌then◌else◌,
}
use cs.Prelude.Int.{ℤ, pos, negsuc, leb_ℤ, wrap32}
use cs.Util.{atoi}
use cs.Server.State.{Status, success, failure}
use cs.Semaphore.{
  Complaint, cannot_create, failed_initialize, failed_delete, Call, returns, blocks, Semaphore,
  create_semaphore, set_sem_value, del_sem_value,
}

-- What the calls of `main` answer, in its order; a `Semaphore` is the set that semctl finds.
pub record Answers : Type 0 where
  pub malloc : Bool
  pub ftok : Bool
  pub semget : Option ℕ
  pub setval : Semaphore
  pub shmget : Option ℕ
  pub shmat : Option ℕ
  pub fork : ℕ → Bool
  pub wait : ℕ → Bool
  pub shmdt : Bool
  pub shmctl : Bool
  pub rmid : Semaphore

pub data Message : Type 0 where
  usage : Message
  invalid_number : Bytes → Message
  cannot_allocate : Message
  no_key : Message
  of_semaphore : Complaint → Message
  cannot_get : Message
  cannot_attach : Message
  process_failed : ℕ → Message
  wait_failed : Message
  cannot_detach : Message
  cannot_free : Message

pub data Action : Type 0 where
  says : Message → Action
  frees_array : Action
  detaches : ℕ → Action
  removes_segment : ℕ → Action
  deletes_semaphore : ℕ → Action

-- A local variable: not yet assigned, -1, or a value.
pub data Local : Type 0 where
  unset : Local
  minus_one : Local
  holds : ℕ → Local

-- `main` returns, or reads a variable that has no value.
pub data Outcome : Type 0 where
  ends : Status → List Action → Outcome
  reads_unset : Outcome

abbrev pub and_then : Outcome → (Status → Outcome) → Outcome
and_then reads_unset f = reads_unset
and_then (ends st log) f = elim (f st) as (λ x. Outcome) [
  | reads_unset ↦ reads_unset
  | ends st' log' ↦ ends st' (log ++ log')
]

-- A call that failed leaves a message and EXIT_FAILURE.
abbrev pub unless : Bool → Message → Status → List Action → Outcome
unless true m st log = ends st log
unless false m st log = ends failure (log ++ says m ∷ [])

-- The three steps behind `free(array)` at `EXIT`.
abbrev pub detach : Answers → Local → Status → Outcome
detach a unset st = reads_unset
detach a minus_one st = ends st []
detach a (holds shm) st = unless a.shmdt cannot_detach st (detaches shm ∷ [])

abbrev pub remove_segment : Answers → Local → Status → Outcome
remove_segment a unset st = reads_unset
remove_segment a minus_one st = ends st []
remove_segment a (holds shmid) st = unless a.shmctl cannot_free st (removes_segment shmid ∷ [])

abbrev pub is_success : Call → Bool
is_success (returns success c m) = true
is_success (returns failure c m) = false
is_success blocks = false

abbrev pub delete_semaphore : Answers → Option ℕ → Status → Outcome
delete_semaphore a none st = ends st []
delete_semaphore a (some semid) st =
    unless (is_success (del_sem_value a.rmid)) (of_semaphore failed_delete) st
      (deletes_semaphore semid ∷ [])

-- From `EXIT` on.
abbrev pub cleanup : Answers → Local → Local → Option ℕ → Status → Outcome
cleanup a shm shmid semid st =
    and_then
      (and_then (and_then (ends st (frees_array ∷ [])) (detach a shm)) (remove_segment a shmid))
      (delete_semaphore a semid)

-- The loops of `fork` and of `wait`, with `n` rounds left from `i` on: the message of the first call
-- that fails.
abbrev pub fork_loop : Answers → ℕ → ℕ → Option Message
fork_loop a zero i = none
fork_loop a (suc n) i =
    let rest = fork_loop a n (suc i) in if a.fork i then rest else some (process_failed (i + 1))

abbrev pub wait_loop : Answers → ℕ → ℕ → Option Message
wait_loop a zero i = none
wait_loop a (suc n) i =
    let rest = wait_loop a n (suc i) in if a.wait i then rest else some wait_failed

abbrev pub run_children : Answers → Option Message
run_children a = elim (fork_loop a 2 0) as (λ x. Option Message) [
  | some m ↦ some m
  | none ↦ wait_loop a 2 0
]

abbrev pub attached : Answers → ℕ → ℕ → ℕ → Outcome
attached a semid shmid shm = elim (run_children a) as (λ x. Outcome) [
  | none ↦ cleanup a (holds shm) (holds shmid) (some semid) success
  | some m ↦
      and_then (ends failure (says m ∷ [])) (cleanup a (holds shm) (holds shmid) (some semid))
]

-- `goto EXIT` behind a message.
abbrev pub give_up : Answers → Message → Local → Local → Option ℕ → Outcome
give_up a m shm shmid semid = and_then (ends failure (says m ∷ [])) (cleanup a shm shmid semid)

abbrev pub get_segment : Answers → ℕ → Outcome
get_segment a semid = elim a.shmget as (λ x. Outcome) [
  | none ↦ give_up a cannot_get unset minus_one (some semid)
  | some shmid ↦ elim a.shmat as (λ x. Outcome) [
    | none ↦ give_up a cannot_attach minus_one (holds shmid) (some semid)
    | some shm ↦ attached a semid shmid shm
  ]
]

abbrev pub initialize : Answers → ℕ → Outcome
initialize a semid =
    if is_success (set_sem_value 1 a.setval)
    then get_segment a semid
    else give_up a (of_semaphore failed_initialize) unset unset (some semid)

-- The global `semid` is 0 until `create_semaphore` returns.
abbrev pub make_semaphore : Answers → Outcome
make_semaphore a = elim (create_semaphore a.semget).0 as (λ x. Outcome) [
  | none ↦ give_up a (of_semaphore cannot_create) unset unset none
  | some semid ↦ initialize a semid
]

abbrev pub with_array : Answers → Outcome
with_array a = if a.ftok then make_semaphore a else give_up a no_key unset unset (some 0)

-- `main` behind its name in `argv`.
unfoldable pub main : List Bytes → Answers → Outcome
main (arg ∷ []) a =
    if leb_ℤ (atoi arg) (pos 0)
    then ends failure (says (invalid_number arg) ∷ [])
    else if a.malloc
    then with_array a
    else ends failure (says cannot_allocate ∷ [])
main args a = ends failure (says usage ∷ [])
