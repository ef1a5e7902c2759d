-- ===== src/SumArray/Cleanup/Releases.antt =====
-- mpsumarray/mpsumarray.c: what `main` has given back when it returns.
use cs.Prelude.{
  ℕ, ◌≡◌, ◌↔◌, Bool, true, false, ◌&&◌, Option, none, some, List, [], ◌∷◌, ◌++◌, Bytes, arith,
}
use cs.Prelude.Int.{leb_ℤ, pos}
use cs.Server.State.{Status, success}
use cs.Semaphore.{set_sem_value}
use cs.Util.{atoi}
use cs.SumArray.Cleanup.{
  Answers, Action, says, frees_array, detaches, removes_segment, deletes_semaphore, ends,
  reads_unset, main, is_success,
}

-- The actions other than messages.
abbrev pub releases : List Action → List Action
releases [] = []
releases (says m ∷ log) = releases log
releases (frees_array ∷ log) = frees_array ∷ releases log
releases (detaches shm ∷ log) = detaches shm ∷ releases log
releases (removes_segment shmid ∷ log) = removes_segment shmid ∷ releases log
releases (deletes_semaphore semid ∷ log) = deletes_semaphore semid ∷ releases log

abbrev pub is_some : Option ℕ → Bool
is_some none = false
is_some (some x) = true

-- The calls up to `shmget` have all gone well.
abbrev pub has_segment : Answers → Bool
has_segment a =
    a.ftok && is_some a.semget && is_success (set_sem_value 1 a.setval) && is_some a.shmget

abbrev each : (ℕ → Action) → Option ℕ → List Action
each f none = []
each f (some x) = f x ∷ []

-- The attached memory, the segment and the semaphore, as far as they were obtained.
abbrev pub shared_things : Answers → List Action
shared_things a =
    each detaches a.shmat ++ each removes_segment a.shmget ++ each deletes_semaphore a.semget

abbrev pub obtained : Answers → List Action
obtained a = frees_array ∷ shared_things a

-- A call of `main` that has its argument and its array.
abbrev pub IsUnderWay : Bytes → Answers → Type 0
IsUnderWay arg a = (leb_ℤ (atoi arg) (pos 0) ≡ false) × (a.malloc ≡ true)

-- `main` reads a variable that has no value exactly if `ftok`, one of the two calls for the semaphore or
-- `shmget` fails: the cleanup section then looks at `shm` before anything has been assigned to it.
pub main-reads_unset :
    (arg : Bytes) (a : Answers)
    → IsUnderWay arg a
    → (main (arg ∷ []) a ≡ reads_unset) ↔ (has_segment a ≡ false)
unfolding main
main-reads_unset arg a h = ground arith

-- On every other path, whatever fails on it, `main` gives back exactly what it has obtained, each thing once:
-- the array, the attached memory, the segment and the semaphore.
pub main-releases :
    (arg : Bytes) (a : Answers) (st : Status) (log : List Action)
    → IsUnderWay arg a
    → main (arg ∷ []) a ≡ ends st log
    → releases log ≡ obtained a
unfolding main
main-releases arg a st log h e = ground arith

abbrev pub messages : List Action → List Action
messages [] = []
messages (says m ∷ log) = says m ∷ messages log
messages (frees_array ∷ log) = messages log
messages (detaches shm ∷ log) = messages log
messages (removes_segment shmid ∷ log) = messages log
messages (deletes_semaphore semid ∷ log) = messages log

-- Whenever `main` returns, with whatever arguments and whatever its calls answer, it returns EXIT_SUCCESS
-- exactly if it has printed no error message.
pub main-success :
    (args : List Bytes) (a : Answers) (st : Status) (log : List Action)
    → main args a ≡ ends st log
    → (st ≡ success) ↔ (messages log ≡ [])
unfolding main
main-success [] a st log e = ground arith
main-success (arg ∷ []) a st log e = ground arith
main-success (arg ∷ other ∷ rest) a st log e = ground arith
