-- ===== src/ThreadSum.antt =====
-- lab 10/mtsumarray.c (392/lab 10 has the same file): two threads that add up the even and the odd places of
-- an array, as the steps of `main` and its threads. The states are those of SumArray, with the mutex
-- as a semaphore of 1, `pthread_create` in place of `fork`, and `pthread_join` in place of `wait`.
pub mod Total
pub mod Progress
mod Examples
use cs.Prelude.{ℕ, zero, suc, ◌≤◌, ◌<◌, ◌≡◌, Bool, true, false, List, [], ◌∷◌, Bytes, if◌then◌else◌}
use cs.Prelude.Int.{ℤ, pos, negsuc}
use cs.Util.{atoi}
use cs.Semaphore.Adders.{outside, exited, reaped, Shared, move, Step}
use cs.SumArray.{
  random_array, sum_array, Phase, forking, waiting, printed, failed, System, with_phase,
  with_shared, fork_child, start,
}

abbrev pub num_threads : ℕ
num_threads = 2

-- Where `main` ends before the threads, or the array and its length with which it creates them.
pub data Outcome : Type 0 where
  usage : Outcome
  invalid_number : Bytes → Outcome
  cannot_allocate : Bytes → Outcome
  cannot_create_mutex : Outcome
  runs : (ℕ → ℕ) → ℕ → Outcome

-- `malloc` and `init` say whether malloc and pthread_mutex_init succeed.
abbrev pub with_number : Bool → Bool → (ℕ → ℕ) → Bytes → ℤ → Outcome
with_number malloc init rand arg (pos zero) = invalid_number arg
with_number malloc init rand arg (negsuc n) = invalid_number arg
with_number malloc init rand arg (pos (suc n)) =
    if malloc
    then (if init then runs (random_array rand) (suc n) else cannot_create_mutex)
    else cannot_allocate arg

abbrev pub before_threads : Bool → Bool → (ℕ → ℕ) → List Bytes → Outcome
before_threads malloc init rand [] = usage
before_threads malloc init rand (arg ∷ []) = with_number malloc init rand arg (atoi arg)
before_threads malloc init rand (arg ∷ more ∷ args) = usage

module _ (array : ℕ → ℕ) (num_values : ℕ) where
  -- One step of a thread or of `main`, which stands in the loop of `pthread_create`, in the loop of
  -- `pthread_join`, behind the printing of `sum`, or at `failed`: it joins a thread that was never
  -- created, or it has failed to destroy the mutex. Locking and unlocking succeed, and so does the
  -- join of a thread that was created.
  pub data Run (s : System) : System → Type 0 where
    thread : {t : Shared} → Step s.shared t → Run s (with_shared t s)
    thread_exits :
        (k : ℕ)
        → k < num_threads
        → (s.shared.workers k).pc ≡ outside
        → (s.shared.workers k).todo ≡ []
        → Run s (with_shared (move k exited s.shared) s)
    create :
        (i : ℕ)
        → s.phase ≡ forking i
        → i < num_threads
        → Run s (fork_child i (sum_array array i num_values) s)
    create_fails : (i : ℕ) → s.phase ≡ forking i → i < num_threads → Run s (with_phase failed s)
    all_created : (i : ℕ) → s.phase ≡ forking i → num_threads ≤ i → Run s (with_phase (waiting 0) s)
    join :
        (i : ℕ)
        → s.phase ≡ waiting i
        → i < num_threads
        → (s.shared.workers i).pc ≡ exited
        → Run s (with_phase (waiting (suc i)) (with_shared (move i reaped s.shared) s))
    destroy_fails : (i : ℕ) → s.phase ≡ waiting i → num_threads ≤ i → Run s (with_phase failed s)
    print :
        (i : ℕ)
        → s.phase ≡ waiting i
        → num_threads ≤ i
        → Run s (with_phase (printed s.shared.sum) s)

  -- `sum` is 0 and the mutex is free.
  pub data Reachable : System → Type 0 where
    started : Reachable (start array num_values)
    stepped : {s t : System} → Reachable s → Run s t → Reachable t
