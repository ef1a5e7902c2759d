-- ===== src/Sleeping.antt =====
-- sharedmem/sleepingprocesses.c: processes that sleep, and the shared count of those that are running, as
-- the steps of the parent and its children.
pub mod Count
pub mod Setup
mod Examples
use cs.Prelude.{ℕ, suc, ◌+◌, ◌-◌, ◌^◌, ◌≤◌, ◌<◌, ◌≡◌, List, [], ◌∷◌, some, ◌==◌, if◌then◌else◌}
use cs.Prelude.Int.{ℤ, signed32}
use cs.Semaphore.Adders.{
  Pc, unborn, outside, exited, reaped, Worker, Shared, set_worker, move, Step,
}

-- What `(*num_running)++` and `(*num_running)--` add, as bit patterns of 32 bits.
abbrev pub increment : ℕ
increment = 1

abbrev pub decrement : ℕ
decrement = 2 ^ 32 - 1

-- What `main` says at its end.
pub data Report : Type 0 where
  all_done : Report
  one_sleeping : Report
  many_sleeping : ℤ → Report

abbrev pub report : ℕ → Report
report num_running =
    if num_running == 0
    then all_done
    else if num_running == 1
    then one_sleeping
    else many_sleeping (signed32 num_running)

-- Where `main` stands behind `*num_running = 0`: before the `fork` of round `i`, at `P`, `++` and `V` of
-- round `i`, at the `wait` of round `i`, or behind its report. A `Phase` also has the number of calls of
-- `wait` that found a child. (The rounds are counted from 0.)
pub data Phase : Type 0 where
  forking : ℕ → Phase
  counting : ℕ → Phase
  waiting : ℕ → ℕ → Phase
  reported : ℕ → Report → Phase

pub record System : Type 0 where
  pub shared : Shared
  pub num_started : ℕ
  pub phase : Phase

abbrev pub with_phase : Phase → System → System
with_phase p s = record s { phase = p }

abbrev pub with_shared : Shared → System → System
with_shared t s = record s { shared = t }

-- The process `k` has `a` to add.
abbrev pub assign : ℕ → ℕ → Shared → Shared
assign k a s = set_worker k (record { pc = outside; todo = a ∷ [] }) s

module _ (num_processes : ℕ) where
  -- The children are the processes below `num_processes`, and the next one is the parent.
  abbrev pub parent : ℕ
  parent = num_processes

  abbrev pub fork_child : ℕ → System → System
  fork_child i s = record {
    shared = assign parent increment (assign i decrement s.shared);
    num_started = suc s.num_started;
    phase = counting i;
  }

  -- One step of a process at the semaphore, of a child at its end, or of `main`.
  pub data Run (s : System) : System → Type 0 where
    process : {t : Shared} → Step s.shared t → Run s (with_shared t s)
    child_exits :
        (k : ℕ)
        → k < num_processes
        → (s.shared.workers k).pc ≡ outside
        → (s.shared.workers k).todo ≡ []
        → Run s (with_shared (move k exited s.shared) s)
    fork : (i : ℕ) → s.phase ≡ forking i → i < num_processes → Run s (fork_child i s)
    fork_fails :
        (i : ℕ) → s.phase ≡ forking i → i < num_processes → Run s (with_phase (forking (suc i)) s)
    counted :
        (i : ℕ)
        → s.phase ≡ counting i
        → (s.shared.workers parent).pc ≡ outside
        → (s.shared.workers parent).todo ≡ []
        → Run s (with_phase (forking (suc i)) s)
    all_forked :
        (i : ℕ) → s.phase ≡ forking i → num_processes ≤ i → Run s (with_phase (waiting 0 0) s)
    wait :
        (i found k : ℕ)
        → s.phase ≡ waiting i found
        → i < s.num_started
        → k < num_processes
        → (s.shared.workers k).pc ≡ exited
        → Run s (with_phase (waiting (suc i) (suc found)) (with_shared (move k reaped s.shared) s))
    wait_fails :
        (i found : ℕ)
        → s.phase ≡ waiting i found
        → i < s.num_started
        → Run s (with_phase (waiting (suc i) found) s)
    tell :
        (i found : ℕ)
        → s.phase ≡ waiting i found
        → s.num_started ≤ i
        → Run s (with_phase (reported found (report s.shared.sum)) s)

  -- Behind `*num_running = 0`, with the semaphore set to 1.
  abbrev pub start : System
  start = record {
    shared = record {
      sum = 0;
      semaphore = some 1;
      workers = λ k. record { pc = if k == parent then outside else unborn; todo = [] };
    };
    num_started = 0;
    phase = forking 0;
  }

  pub data Reachable : System → Type 0 where
    started : Reachable start
    stepped : {s t : System} → Reachable s → Run s t → Reachable t
