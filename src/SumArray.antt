-- ===== src/SumArray.antt =====
-- mpsumarray/mpsumarray.c: two child processes that add up the even and the odd places of an array, as the
-- steps of a parent and its children.
pub mod Halves
pub mod Total
pub mod Bounds
pub mod Cleanup
mod Examples
use cs.Prelude.{ℕ, zero, suc, ◌+◌, ◌-◌, ◌%◌, ◌≤◌, ◌<◌, ◌≡◌, List, [], ◌∷◌, some, ltb, if◌then◌else◌}
use cs.Semaphore.Adders.{
  Pc, unborn, outside, exited, reaped, Worker, Shared, set_worker, move, add32, Step,
}

abbrev pub num_children : ℕ
num_children = 2

-- `rand` answers `r`.
abbrev pub random_int_in_range : ℕ → ℕ → ℕ → ℕ
random_int_in_range low high r = low + r % (high - low + 1)

-- The array, filled with what `rand` answers, one number for each place.
abbrev pub random_array : (ℕ → ℕ) → ℕ → ℕ
random_array rand i = random_int_in_range 0 9 (rand i)

-- The loop of `sum_array` from `i` on. `fuel` is at least the number of rounds left.
unfoldable pub sum_loop : ℕ → (ℕ → ℕ) → ℕ → ℕ → ℕ → ℕ
sum_loop zero array i length partial_sum = partial_sum
sum_loop (suc fuel) array i length partial_sum =
    let rest = sum_loop fuel array (suc (suc i)) length (add32 partial_sum (array i)) in
    if ltb i length then rest else partial_sum

-- `sum_array` up to `P`: the number that it adds to `*sum`.
abbrev pub sum_array : (ℕ → ℕ) → ℕ → ℕ → ℕ
sum_array array start_index length = sum_loop length array start_index length 0

-- The loop of `main` that adds up the whole array.
unfoldable pub check_loop : ℕ → (ℕ → ℕ) → ℕ → ℕ → ℕ → ℕ
check_loop zero array i num_values sum_check = sum_check
check_loop (suc fuel) array i num_values sum_check =
    let rest = check_loop fuel array (suc i) num_values (add32 sum_check (array i)) in
    if ltb i num_values then rest else sum_check

abbrev pub sum_check : (ℕ → ℕ) → ℕ → ℕ
sum_check array num_values = check_loop num_values array 0 num_values 0

-- Where `main` stands behind `*sum = 0`: in the loop of `fork` at `i`, in the loop of `wait` at `i`,
-- with `*sum` printed, or at `EXIT` behind an error.
pub data Phase : Type 0 where
  forking : ℕ → Phase
  waiting : ℕ → Phase
  printed : ℕ → Phase
  failed : Phase

pub record System : Type 0 where
  pub shared : Shared
  pub num_started : ℕ
  pub phase : Phase

abbrev pub with_phase : Phase → System → System
with_phase p s = record s { phase = p }

abbrev pub with_shared : Shared → System → System
with_shared t s = record s { shared = t }

-- The child `i` starts, with `a` to add.
abbrev pub fork_child : ℕ → ℕ → System → System
fork_child i a s = record {
  shared = set_worker i (record { pc = outside; todo = a ∷ [] }) s.shared;
  num_started = suc s.num_started;
  phase = forking (suc i);
}

module _ (array : ℕ → ℕ) (num_values : ℕ) where
  -- One step of a child or of `main`.
  pub data Run (s : System) : System → Type 0 where
    child : {t : Shared} → Step s.shared t → Run s (with_shared t s)
    child_exits :
        (k : ℕ)
        → k < num_children
        → (s.shared.workers k).pc ≡ outside
        → (s.shared.workers k).todo ≡ []
        → Run s (with_shared (move k exited s.shared) s)
    fork :
        (i : ℕ)
        → s.phase ≡ forking i
        → i < num_children
        → Run s (fork_child i (sum_array array i num_values) s)
    fork_fails : (i : ℕ) → s.phase ≡ forking i → i < num_children → Run s (with_phase failed s)
    all_forked : (i : ℕ) → s.phase ≡ forking i → num_children ≤ i → Run s (with_phase (waiting 0) s)
    wait :
        (i k : ℕ)
        → s.phase ≡ waiting i
        → i < s.num_started
        → k < num_children
        → (s.shared.workers k).pc ≡ exited
        → Run s (with_phase (waiting (suc i)) (with_shared (move k reaped s.shared) s))
    wait_fails : (i : ℕ) → s.phase ≡ waiting i → i < s.num_started → Run s (with_phase failed s)
    print :
        (i : ℕ)
        → s.phase ≡ waiting i
        → s.num_started ≤ i
        → Run s (with_phase (printed s.shared.sum) s)

  -- Behind `*sum = 0`, with the semaphore set to 1.
  abbrev pub start : System
  start = record {
    shared = record {
      sum = 0;
      semaphore = some 1;
      workers = λ k. record { pc = unborn; todo = [] };
    };
    num_started = 0;
    phase = forking 0;
  }

  pub data Reachable : System → Type 0 where
    started : Reachable start
    stepped : {s t : System} → Reachable s → Run s t → Reachable t
