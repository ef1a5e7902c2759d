-- ===== src/Semaphore/Adders.antt =====
-- mpsumarray/mpsumarray.c and sharedmem/sleepingprocesses.c: processes that add to a shared number
-- between `P(semid)` and `V(semid)`.
use cs.Prelude.{ℕ, ◌+◌, ◌%◌, ◌^◌, ◌≡◌, Bool, true, false, Option, List, ◌∷◌}
use cs.Prelude.Sums.{update}
use cs.Server.State.{Status}
use cs.Semaphore.{Complaint, Semaphore, returns, down, up}

-- Where a process stands: before `fork`, outside, behind `P`, with the shared number read, with the sum
-- written, behind `exit`, or waited for.
pub data Pc : Type 0 where
  unborn : Pc
  outside : Pc
  holding : Pc
  loaded : ℕ → Pc
  stored : Pc
  exited : Pc
  reaped : Pc

-- A process with the numbers that it still has to add, as bit patterns of 32 bits.
pub record Worker : Type 0 where
  pub pc : Pc
  pub todo : List ℕ

-- The shared number as a bit pattern of 32 bits, the semaphore, and the processes.
pub record Shared : Type 0 where
  pub sum : ℕ
  pub semaphore : Semaphore
  pub workers : ℕ → Worker

abbrev pub set_worker : ℕ → Worker → Shared → Shared
set_worker i w s = record s { workers = update i w s.workers }

abbrev pub at_pc : Worker → Pc → Worker
at_pc w pc = record w { pc = pc }

abbrev pub move : ℕ → Pc → Shared → Shared
move i pc s = set_worker i (at_pc (s.workers i) pc) s

abbrev pub with_semaphore : Semaphore → Shared → Shared
with_semaphore m s = record s { semaphore = m }

-- An `int` addition as the machine does it.
abbrev pub add32 : ℕ → ℕ → ℕ
add32 a b = (a + b) % 2 ^ 32

-- `*sum = v + a`, which leaves `rest` to do.
abbrev pub write_sum : ℕ → ℕ → ℕ → List ℕ → Shared → Shared
write_sum i v a rest s = record (set_worker i (record { pc = stored; todo = rest }) s) {
  sum = add32 v a;
}

-- One step of process `i`: `P`, the two halves of the addition, or `V`. The code does not look at
-- what `P` and `V` return.
pub data Step (s : Shared) : Shared → Type 0 where
  enter :
      (i a : ℕ) (rest : List ℕ) (status : Status) (c : Option Complaint) (m : Semaphore)
      → (s.workers i).pc ≡ outside
      → (s.workers i).todo ≡ a ∷ rest
      → down s.semaphore ≡ returns status c m
      → Step s (with_semaphore m (move i holding s))
  load : (i : ℕ) → (s.workers i).pc ≡ holding → Step s (move i (loaded s.sum) s)
  store :
      (i v a : ℕ) (rest : List ℕ)
      → (s.workers i).pc ≡ loaded v
      → (s.workers i).todo ≡ a ∷ rest
      → Step s (write_sum i v a rest s)
  leave :
      (i : ℕ) (status : Status) (c : Option Complaint) (m : Semaphore)
      → (s.workers i).pc ≡ stored
      → up s.semaphore ≡ returns status c m
      → Step s (with_semaphore m (move i outside s))

-- Between `P` and `V`.
abbrev pub is_inside : Pc → Bool
is_inside unborn = false
is_inside outside = false
is_inside holding = true
is_inside (loaded v) = true
is_inside stored = true
is_inside exited = false
is_inside reaped = false
