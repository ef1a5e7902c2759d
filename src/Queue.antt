-- ===== src/Queue.antt =====
-- 392/producerconsumer/produceconsume.c: producers and consumers around a bounded queue, as the steps
-- of any number of threads.
pub mod Fifo
pub mod Exclusion
mod Examples
use cs.Prelude.{
  ℕ, zero, suc, ◌+◌, ◌-◌, ◌%◌, ◌≤◌, ◌<◌, ◌≡◌, Option, none, some, List, [], ◌∷◌, ◌++◌, Bytes, bytes,
  ◌==◌, if◌then◌else◌,
}
use cs.Util.Show.{show_ℕ}

abbrev pub queuelen : ℕ
queuelen = 5

abbrev pub max_exprs : ℕ
max_exprs = 10

-- `sprintf(queue[write_index], "%d + %d", a, b)`
abbrev pub expression : ℕ → ℕ → Bytes
expression a b = show_ℕ a ++ bytes " + " ++ show_ℕ b

-- `rand_r` answers `r`.
abbrev pub random_int_in_range : ℕ → ℕ → ℕ → ℕ
random_int_in_range low high r = low + r % (high - low + 1)

-- An expression of two random digits.
abbrev pub random_expression : ℕ → ℕ → Bytes
random_expression r1 r2 = expression (random_int_in_range 0 9 r1) (random_int_in_range 0 9 r2)

pub data Role : Type 0 where
  producer : Role
  consumer : Role

-- Where a thread stands: before `pthread_mutex_lock`, at the test of the inner `while` with the mutex,
-- in `pthread_cond_wait`, woken there and waiting for the mutex, before `pthread_mutex_unlock`, or
-- after `pthread_exit`.
pub data Pc : Type 0 where
  outside : Pc
  testing : Pc
  waiting : Pc
  woken : Pc
  leaving : Pc
  finished : Pc

-- `rounds` is the number of times that the body of the outer `while` has been run.
pub record Thread : Type 0 where
  pub role : Role
  pub pc : Pc
  pub rounds : ℕ

-- The globals, the holder of the mutex, and the threads. `produced` and `consumed` are the
-- expressions put into and taken out of the queue, oldest first.
pub record Shared : Type 0 where
  pub queue : ℕ → Bytes
  pub num_occupied : ℕ
  pub read_index : ℕ
  pub write_index : ℕ
  pub mutex : Option ℕ
  pub threads : ℕ → Thread
  pub produced : List Bytes
  pub consumed : List Bytes

abbrev pub put : (ℕ → Bytes) → ℕ → Bytes → ℕ → Bytes
put queue i e k = if k == i then e else queue k

abbrev pub at_pc : Thread → Pc → Thread
at_pc t pc = record t { pc = pc }

abbrev pub set_thread : ℕ → Thread → Shared → Shared
set_thread i t s = record s { threads = λ k. if k == i then t else s.threads k }

abbrev pub move : ℕ → Pc → Shared → Shared
move i pc s = set_thread i (at_pc (s.threads i) pc) s

abbrev pub with_mutex : Option ℕ → Shared → Shared
with_mutex m s = record s { mutex = m }

-- The body of `produce` from `sprintf` to the signal.
unfoldable pub produce : Bytes → Shared → Shared
produce e s = record s {
  queue = put s.queue s.write_index e;
  write_index = (s.write_index + 1) % queuelen;
  num_occupied = s.num_occupied + 1;
  produced = s.produced ++ e ∷ [];
}

-- The body of `consume` from `sscanf` to the signal.
unfoldable pub consume : Shared → Shared
consume s = record s {
  read_index = (s.read_index + 1) % queuelen;
  num_occupied = s.num_occupied - 1;
  consumed = s.consumed ++ s.queue s.read_index ∷ [];
}

abbrev pub next_round : ℕ → Shared → Shared
next_round i s =
    set_thread i (record (s.threads i) { pc = outside; rounds = suc (s.threads i).rounds }) s

-- One step of thread `i`. `pthread_cond_wait` may return at any time, with a signal or without one.
pub data Step (s : Shared) : Shared → Type 0 where
  lock :
      (i : ℕ)
      → (s.threads i).pc ≡ outside
      → (s.threads i).rounds < max_exprs
      → s.mutex ≡ none
      → Step s (with_mutex (some i) (move i testing s))
  sleep_producer :
      (i : ℕ)
      → (s.threads i).pc ≡ testing
      → (s.threads i).role ≡ producer
      → queuelen ≤ s.num_occupied
      → Step s (with_mutex none (move i waiting s))
  sleep_consumer :
      (i : ℕ)
      → (s.threads i).pc ≡ testing
      → (s.threads i).role ≡ consumer
      → s.num_occupied ≤ 0
      → Step s (with_mutex none (move i waiting s))
  wake : (i : ℕ) → (s.threads i).pc ≡ waiting → Step s (move i woken s)
  relock :
      (i : ℕ)
      → (s.threads i).pc ≡ woken
      → s.mutex ≡ none
      → Step s (with_mutex (some i) (move i testing s))
  make :
      (i r1 r2 : ℕ)
      → (s.threads i).pc ≡ testing
      → (s.threads i).role ≡ producer
      → s.num_occupied < queuelen
      → Step s (move i leaving (produce (random_expression r1 r2) s))
  take :
      (i : ℕ)
      → (s.threads i).pc ≡ testing
      → (s.threads i).role ≡ consumer
      → 0 < s.num_occupied
      → Step s (move i leaving (consume s))
  unlock : (i : ℕ) → (s.threads i).pc ≡ leaving → Step s (with_mutex none (next_round i s))
  exit :
      (i : ℕ)
      → (s.threads i).pc ≡ outside
      → max_exprs ≤ (s.threads i).rounds
      → Step s (move i finished s)

-- The start, with the roles of the threads and what the queue's buffers hold.
abbrev pub start : (ℕ → Role) → (ℕ → Bytes) → Shared
start roles queue = record {
  queue = queue;
  num_occupied = 0;
  read_index = 0;
  write_index = 0;
  mutex = none;
  threads = λ i. record { role = roles i; pc = outside; rounds = 0 };
  produced = [];
  consumed = [];
}

pub data Reachable (roles : ℕ → Role) (queue : ℕ → Bytes) : Shared → Type 0 where
  started : Reachable roles queue (start roles queue)
  stepped : {s t : Shared} → Reachable roles queue s → Step s t → Reachable roles queue t
