-- ===== src/Queue/Examples.antt =====
-- 392/producerconsumer/produceconsume.c: a run, and the theorems at its end.
use cs.Prelude.{ℕ, ◌≡◌, refl, none, some, [], ◌∷◌, Bytes, bytes, ltb, if◌then◌else◌, arith}
use cs.Util.Show.{show_ℕ, decimal}
use cs.Queue.{
  Role, producer, consumer, Shared, lock, make, unlock, take, Reachable, started, stepped, start,
  random_expression, move, testing, leaving, with_mutex, next_round, produce, consume,
  sleep_consumer, wake, relock, woken, waiting,
}
use cs.Queue.Fifo.{IsFifo, Reachable-IsFifo}
use cs.Queue.Exclusion.{Reachable-exclusive}

-- Threads 0 and 1 are the producers of `main`, the others are consumers.
abbrev roles : ℕ → Role
roles i = if ltb i 2 then producer else consumer

abbrev buffers : ℕ → Bytes
buffers i = []

abbrev locked : Shared
locked = with_mutex (some 2) (move 2 testing (start roles buffers))

abbrev asleep : Shared
asleep = with_mutex none (move 2 waiting locked)

abbrev making : Shared
making = with_mutex (some 0) (move 0 testing asleep)

abbrev made : Shared
made = move 0 leaving (produce (random_expression 13 1804) making)

abbrev unlocked : Shared
unlocked = with_mutex none (next_round 0 made)

abbrev taking : Shared
taking = with_mutex (some 2) (move 2 testing (move 2 woken unlocked))

abbrev taken : Shared
taken = move 2 leaving (consume taking)

run : Reachable roles buffers taken
unfolding produce consume
run =
    stepped
      (stepped
        (stepped
          (stepped
            (stepped
              (stepped
                (stepped (stepped started (lock 2 refl (omega arith) refl))
                  (sleep_consumer 2 refl refl (omega arith)))
                (lock 0 refl (omega arith) refl))
              (make 0 3 4 refl refl (omega arith)))
            (unlock 0 refl))
          (wake 2 refl))
        (relock 2 refl refl))
      (take 2 refl refl (omega arith))

taken_expression : taken.consumed ≡ bytes "3 + 4" ∷ []
unfolding produce consume show_ℕ decimal
taken_expression = refl

Reachable-IsFifo_example : IsFifo taken
Reachable-IsFifo_example = Reachable-IsFifo roles buffers taken run

Reachable-exclusive_example : ◌≡◌ {A = ℕ} 2 2
Reachable-exclusive_example = Reachable-exclusive roles buffers taken 2 2 run refl refl
