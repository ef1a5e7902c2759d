-- ===== src/ThreadSum/Progress/Ends.antt =====
-- lab 10/mtsumarray.c: how many steps are left.
use cs.Prelude.{
  ℕ, ◌+◌, ◌*◌, ◌<◌, ◌≡◌, refl, ap, subst, Bool, true, false, [], ◌∷◌, length, dec_lt, arith,
}
use cs.Prelude.Sums.{update, total, total-update}
use cs.Semaphore.Adders.{
  Pc, unborn, outside, holding, loaded, stored, exited, reaped, Worker, Shared, at_pc, Step, enter,
  load, store, leave, is_inside,
}
use cs.Semaphore.Balance.{Inv}
use cs.SumArray.{Phase, forking, waiting, printed, failed, System, sum_array, start}
use cs.SumArray.Total.{At, Good}
use cs.ThreadSum.{
  thread, thread_exits, create, create_fails, all_created, join, destroy_fails, print, Run,
  Reachable,
}
use cs.ThreadSum.Total.{Reachable-Good}
use cs.ThreadSum.Progress.{Ready, low}
use cs.ThreadSum.Progress.Steps.{Sane, Reachable-Sane, next}

-- The steps left to a thread that has so many numbers to add.
abbrev pub left_at : Pc → ℕ → ℕ
left_at unborn k = 7
left_at outside k = 4 * k + 2
left_at holding k = 4 * k + 1
left_at (loaded v) k = 4 * k
left_at stored k = 4 * k + 3
left_at exited k = 1
left_at reaped k = 0

abbrev pub weight : Worker → ℕ
weight w = left_at w.pc (length w.todo)

abbrev pub of_phase : Phase → ℕ
of_phase (forking i) = 2
of_phase (waiting i) = 1
of_phase (printed v) = 0
of_phase failed = 0

abbrev pub is_over : Phase → Bool
is_over (forking i) = false
is_over (waiting i) = false
is_over (printed v) = true
is_over failed = true

-- No more than this many steps are left to `main` and its threads.
abbrev pub steps_left : System → ℕ
steps_left s = of_phase s.phase + total weight 2 s.shared.workers

lowered :
    (i : ℕ) (w : Worker) (f : ℕ → Worker)
    → i < 2
    → weight w < weight (f i)
    → total weight 2 (update i w f) < total weight 2 f
lowered i w f l h = omega (arith, total-update weight 2 f i w l, h)

Step-lowered :
    {c j t : ℕ} {s u : Shared}
    → Step s u
    → Inv 2 t s
    → Ready c j s.semaphore s.workers
    → total weight 2 u.workers < total weight 2 s.workers
Step-lowered {s = s} (enter i a rest status d m p q e) inv r =
    lowered i (at_pc (s.workers i) holding) s.workers (low i inv (λ x. ground (arith, q, x)))
      (ground (arith, p))
Step-lowered {s = s} (load i p) inv r =
    lowered i (at_pc (s.workers i) (loaded s.sum)) s.workers (r.few i (ap is_inside p))
      (ground (arith, p))
Step-lowered {s = s} (store i v a rest p q) inv r =
    lowered i (record { pc = stored; todo = rest }) s.workers (r.few i (ap is_inside p))
      (rw (p, q) (omega arith))
Step-lowered {s = s} (leave i status d m p e) inv r =
    lowered i (at_pc (s.workers i) outside) s.workers (r.few i (ap is_inside p)) (ground (arith, p))

module _ (array : ℕ → ℕ) (n : ℕ) where
  thread_lowered :
      (p : Phase) (s : System) (t : Shared)
      → is_over p ≡ false
      → Step s.shared t
      → Good array n p s
      → Sane p s.shared
      → total weight 2 t.workers < total weight 2 s.shared.workers
  unfolding Good Sane
  thread_lowered (forking i) s t o step g r = Step-lowered step g.inv r
  thread_lowered (waiting i) s t o step g r = Step-lowered step g.inv r
  thread_lowered (printed v) s t o step g r = absurd (ground (arith, o))
  thread_lowered failed s t o step g r = absurd (ground (arith, o))

  Run-lowered :
      {s t : System}
      → Run array n s t
      → is_over s.phase ≡ false
      → Good array n s.phase s
      → Sane s.phase s.shared
      → steps_left t < steps_left s
  unfolding Good Sane
  Run-lowered {s} (thread {t} step) o g r = omega (arith, thread_lowered s.phase s t o step g r)
  Run-lowered {s} (thread_exits k l p q) o g r = omega (
    arith,
    lowered k (at_pc (s.shared.workers k) exited) s.shared.workers l (rw (p, q) (omega arith)),
  )
  Run-lowered {s} (create i p l) o g r =
      let a : At array n i 0 s = subst (λ x. Good array n x s) p g in
      rw p (
        omega (
          arith,
          lowered i (record { pc = outside; todo = sum_array array i n ∷ [] }) s.shared.workers l
              (rw (a.lives.newborn i (omega arith) l) (omega arith)),
        ))
  Run-lowered (create_fails i p l) o g r = rw p (omega arith)
  Run-lowered (all_created i p l) o g r = rw p (omega arith)
  Run-lowered {s} (join i p l e) o g r = rw p (
      omega (
        arith,
        lowered i (at_pc (s.shared.workers i) reaped) s.shared.workers l (rw e (omega arith)),
      ))
  Run-lowered (destroy_fails i p l) o g r = rw p (omega arith)
  Run-lowered (print i p l) o g r = rw p (omega arith)

  goes_on :
      (s : System) (p : Phase)
      → s.phase ≡ p
      → is_over p ≡ false
      → Good array n p s
      → Sane p s.shared
      → (t : System) × Run array n s t
  unfolding Good Sane
  goes_on s (forking i) e o g r = elim (dec_lt i 2) [
    | yes l ↦ (_, create i e l)
    | no l ↦ (_, all_created i e (omega (arith, l)))
  ]
  goes_on s (waiting i) e o g r = elim (dec_lt i 2) [
    | yes l ↦
        next array n s i (s.shared.workers i).pc (s.shared.workers i).todo e l refl refl
          (r.here i (omega arith) l) g r
    | no l ↦ (_, print i e (omega (arith, l)))
  ]
  goes_on s (printed v) e o g r = absurd (ground (arith, o))
  goes_on s failed e o g r = absurd (ground (arith, o))

-- In every reachable state where `main` has neither printed the sum nor failed, `main` or a thread has a
-- next step: there is no deadlock.
pub Reachable-goes_on :
    (array : ℕ → ℕ) (n : ℕ) (s : System)
    → Reachable array n s
    → is_over s.phase ≡ false
    → (t : System) × Run array n s t
Reachable-goes_on array n s p o =
    goes_on array n s s.phase refl o (Reachable-Good array n p) (Reachable-Sane array n p)

-- Before `main` has printed the sum or failed, every step from a reachable state leaves fewer steps than
-- before, of which there are 16 at the start: no run goes on for ever.
pub Reachable-ends :
    (array : ℕ → ℕ) (n : ℕ) (s t : System)
    → Reachable array n s
    → Run array n s t
    → is_over s.phase ≡ false
    → (steps_left t < steps_left s) × (steps_left (start array n) ≡ 16)
unfolding total
Reachable-ends array n s t p step o =
    (Run-lowered array n step o (Reachable-Good array n p) (Reachable-Sane array n p), refl)
