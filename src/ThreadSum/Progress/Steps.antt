-- ===== src/ThreadSum/Progress/Steps.antt =====
-- lab 10/mtsumarray.c: the steps of `main` and its threads, and which comes next.
use cs.Prelude.{ℕ, suc, ◌<◌, ◌≡◌, refl, ap, subst, true, List, [], ◌∷◌, none, some, inl, inr, arith}
use cs.Prelude.Sums.{update}
use cs.Semaphore.{Semaphore, down}
use cs.Server.State.{success}
use cs.Semaphore.Adders.{
  Pc, unborn, outside, holding, loaded, stored, exited, reaped, Worker, Shared, at_pc, move,
  is_inside, enter,
}
use cs.Semaphore.Balance.{Inv}
use cs.SumArray.{sum_array, Phase, forking, waiting, printed, failed, System}
use cs.SumArray.Total.{At, Good}
use cs.ThreadSum.{
  thread, thread_exits, create, create_fails, all_created, join, destroy_fails, print, Run,
  Reachable, started, stepped,
}
use cs.ThreadSum.Total.{Reachable-Good}
use cs.ThreadSum.Progress.{is_here, Ready, passed_by, changed, Step-Ready, act_inside}

unfoldable pub Sane : Phase → Shared → Type 0
Sane (forking i) s = Ready i 0 s.semaphore s.workers
Sane (waiting i) s = Ready 2 i s.semaphore s.workers
Sane (printed v) s = Unit
Sane failed s = Unit

exited_one :
    {c j : ℕ} (s : Shared) (k : ℕ)
    → (s.workers k).pc ≡ outside
    → Ready c j s.semaphore s.workers
    → Ready c j s.semaphore (update k (at_pc (s.workers k) exited) s.workers)
exited_one s k p r =
    changed s.semaphore k (at_pc (s.workers k) exited) r refl refl
      (passed_by s.semaphore s.workers k (at_pc (s.workers k) exited) (ap is_inside p) r.held)
      (λ h. ground (arith, h))

created_one :
    {m : Semaphore} {ws : ℕ → Worker} (i a : ℕ)
    → (ws i).pc ≡ unborn
    → Ready i 0 m ws
    → Ready (suc i) 0 m (update i (record { pc = outside; todo = a ∷ [] }) ws)
created_one {m} {ws} i a p r = record {
  here = λ k l b. ground (arith, r.here k l);
  busy = λ k. ground (arith, r.busy k);
  held = passed_by m ws i (record { pc = outside; todo = a ∷ [] }) (ap is_inside p) r.held;
  few = λ k e. ground (arith, r.few k, e);
}

joined_one :
    {m : Semaphore} {ws : ℕ → Worker} (i : ℕ)
    → (ws i).pc ≡ exited
    → Ready 2 i m ws
    → Ready 2 (suc i) m (update i (at_pc (ws i) reaped) ws)
joined_one {m} {ws} i p r = record {
  here = λ k l b. ground (arith, r.here k);
  busy = λ k. ground (arith, r.busy k);
  held = passed_by m ws i (at_pc (ws i) reaped) (ap is_inside p) r.held;
  few = λ k e. ground (arith, r.few k, e);
}

module _ (array : ℕ → ℕ) (n : ℕ) where
  both :
      (p : Phase) (s : System) (t : Shared)
      → ((x c j : ℕ)
          → Inv 2 x s.shared
          → Ready c j s.shared.semaphore s.shared.workers
          → Ready c j t.semaphore t.workers)
      → Good array n p s
      → Sane p s.shared
      → Sane p t
  unfolding Good Sane
  both (forking i) s t f g r = f _ i 0 g.inv r
  both (waiting i) s t f g r = f _ 2 i g.inv r
  both (printed v) s t f g r = tt
  both failed s t f g r = tt

  Run-Sane :
      {s t : System}
      → Run array n s t
      → Good array n s.phase s
      → Sane s.phase s.shared
      → Sane t.phase t.shared
  unfolding Good Sane
  Run-Sane {s} (thread {t} step) g r = both s.phase s t (λ x c j. Step-Ready step) g r
  Run-Sane {s} (thread_exits k l p q) g r =
      both s.phase s (move k exited s.shared) (λ x c j inv. exited_one s.shared k p) g r
  Run-Sane {s} (create i p l) g r =
      let a : At array n i 0 s = subst (λ x. Good array n x s) p g in
      created_one i (sum_array array i n) (a.lives.newborn i (omega arith) l)
        (subst (λ x. Sane x s.shared) p r)
  Run-Sane (create_fails i p l) g r = tt
  Run-Sane {s} (all_created i p l) g r =
      let a : At array n i 0 s = subst (λ x. Good array n x s) p g in
      let h : Ready i 0 s.shared.semaphore s.shared.workers = subst (λ x. Sane x s.shared) p r in
      subst (λ x. Ready x 0 s.shared.semaphore s.shared.workers) (omega (arith, a.few, l)) h
  Run-Sane {s} (join i p l e) g r = joined_one i e (subst (λ x. Sane x s.shared) p r)
  Run-Sane (destroy_fails i p l) g r = tt
  Run-Sane (print i p l) g r = tt

  pub Reachable-Sane : {s : System} → Reachable array n s → Sane s.phase s.shared
  unfolding Sane
  Reachable-Sane started = record {
    here = λ k l b. absurd (omega (arith, b));
    busy = λ k. refl;
    held = inl refl;
    few = λ k e. ground (arith, e);
  }
  Reachable-Sane (stepped p step) = Run-Sane step (Reachable-Good array n p) (Reachable-Sane p)

  -- The thread that `main` joins ends, or it or the thread with the mutex goes on.
  pub next :
      (s : System) (i : ℕ) (p : Pc) (todo : List ℕ)
      → s.phase ≡ waiting i
      → i < 2
      → (s.shared.workers i).pc ≡ p
      → (s.shared.workers i).todo ≡ todo
      → is_here p ≡ true
      → At array n 2 i s
      → Ready 2 i s.shared.semaphore s.shared.workers
      → (t : System) × Run array n s t
  next s i exited todo w l e q h a r = (_, join i w l e)
  next s i outside [] w l e q h a r = (_, thread_exits i l e q)
  next s i outside (v ∷ rest) w l e q h a r = elim r.held [
    | inl free ↦ (_, thread (enter i v rest success none (some 0) e q (ap down free)))
    | inr (k, b, f) ↦ let (u, step) = act_inside s.shared k a.inv r f in (_, thread step)
  ]
  next s i holding todo w l e q h a r =
      let (u, step) = act_inside s.shared i a.inv r (ap is_inside e) in (_, thread step)
  next s i (loaded v) todo w l e q h a r =
      let (u, step) = act_inside s.shared i a.inv r (ap is_inside e) in (_, thread step)
  next s i stored todo w l e q h a r =
      let (u, step) = act_inside s.shared i a.inv r (ap is_inside e) in (_, thread step)
  next s i unborn todo w l e q h a r = absurd (ground (arith, h))
  next s i reaped todo w l e q h a r = absurd (ground (arith, h))
