-- ===== src/ThreadSum/Progress.antt =====
-- lab 10/mtsumarray.c: the invariant of the threads and the mutex, and what a thread does next.
pub mod Steps
pub mod Ends
use cs.Prelude.{
  ℕ, zero, suc, ◌+◌, ◌≤◌, ◌<◌, ◌≡◌, ◌≢◌, refl, sym, ◌∙◌, ap, subst, Bool, true, false, List, [],
  ◌∷◌, none, some, ◌⊎◌, inl, inr, ◌==◌, Bool-cases, dec_lt, arith,
}
use cs.Prelude.Sums.{update}
use cs.Semaphore.{Semaphore, up}
use cs.Server.State.{success}
use cs.Semaphore.Adders.{
  Pc, unborn, outside, holding, loaded, stored, exited, reaped, Worker, Shared, at_pc, move,
  is_inside, Step, enter, load, store, leave,
}
use cs.Semaphore.Balance.{Inv, down_inv, up_inv}

-- Created, and not yet joined.
abbrev pub is_here : Pc → Bool
is_here unborn = false
is_here outside = true
is_here holding = true
is_here (loaded v) = true
is_here stored = true
is_here exited = true
is_here reaped = false

-- Before its addition is written, a thread has something to add.
abbrev pub has_work : Pc → List ℕ → Bool
has_work holding [] = false
has_work (loaded v) [] = false
has_work pc todo = true

abbrev pub fits : Worker → Bool
fits w = has_work w.pc w.todo

-- The mutex is free, or one of the two threads has it.
abbrev pub IsHeld : Semaphore → (ℕ → Worker) → Type 0
IsHeld m ws = (m ≡ some 1) ⊎ ((k : ℕ) × (k < 2) × (is_inside (ws k).pc ≡ true))

pub record Ready (created joined : ℕ) (m : Semaphore) (ws : ℕ → Worker) : Type 0 where
  pub here : (k : ℕ) → joined ≤ k → k < created → is_here (ws k).pc ≡ true
  pub busy : (k : ℕ) → fits (ws k) ≡ true
  pub held : IsHeld m ws
  pub few : (k : ℕ) → is_inside (ws k).pc ≡ true → k < 2

taken :
    (m : Semaphore) (ws : ℕ → Worker) (i : ℕ) (w : Worker)
    → i < 2
    → is_inside w.pc ≡ true
    → IsHeld m (update i w ws)
taken m ws i w l e = inr (i, l, ground (arith, e))

pub passed_by :
    (m : Semaphore) (ws : ℕ → Worker) (i : ℕ) (w : Worker)
    → is_inside (ws i).pc ≡ false
    → IsHeld m ws
    → IsHeld m (update i w ws)
passed_by m ws i w e (inl free) = inl free
passed_by m ws i w e (inr (k, l, f)) = elim (Bool-cases (k == i)) [
  | inl at ↦ absurd (ground (arith, e, f))
  | inr off ↦ inr (k, l, ground (arith, f))
]

-- Thread `i` changes, and is still there afterwards.
pub changed :
    {c j : ℕ} {m : Semaphore} {ws : ℕ → Worker} (m' : Semaphore) (i : ℕ) (w : Worker)
    → Ready c j m ws
    → is_here w.pc ≡ true
    → fits w ≡ true
    → IsHeld m' (update i w ws)
    → (is_inside w.pc ≡ true → i < 2)
    → Ready c j m' (update i w ws)
changed m' i w r h f held' l = record {
  here = λ k a b. ground (arith, h, r.here k a b);
  busy = λ k. ground (arith, f, r.busy k);
  held = held';
  few = λ k e. elim (Bool-cases (k == i)) [
    | inl at ↦ ground (arith, l, e)
    | inr off ↦ ground (arith, r.few k, e)
  ];
}

-- A thread with something to add is one of the two.
low : {t : ℕ} {s : Shared} (k : ℕ) → Inv 2 t s → (s.workers k).todo ≢ [] → k < 2
low k inv h = elim (dec_lt k 2) [ yes l ↦ l | no b ↦ absurd (h (inv.idle k (omega arith))) ]

freed : {t : ℕ} {s : Shared} (i : ℕ) → Inv 2 t s → (s.workers i).pc ≡ stored → s.semaphore ≡ some 0
freed i inv p = ground (arith, inv.counted, inv.apart i (ap is_inside p))

pub Step-Ready :
    {c j t : ℕ} {s u : Shared}
    → Step s u
    → Inv 2 t s
    → Ready c j s.semaphore s.workers
    → Ready c j u.semaphore u.workers
Step-Ready {s = s} (enter i a rest status d m p q e) inv r =
    let l : i < 2 = low i inv (λ x. ground (arith, q, x)) in
    let w = at_pc (s.workers i) holding in
    changed m i w r refl (ground (arith, q)) (taken m s.workers i w l refl) (λ h. l)
Step-Ready {s = s} (load i p) inv r =
    let l : i < 2 = r.few i (ap is_inside p) in
    let w = at_pc (s.workers i) (loaded s.sum) in
    changed s.semaphore i w r refl (ground (arith, p, r.busy i))
      (taken s.semaphore s.workers i w l refl) (λ h. l)
Step-Ready {s = s} (store i v a rest p q) inv r =
    let l : i < 2 = r.few i (ap is_inside p) in
    let w : Worker = record { pc = stored; todo = rest } in
    changed s.semaphore i w r refl refl (taken s.semaphore s.workers i w l refl) (λ h. l)
Step-Ready {s = s} (leave i status d m p e) inv r =
    changed m i (at_pc (s.workers i) outside) r refl refl
      (inl (up_inv s.semaphore status d m (freed i inv p) e)) (λ h. r.few i (ap is_inside p))

-- A thread that has the mutex can take its next step.
act :
    {t : ℕ} (s : Shared) (k : ℕ) (p : Pc) (todo : List ℕ)
    → (s.workers k).pc ≡ p
    → (s.workers k).todo ≡ todo
    → Inv 2 t s
    → fits (s.workers k) ≡ true
    → is_inside p ≡ true
    → (u : Shared) × Step s u
act s k holding todo e q inv f h = (_, load k e)
act s k (loaded v) [] e q inv f h = absurd (ground (arith, e, q, f))
act s k (loaded v) (a ∷ rest) e q inv f h = (_, store k v a rest e q)
act s k stored todo e q inv f h = (_, leave k success none (some 1) e (ap up (freed k inv e)))
act s k unborn todo e q inv f h = absurd (ground (arith, h))
act s k outside todo e q inv f h = absurd (ground (arith, h))
act s k exited todo e q inv f h = absurd (ground (arith, h))
act s k reaped todo e q inv f h = absurd (ground (arith, h))

pub act_inside :
    {t c j : ℕ} (s : Shared) (k : ℕ)
    → Inv 2 t s
    → Ready c j s.semaphore s.workers
    → is_inside (s.workers k).pc ≡ true
    → (u : Shared) × Step s u
act_inside s k inv r h = act s k (s.workers k).pc (s.workers k).todo refl refl inv (r.busy k) h
