-- ===== src/Semaphore/Lives.antt =====
-- mpsumarray/mpsumarray.c and sharedmem/sleepingprocesses.c: the children that have been forked and not yet
-- waited for.
use cs.Prelude.{
  ℕ, suc, ◌+◌, ◌≤◌, ◌<◌, ◌≡◌, refl, sym, ◌∙◌, ap, Bool, true, false, [], ◌∷◌, arith, ◌==◌,
  Bool-cases, inl, inr,
}
use cs.Prelude.Sums.{
  update, total, total-update, total-update_same, total-update_beyond, zero_total,
}
use cs.Semaphore.Adders.{
  Pc, unborn, outside, holding, loaded, stored, exited, reaped, Worker, Shared, at_pc, Step, enter,
  load, store, leave,
}

-- Forked, and not yet waited for.
abbrev pub is_live : Pc → Bool
is_live unborn = false
is_live outside = true
is_live holding = true
is_live (loaded v) = true
is_live stored = true
is_live exited = true
is_live reaped = false

-- Not forked, or behind `exit`.
abbrev pub is_ended : Pc → Bool
is_ended unborn = true
is_ended outside = false
is_ended holding = false
is_ended (loaded v) = false
is_ended stored = false
is_ended exited = true
is_ended reaped = true

abbrev count : Bool → ℕ
count true = 1
count false = 0

abbrev pub live : Worker → ℕ
live w = count (is_live w.pc)

dead : (p : Pc) → count (is_live p) ≡ 0 → is_ended p ≡ true
dead p e = ground arith

-- The children are the first `n` processes, and none from `next` on has been forked.
pub record Lives (n next started waited : ℕ) (ws : ℕ → Worker) : Type 0 where
  pub alive : total live n ws + waited ≡ started
  pub ended : (k : ℕ) → is_ended (ws k).pc ≡ true → (ws k).todo ≡ []
  pub newborn : (k : ℕ) → next ≤ k → k < n → (ws k).pc ≡ unborn

module _ {n next started waited : ℕ} {ws : ℕ → Worker} (h : Lives n next started waited ws)
    (i : ℕ) where
  open h use {alive, ended, newborn}

  -- A process that lives goes on living.
  kept :
      (w : Worker)
      → is_live (ws i).pc ≡ true
      → is_live w.pc ≡ true
      → (is_ended w.pc ≡ true → w.todo ≡ [])
      → Lives n next started waited (update i w ws)
  kept w p q r = record {
    alive = ground (arith, alive, total-update_same live n ws i w (ap count q ∙ sym (ap count p)));
    ended = λ k e. elim (Bool-cases (k == i)) [
      | inl at ↦ ground (arith, r)
      | inr off ↦ ground (arith, ended k)
    ];
    newborn = λ k l m. elim (Bool-cases (k == i)) [
      | inl at ↦ absurd (ground (arith, newborn i, ap is_live (newborn k l m)))
      | inr off ↦ ground (arith, newborn k)
    ];
  }

  -- `exit`
  pub quits :
      (ws i).pc ≡ outside
      → (ws i).todo ≡ []
      → Lives n next started waited (update i (at_pc (ws i) exited) ws)
  quits p q = kept (at_pc (ws i) exited) (ap is_live p) refl (λ e. q)

  pub born :
      (a : ℕ)
      → i ≡ next
      → i < n
      → Lives n
          (suc next)
          (suc started)
          waited
          (update i (record { pc = outside; todo = a ∷ [] }) ws)
  born a e l = record {
    alive = omega (
      arith,
      alive,
      ap (λ p. count (is_live p)) (newborn i (omega (arith, e)) l),
      total-update live n ws i (record { pc = outside; todo = a ∷ [] }) l,
    );
    ended = λ k e. elim (Bool-cases (k == i)) [
      | inl at ↦ ground arith
      | inr off ↦ ground (arith, ended k)
    ];
    newborn = λ k l m. ground (arith, newborn k);
  }

  pub buried :
      (ws i).pc ≡ exited
      → i < n
      → Lives n next started (suc waited) (update i (at_pc (ws i) reaped) ws)
  buried e l = record {
    alive = omega (
      arith,
      alive,
      ap (λ p. count (is_live p)) e,
      total-update live n ws i (at_pc (ws i) reaped) l,
    );
    ended = λ k q. elim (Bool-cases (k == i)) [
      | inl at ↦ ground (arith, ended i (ap is_ended e))
      | inr off ↦ ground (arith, ended k)
    ];
    newborn = λ k l m. elim (Bool-cases (k == i)) [
      | inl at ↦ absurd (ground (arith, ap is_live e, ap is_live (newborn k l m)))
      | inr off ↦ ground (arith, newborn k)
    ];
  }

  -- A process that is not one of the children.
  pub aside :
      (w : Worker) → n ≤ i → is_ended w.pc ≡ false → Lives n next started waited (update i w ws)
  aside w l q = record {
    alive = ground (arith, alive, total-update_beyond live n ws i w l);
    ended = λ k e. elim (Bool-cases (k == i)) [
      | inl at ↦ ground arith
      | inr off ↦ ground (arith, ended k)
    ];
    newborn = λ k m b. elim (Bool-cases (k == i)) [
      | inl at ↦ absurd (ground arith)
      | inr off ↦ ground (arith, newborn k)
    ];
  }

  pub waited_for : waited ≡ started → i < n → (ws i).todo ≡ []
  waited_for e l = ended i (dead (ws i).pc (zero_total live n ws i (omega (arith, alive, e)) l))

pub Step-Lives :
    {n next started waited : ℕ} {s u : Shared}
    → Step s u
    → Lives n next started waited s.workers
    → Lives n next started waited u.workers
Step-Lives {s} (enter i a rest status c m p q d) h =
    kept h i (at_pc (s.workers i) holding) (ap is_live p) refl (λ e. ground arith)
Step-Lives {s} (load i p) h =
    kept h i (at_pc (s.workers i) (loaded s.sum)) (ap is_live p) refl (λ e. ground arith)
Step-Lives {s} (store i v a rest p q) h =
    kept h i (record { pc = stored; todo = rest }) (ap is_live p) refl (λ e. ground arith)
Step-Lives {s} (leave i status c m p d) h =
    kept h i (at_pc (s.workers i) outside) (ap is_live p) refl (λ e. ground arith)

-- The next child is passed over, or none is left.
pub later :
    {n next started waited : ℕ} {ws : ℕ → Worker}
    → Lives n next started waited ws
    → Lives n (suc next) started waited ws
later h = record {
  alive = h.alive;
  ended = h.ended;
  newborn = λ k l b. h.newborn k (omega arith) b;
}

pub all_born :
    {n next started waited : ℕ} {ws : ℕ → Worker}
    → Lives n next started waited ws
    → Lives n n started waited ws
all_born h = record { alive = h.alive; ended = h.ended; newborn = λ k l b. absurd (omega arith) }

-- A process that is outside and has nothing to add stays where it is.
pub Step-resting :
    {s u : Shared} (k : ℕ)
    → Step s u
    → ((s.workers k).pc ≡ outside) × ((s.workers k).todo ≡ [])
    → ((u.workers k).pc ≡ outside) × ((u.workers k).todo ≡ [])
Step-resting k (enter i a rest status c m p q d) r = ground arith
Step-resting k (load i p) r = ground arith
Step-resting k (store i v a rest p q) r = ground arith
Step-resting k (leave i status c m p d) r = ground arith
