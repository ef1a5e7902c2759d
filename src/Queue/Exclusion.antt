-- ===== src/Queue/Exclusion.antt =====
-- 392/producerconsumer/produceconsume.c: the mutex.
use cs.Prelude.{
  ◌⊎◌, ℕ, suc, ◌≡◌, ◌≢◌, refl, sym, ◌∙◌, ap, Bool, true, false, none, some, Bytes, arith, ◌==◌,
  Bool-cases, inl, inr,
}
use cs.Queue.{
  Role, Pc, outside, testing, waiting, woken, leaving, finished, Thread, Shared, at_pc, set_thread,
  with_mutex, produce, consume, Step, lock, sleep_producer, sleep_consumer, wake, relock, make,
  take, unlock, exit, Reachable, started, stepped,
}

-- Between `pthread_mutex_lock` and `pthread_mutex_unlock`, with the mutex.
abbrev pub is_inside : Pc → Bool
is_inside outside = false
is_inside testing = true
is_inside waiting = false
is_inside woken = false
is_inside leaving = true
is_inside finished = false

-- A thread is inside exactly if it holds the mutex.
abbrev pub IsExclusive : Shared → Type 0
IsExclusive s = (k : ℕ) → is_inside (s.threads k).pc ≡ true → s.mutex ≡ some k

some_injective : {m n : ℕ} → some m ≡ some n → m ≡ n
some_injective e = ground arith

module _ (i : ℕ) (t : Thread) (s : Shared) (h : IsExclusive s) where
  -- Who is inside after thread `i` has changed to `t`.
  changed :
      (k : ℕ)
      → is_inside ((set_thread i t s).threads k).pc ≡ true
      → ((k ≡ i) × (is_inside t.pc ≡ true)) ⊎ ((k ≢ i) × (s.mutex ≡ some k))
  changed k e = elim (Bool-cases (k == i)) [
    | inl at ↦ inl (ground arith, rw at at e)
    | inr off ↦ inr (ground arith, h k (rw off at e))
  ]

  stay_outside : is_inside t.pc ≡ false → IsExclusive (set_thread i t s)
  stay_outside out k e = elim (changed k e) [
    | inl (at, into) ↦ absurd (ground (arith, out, into))
    | inr (off, holds) ↦ holds
  ]

  stay_inside : s.mutex ≡ some i → IsExclusive (set_thread i t s)
  stay_inside holder k e = elim (changed k e) [
    | inl (at, into) ↦ rw at holder
    | inr (off, holds) ↦ holds
  ]

  acquire : s.mutex ≡ none → IsExclusive (with_mutex (some i) (set_thread i t s))
  acquire free k e = elim (changed k e) [
    | inl (at, into) ↦ rw at refl
    | inr (off, holds) ↦ absurd (ground (arith, free, holds))
  ]

  release :
      s.mutex ≡ some i → is_inside t.pc ≡ false → IsExclusive (with_mutex none (set_thread i t s))
  release holder out k e = elim (changed k e) [
    | inl (at, into) ↦ absurd (ground (arith, out, into))
    | inr (off, holds) ↦ absurd (off (some_injective (sym holds ∙ holder)))
  ]

inside :
    (i : ℕ) (s : Shared) (p : Pc)
    → IsExclusive s
    → (s.threads i).pc ≡ p
    → is_inside p ≡ true
    → s.mutex ≡ some i
inside i s p h e into = h i (ap is_inside e ∙ into)

Step-IsExclusive : {s t : Shared} → Step s t → IsExclusive s → IsExclusive t
Step-IsExclusive {s} (lock i p r m) h = acquire i (at_pc (s.threads i) testing) s h m
Step-IsExclusive {s} (sleep_producer i p r m) h =
    release i (at_pc (s.threads i) waiting) s h (inside i s testing h p refl) refl
Step-IsExclusive {s} (sleep_consumer i p r m) h =
    release i (at_pc (s.threads i) waiting) s h (inside i s testing h p refl) refl
Step-IsExclusive {s} (wake i p) h = stay_outside i (at_pc (s.threads i) woken) s h refl
Step-IsExclusive {s} (relock i p m) h = acquire i (at_pc (s.threads i) testing) s h m
Step-IsExclusive {s} (make i a b p r l) h =
    unfold produce in stay_inside i (at_pc (s.threads i) leaving) s h (inside i s testing h p refl)
Step-IsExclusive {s} (take i p r l) h =
    unfold consume in stay_inside i (at_pc (s.threads i) leaving) s h (inside i s testing h p refl)
Step-IsExclusive {s} (unlock i p) h =
    release i (record (s.threads i) { pc = outside; rounds = suc (s.threads i).rounds }) s h
      (inside i s leaving h p refl) refl
Step-IsExclusive {s} (exit i p r) h = stay_outside i (at_pc (s.threads i) finished) s h refl

Reachable-IsExclusive :
    (roles : ℕ → Role) (queue : ℕ → Bytes) (s : Shared) → Reachable roles queue s → IsExclusive s
Reachable-IsExclusive roles queue _ started = λ k e. ground arith
Reachable-IsExclusive roles queue _ (stepped {s} p step) =
    Step-IsExclusive step (Reachable-IsExclusive roles queue s p)

-- In every reachable state, two threads between lock and unlock are the same thread: the indices, the
-- counter and the queue are only touched by one thread at a time.
pub Reachable-exclusive :
    (roles : ℕ → Role) (queue : ℕ → Bytes) (s : Shared) (i j : ℕ)
    → Reachable roles queue s
    → is_inside (s.threads i).pc ≡ true
    → is_inside (s.threads j).pc ≡ true
    → i ≡ j
Reachable-exclusive roles queue s i j p a b =
    let h = Reachable-IsExclusive roles queue s p in some_injective (sym (h i a) ∙ h j b)
