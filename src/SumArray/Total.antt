-- ===== src/SumArray/Total.antt =====
-- mpsumarray/mpsumarray.c: what `main` prints after the children.
use cs.Prelude.{ℕ, zero, suc, ◌+◌, ◌≤◌, ◌<◌, ◌≡◌, refl, ap, subst, none, [], arith}
use cs.Prelude.Sums.{total, total_zero}
use cs.Semaphore.Adders.{outside, exited, reaped, is_inside, Step, Shared, unborn, move}
use cs.Semaphore.Balance.{Inv, owed, sum_of, Step-Inv, hired, gone}
use cs.Semaphore.Lives.{Lives, is_ended, Step-Lives, born, buried, quits, waited_for}
use cs.SumArray.{
  sum_array, sum_check, Phase, forking, waiting, printed, failed, System, with_shared, with_phase,
  fork_child, child_exits, Run, child, fork, fork_fails, all_forked, wait, wait_fails, print, start,
  Reachable, started, stepped,
}
use cs.SumArray.Halves.{sum_array-sum_check}

module _ (array : ℕ → ℕ) (n : ℕ) where
  -- What the first `i` children add.
  abbrev pub share : ℕ → ℕ
  share zero = 0
  share (suc i) = share i + sum_array array i n

  pub record At (i waited : ℕ) (s : System) : Type 0 where
    pub few : i ≤ 2
    pub begun : s.num_started ≡ i
    pub inv : Inv 2 (share i) s.shared
    pub lives : Lives 2 i i waited s.shared.workers

  -- What holds of the state in each phase of `main`.
  unfoldable pub Good : Phase → System → Type 0
  Good (forking i) s = At i 0 s
  Good (waiting i) s = At 2 i s
  Good (printed v) s = v ≡ sum_check array n
  Good failed s = Unit

  pub start-At : At 0 0 (start array n)
  unfolding total
  start-At = record {
    few = omega arith;
    begun = refl;
    inv = record {
      holder = none;
      small = omega arith;
      counted = refl;
      apart = λ k e. ground arith;
      fresh = λ k v e. ground arith;
      idle = λ k l. refl;
      balance = refl;
    };
    lives = record { alive = refl; ended = λ k e. refl; newborn = λ k l m. refl };
  }

  pub moved :
      {i waited : ℕ} {s : System} {t : Shared}
      → Step s.shared t
      → At i waited s
      → At i waited (with_shared t s)
  moved step g = record {
    few = g.few;
    begun = g.begun;
    inv = Step-Inv step g.inv;
    lives = Step-Lives step g.lives;
  }

  pub quit :
      {i waited : ℕ} {s : System} (k : ℕ)
      → (s.shared.workers k).pc ≡ outside
      → (s.shared.workers k).todo ≡ []
      → At i waited s
      → At i waited (with_shared (move k exited s.shared) s)
  quit k p q g = record {
    few = g.few;
    begun = g.begun;
    inv = gone g.inv k exited (ap is_inside p) refl;
    lives = quits g.lives k p q;
  }

  -- A step of the children keeps what it keeps of the state in the two loops.
  pub kept :
      (p : Phase) (s : System) (t : Shared)
      → ((i waited : ℕ) → At i waited s → At i waited (with_shared t s))
      → Good p s
      → Good p (with_shared t s)
  unfolding Good
  kept (forking i) s t f g = f i 0 g
  kept (waiting i) s t f g = f 2 i g
  kept (printed v) s t f g = g
  kept failed s t f g = tt

  pub forked :
      (i : ℕ) (s : System) → i < 2 → At i 0 s → At (suc i) 0 (fork_child i (sum_array array i n) s)
  forked i s l g = record {
    few = omega arith;
    begun = ap suc g.begun;
    inv =
        hired g.inv i (sum_array array i n) l (ap is_inside unborn_yet)
          (g.lives.ended i (ap is_ended unborn_yet));
    lives = born g.lives i (sum_array array i n) refl l;
  }
    where
      unborn_yet : (s.shared.workers i).pc ≡ unborn
      unborn_yet = g.lives.newborn i (omega arith) l

  pub forked_both : (i : ℕ) (s : System) → 2 ≤ i → At i 0 s → At 2 0 (with_phase (waiting 0) s)
  forked_both i s l g = record {
    few = omega arith;
    begun = omega (arith, l, g.few, g.begun);
    inv = subst (λ x. Inv 2 (share x) s.shared) two g.inv;
    lives = subst (λ x. Lives 2 x x 0 s.shared.workers) two g.lives;
  }
    where
      two : i ≡ 2
      two = omega (arith, l, g.few)

  pub awaited :
      (i k : ℕ) (s : System)
      → k < 2
      → (s.shared.workers k).pc ≡ exited
      → At 2 i s
      → At 2 (suc i) (with_phase (waiting (suc i)) (with_shared (move k reaped s.shared) s))
  awaited i k s b e g = record {
    few = g.few;
    begun = g.begun;
    inv = gone g.inv k reaped (ap is_inside e) refl;
    lives = buried g.lives k e b;
  }

  pub all_summed :
      (i : ℕ) (s : System) → s.num_started ≤ i → At 2 i s → s.shared.sum ≡ sum_check array n
  all_summed i s l g =
      omega (arith, nothing, g.inv.balance, g.inv.small, sum_array-sum_check array n)
    where
      nothing : total owed 2 s.shared.workers ≡ 0
      nothing =
          total_zero owed 2 s.shared.workers
            (λ k b. ap sum_of (waited_for g.lives k (omega (arith, l, g.lives.alive, g.begun)) b))

  Run-Good : {s t : System} → Run array n s t → Good s.phase s → Good t.phase t
  unfolding Good
  Run-Good {s} (child {t} step) g = kept s.phase s t (λ i w. moved step) g
  Run-Good {s} (child_exits k l p q) g =
      kept s.phase s (move k exited s.shared) (λ i w. quit k p q) g
  Run-Good {s} (fork i p l) g = forked i s l (subst (λ x. Good x s) p g)
  Run-Good (fork_fails i p l) g = tt
  Run-Good {s} (all_forked i p l) g = forked_both i s l (subst (λ x. Good x s) p g)
  Run-Good {s} (wait i k p l b e) g = awaited i k s b e (subst (λ x. Good x s) p g)
  Run-Good (wait_fails i p l) g = tt
  Run-Good {s} (print i p l) g = all_summed i s l (subst (λ x. Good x s) p g)

  Reachable-Good : {s : System} → Reachable array n s → Good s.phase s
  unfolding Good
  Reachable-Good started = start-At
  Reachable-Good (stepped p step) = Run-Good step (Reachable-Good p)

-- Whatever the order in which the parent and the children run: in every reachable state where `main` has
-- printed the sum that the children added up, that number is the sum that `main` adds up itself.
pub Reachable-printed :
    (array : ℕ → ℕ) (n : ℕ) (s : System) (v : ℕ)
    → Reachable array n s
    → s.phase ≡ printed v
    → v ≡ sum_check array n
unfolding Good
Reachable-printed array n s v p e = subst (λ x. Good array n x s) e (Reachable-Good array n p)
