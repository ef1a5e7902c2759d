-- ===== src/Sleeping/Count.antt =====
-- sharedmem/sleepingprocesses.c: the count of the running processes.
use cs.Prelude.{
  ℕ, suc, ◌*◌, ◌^◌, ◌<◌, ◌≡◌, refl, ◌∙◌, ap, subst, false, none, [], ◌∷◌, arith, ◌==◌, ==_ne,
  dec_lt,
}
use cs.Prelude.Sums.{total, total_zero}
use cs.Semaphore.Adders.{
  unborn, outside, exited, reaped, is_inside, Step, at_pc, Shared, set_worker, move, Worker,
}
use cs.Semaphore.Balance.{Inv, owed, sum_of, Step-Inv, hired, gone}
use cs.Semaphore.Lives.{
  Lives, later, all_born, is_ended, Step-Lives, Step-resting, born, buried, quits, aside,
  waited_for, live,
}
use cs.Sleeping.{
  increment, decrement, report, all_done, Report, Phase, forking, counting, waiting, reported,
  System, with_phase, with_shared, assign, fork_child, Run, process, child_exits, fork, fork_fails,
  counted, all_forked, wait, wait_fails, tell, start, Reachable, started, stepped,
}

module _ (n : ℕ) where
  -- The children have been forked below `next`, and `found` have been waited for.
  record At (next found : ℕ) (s : System) : Type 0 where
    inv : Inv (suc n) (s.num_started * 2 ^ 32) s.shared
    lives : Lives n next s.num_started found s.shared.workers

  -- The parent is at none of its additions.
  record Rests (s : System) : Type 0 where
    quiet : (s.shared.workers n).pc ≡ outside
    free : (s.shared.workers n).todo ≡ []

  -- What holds of the state in each phase of `main`.
  Good : Phase → System → Type 0
  Good (forking i) s = At i 0 s × Rests s
  Good (counting i) s = At (suc i) 0 s
  Good (waiting i found) s = At n found s × Rests s
  Good (reported found r) s = (found ≡ s.num_started) → r ≡ all_done

  moved :
      {next found : ℕ} {s : System} {t : Shared}
      → Step s.shared t
      → At next found s
      → At next found (with_shared t s)
  moved step g = record { inv = Step-Inv step g.inv; lives = Step-Lives step g.lives }

  quit :
      {next found : ℕ} {s : System} (k : ℕ)
      → (s.shared.workers k).pc ≡ outside
      → (s.shared.workers k).todo ≡ []
      → At next found s
      → At next found (with_shared (move k exited s.shared) s)
  quit k p q g = record {
    inv = gone g.inv k exited (ap is_inside p) refl;
    lives = quits g.lives k p q;
  }

  -- A step of the processes keeps what it keeps of the state in each loop.
  kept :
      (p : Phase) (s : System) (t : Shared)
      → ((next found : ℕ) → At next found s → At next found (with_shared t s))
      → (Rests s → Rests (with_shared t s))
      → Good p s
      → Good p (with_shared t s)
  unfolding Good
  kept (forking i) s t f r g = (f i 0 g.0, r g.1)
  kept (counting i) s t f r g = f (suc i) 0 g
  kept (waiting i found) s t f r g = (f n found g.0, r g.1)
  kept (reported found v) s t f r g = g

  still_resting :
      (s : System) (k : ℕ) (w : Worker) (p : Phase)
      → k < n
      → Rests s
      → Rests (with_phase p (with_shared (set_worker k w s.shared) s))
  still_resting s k w p l r = record {
    quiet = ground (arith, r.quiet, off);
    free = ground (arith, r.free, off);
  }
    where
      off : (n == k) ≡ false
      off = ==_ne n k (λ e. absurd (omega (arith, l, e)))

  resting_at : (s : System) (p : Phase) → Rests s → Rests (with_phase p s)
  resting_at s p r = record { quiet = r.quiet; free = r.free }

  resting_on : (s : System) (t : Shared) → Step s.shared t → Rests s → Rests (with_shared t s)
  resting_on s t step r =
      let (p, q) = Step-resting n step (r.quiet, r.free) in record { quiet = p; free = q }

  forked : (i : ℕ) (s : System) → i < n → At i 0 s → Rests s → At (suc i) 0 (fork_child n i s)
  forked i s l g r = record {
    inv =
        subst (λ x. Inv (suc n) x t) (omega arith)
          (hired
            (hired g.inv i decrement (omega (arith, l)) (ap is_inside unborn_yet)
              (g.lives.ended i (ap is_ended unborn_yet)))
            n increment (omega arith) (ap (λ w. is_inside w.pc) same ∙ ap is_inside r.quiet)
            (ap (λ w. w.todo) same ∙ r.free));
    lives =
        aside (born g.lives i decrement refl l) n (record { pc = outside; todo = increment ∷ [] })
          (omega arith) refl;
  }
    where
      unborn_yet : (s.shared.workers i).pc ≡ unborn
      unborn_yet = g.lives.newborn i (omega arith) l

      off : (n == i) ≡ false
      off = ==_ne n i (λ e. absurd (omega (arith, l, e)))

      same : (assign i decrement s.shared).workers n ≡ s.shared.workers n
      same = ground (arith, off)

      t : Shared
      t = (fork_child n i s).shared

  skipped : (i : ℕ) (s : System) (p : Phase) → At i 0 s → At (suc i) 0 (with_phase p s)
  skipped i s p g = record { inv = g.inv; lives = later g.lives }

  all_in : (i : ℕ) (s : System) → At i 0 s → At n 0 (with_phase (waiting 0 0) s)
  all_in i s g = record { inv = g.inv; lives = all_born g.lives }

  awaited :
      (i found k : ℕ) (s : System) (p : Phase)
      → k < n
      → (s.shared.workers k).pc ≡ exited
      → At n found s
      → At n (suc found) (with_phase p (with_shared (move k reaped s.shared) s))
  awaited i found k s p b e g = record {
    inv = gone g.inv k reaped (ap is_inside e) refl;
    lives = buried g.lives k e b;
  }

  none_running :
      (found : ℕ) (s : System) → At n found s → Rests s → found ≡ s.num_started → s.shared.sum ≡ 0
  none_running found s g r e = omega (arith, zero_total, g.inv.balance, g.inv.small)
    where
      idle : (k : ℕ) → k < suc n → owed (s.shared.workers k) ≡ 0
      idle k b = elim (dec_lt k n) [
        | yes child ↦ ap sum_of (waited_for g.lives k e child)
        | no other ↦
            let same : k ≡ n = omega (arith, b, other) in
            ap (λ j. owed (s.shared.workers j)) same ∙ ap sum_of r.free
      ]

      zero_total : total owed (suc n) s.shared.workers ≡ 0
      zero_total = total_zero owed (suc n) s.shared.workers idle

  Run-Good : {s t : System} → Run n s t → Good s.phase s → Good t.phase t
  unfolding Good
  Run-Good {s} (process {t} step) g = kept s.phase s t (λ i w. moved step) (resting_on s t step) g
  Run-Good {s} (child_exits k l p q) g =
      kept s.phase s (move k exited s.shared) (λ i w. quit k p q)
        (λ r. still_resting s k (at_pc (s.shared.workers k) exited) s.phase l r) g
  Run-Good {s} (fork i p l) g = let h = subst (λ x. Good x s) p g in forked i s l h.0 h.1
  Run-Good {s} (fork_fails i p l) g =
      let h = subst (λ x. Good x s) p g in
      (skipped i s (forking (suc i)) h.0, resting_at s (forking (suc i)) h.1)
  Run-Good {s} (counted i p q r) g =
      let h = subst (λ x. Good x s) p g in
      (record { inv = h.inv; lives = h.lives }, record { quiet = q; free = r })
  Run-Good {s} (all_forked i p l) g =
      let h = subst (λ x. Good x s) p g in (all_in i s h.0, resting_at s (waiting 0 0) h.1)
  Run-Good {s} (wait i found k p l b e) g =
      let h = subst (λ x. Good x s) p g in
      (
        awaited i found k s (waiting (suc i) (suc found)) b e h.0,
        still_resting s k (at_pc (s.shared.workers k) reaped) (waiting (suc i) (suc found)) b h.1,
      )
  Run-Good {s} (wait_fails i found p l) g =
      let h = subst (λ x. Good x s) p g in
      (record { inv = h.0.inv; lives = h.0.lives }, resting_at s (waiting (suc i) found) h.1)
  Run-Good {s} (tell i found p l) g =
      let h = subst (λ x. Good x s) p g in λ e. ap report (none_running found s h.0 h.1 e)

  Reachable-Good : {s : System} → Reachable n s → Good s.phase s
  unfolding Good
  Reachable-Good started = (
    record {
      inv = record {
        holder = none;
        small = omega arith;
        counted = refl;
        apart = λ k e. ground arith;
        fresh = λ k v e. ground arith;
        idle = λ k l. refl;
        balance = omega (arith, total_zero owed (suc n) (start n).shared.workers (λ k l. refl));
      };
      lives = record {
        alive = omega (
          arith,
          total_zero live n (start n).shared.workers
              (λ k l. ground (arith, ==_ne k n (λ e. absurd (omega (arith, l, e))))),
        );
        ended = λ k e. refl;
        newborn = λ k l m. ground arith;
      };
    },
    record { quiet = ground arith; free = refl },
  )
  Reachable-Good (stepped p step) = Run-Good step (Reachable-Good p)

-- Whatever the order in which the parent and the children run, and however many of the calls of `fork` fail:
-- if every started child has been waited for, `main` reports that all children are done.
pub Reachable-reported :
    (n : ℕ) (s : System) (r : Report)
    → Reachable n s
    → s.phase ≡ reported s.num_started r
    → r ≡ all_done
unfolding Good
Reachable-reported n s r p e = subst (λ x. Good n x s) e (Reachable-Good n p) refl
