-- ===== src/ThreadSum/Total.antt =====
-- lab 10/mtsumarray.c: what `main` prints after the threads.
use cs.Prelude.{
  ℕ, zero, suc, ◌≤◌, ◌<◌, ◌^◌, ◌≡◌, refl, sym, ◌∙◌, subst, Bool, true, false, List, [], ◌∷◌, Bytes,
  arith,
}
use cs.Prelude.Int.{ℤ, pos, negsuc}
use cs.Prelude.Sums.{total}
use cs.Util.{atoi}
use cs.Semaphore.Adders.{exited, move}
use cs.SumArray.{random_array, sum_check, printed, System}
use cs.SumArray.Total.{
  At, start-At, moved, quit, forked, forked_both, awaited, all_summed, Good, kept,
}
use cs.SumArray.Bounds.{plain, sum_check-total}
use cs.ThreadSum.{
  Outcome, usage, invalid_number, cannot_allocate, cannot_create_mutex, runs, with_number,
  before_threads, thread, thread_exits, create, create_fails, all_created, join, destroy_fails,
  print, Run, Reachable, started, stepped,
}

module _ (array : ℕ → ℕ) (n : ℕ) where
  Run-Good : {s t : System} → Run array n s t → Good array n s.phase s → Good array n t.phase t
  unfolding Good
  Run-Good {s} (thread {t} step) g = kept array n s.phase s t (λ i w. moved array n step) g
  Run-Good {s} (thread_exits k l p q) g =
      kept array n s.phase s (move k exited s.shared) (λ i w. quit array n k p q) g
  Run-Good {s} (create i p l) g = forked array n i s l (subst (λ x. Good array n x s) p g)
  Run-Good (create_fails i p l) g = tt
  Run-Good {s} (all_created i p l) g = forked_both array n i s l (subst (λ x. Good array n x s) p g)
  Run-Good {s} (join i p l e) g = awaited array n i i s l e (subst (λ x. Good array n x s) p g)
  Run-Good (destroy_fails i p l) g = tt
  Run-Good {s} (print i p l) g =
      let a : At array n 2 i s = subst (λ x. Good array n x s) p g in
      all_summed array n i s (omega (arith, l, a.begun)) a

  pub Reachable-Good : {s : System} → Reachable array n s → Good array n s.phase s
  unfolding Good
  Reachable-Good started = start-At array n
  Reachable-Good (stepped p step) = Run-Good step (Reachable-Good p)

-- Whatever the order in which `main` and the threads run: in every reachable state where `main` has
-- printed what the threads added up, that number is the sum that `main` adds up itself.
Reachable-checked :
    (array : ℕ → ℕ) (n : ℕ) (s : System) (v : ℕ)
    → Reachable array n s
    → s.phase ≡ printed v
    → v ≡ sum_check array n
unfolding Good
Reachable-checked array n s v p e = subst (λ x. Good array n x s) e (Reachable-Good array n p)

abbrev IsRandom : (ℕ → ℕ) → Outcome → Type 0
IsRandom rand (runs array n) = array ≡ random_array rand
IsRandom rand usage = Unit
IsRandom rand (invalid_number arg) = Unit
IsRandom rand (cannot_allocate arg) = Unit
IsRandom rand cannot_create_mutex = Unit

with_number-IsRandom :
    (malloc init : Bool) (rand : ℕ → ℕ) (arg : Bytes) (z : ℤ)
    → IsRandom rand (with_number malloc init rand arg z)
with_number-IsRandom malloc init rand arg (pos zero) = tt
with_number-IsRandom malloc init rand arg (negsuc n) = tt
with_number-IsRandom false init rand arg (pos (suc n)) = tt
with_number-IsRandom true false rand arg (pos (suc n)) = tt
with_number-IsRandom true true rand arg (pos (suc n)) = refl

before_threads-IsRandom :
    (malloc init : Bool) (rand : ℕ → ℕ) (args : List Bytes)
    → IsRandom rand (before_threads malloc init rand args)
before_threads-IsRandom malloc init rand [] = tt
before_threads-IsRandom malloc init rand (arg ∷ []) =
    with_number-IsRandom malloc init rand arg (atoi arg)
before_threads-IsRandom malloc init rand (arg ∷ more ∷ args) = tt

-- Where the program comes to its threads with up to 238609294 values, and whatever the order in which
-- `main` and the threads run: in every reachable state where `main` has printed what the threads added
-- up, that number is the sum of the values, computed without overflow, and an `int` holds it.
pub Reachable-total :
    (malloc init : Bool) (rand array : ℕ → ℕ) (args : List Bytes) (n : ℕ) (s : System) (v : ℕ)
    → before_threads malloc init rand args ≡ runs array n
    → n ≤ 238609294
    → Reachable array n s
    → s.phase ≡ printed v
    → (v ≡ total plain n array) × (v < 2 ^ 31)
Reachable-total malloc init rand array args n s v b l r e = (same ∙ d, omega (arith, same, m))
  where
    same : v ≡ sum_check array n
    same = Reachable-checked array n s v r e

    random : array ≡ random_array rand
    random = subst (IsRandom rand) b (before_threads-IsRandom malloc init rand args)

    exact : (sum_check array n ≡ total plain n array) × (sum_check array n < 2 ^ 31)
    exact =
        subst (λ a. (sum_check a n ≡ total plain n a) × (sum_check a n < 2 ^ 31)) (sym random)
          (sum_check-total rand n l)

    d : sum_check array n ≡ total plain n array
    d = exact.0

    m : sum_check array n < 2 ^ 31
    m = exact.1
