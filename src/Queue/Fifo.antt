-- ===== src/Queue/Fifo.antt =====
-- 392/producerconsumer/produceconsume.c: first in, first out, and the indices.
use cs.Prelude.{
  true, false, ℕ, zero, suc, ◌+◌, ◌-◌, ◌%◌, ◌≤◌, ◌<◌, ◌≡◌, refl, sym, ◌∙◌, ap, List, [], ◌∷◌, ◌++◌,
  Bytes, arith, ◌==◌,
}
use cs.Queue.{
  queuelen, Role, Shared, put, produce, consume, Step, lock, sleep_producer, sleep_consumer, wake,
  relock, make, take, unlock, exit, Reachable, started, stepped, random_expression,
}

-- The `n` expressions in the queue from index `i` on, around its end.
unfoldable pub contents : (ℕ → Bytes) → ℕ → ℕ → List Bytes
contents queue i zero = []
contents queue i (suc n) = queue (i % queuelen) ∷ contents queue (suc i) n

contents-congr :
    (queue : ℕ → Bytes) (i j n : ℕ)
    → i % queuelen ≡ j % queuelen
    → contents queue i n ≡ contents queue j n
unfolding contents
contents-congr queue i j zero h = refl
contents-congr queue i j (suc n) h =
    let rest = contents-congr queue (suc i) (suc j) n (omega arith) in rw (h, rest) refl

contents-put :
    (queue : ℕ → Bytes) (e : Bytes) (i n w : ℕ)
    → w ≡ (i + n) % queuelen
    → n < queuelen
    → contents (put queue w e) i (suc n) ≡ contents queue i n ++ e ∷ []
unfolding contents
contents-put queue e i zero w h l =
    let here : (i % queuelen == w) ≡ true = ground arith in rw here refl
contents-put queue e i (suc n) w h l =
    let elsewhere : (i % queuelen == w) ≡ false = ground arith in
    let rest = contents-put queue e (suc i) n w (omega arith) (omega arith) in
    rw elsewhere (ap (◌∷◌ (queue (i % queuelen))) rest)

++_assoc : (xs ys zs : List Bytes) → (xs ++ ys) ++ zs ≡ xs ++ (ys ++ zs)
++_assoc [] ys zs = refl
++_assoc (x ∷ xs) ys zs = ap (◌∷◌ x) (++_assoc xs ys zs)

contents-head :
    (queue : ℕ → Bytes) (i n : ℕ)
    → i < queuelen
    → 0 < n
    → contents queue i n ≡ queue i ∷ contents queue ((i + 1) % queuelen) (n - 1)
unfolding contents
contents-head queue i zero l p = absurd (omega arith)
contents-head queue i (suc n) l p =
    let inside : i % queuelen ≡ i = omega arith in
    let less : suc n - 1 ≡ n = omega arith in
    let rest = contents-congr queue (suc i) ((i + 1) % queuelen) n (omega arith) in
    rw (inside, less, rest) refl

-- The order of the expressions, and the indices inside the queue.
pub record IsFifo (s : Shared) : Type 0 where
  pub order : s.produced ≡ s.consumed ++ contents s.queue s.read_index s.num_occupied
  pub size : s.num_occupied ≤ queuelen
  pub read : s.read_index < queuelen
  pub write : s.write_index ≡ (s.read_index + s.num_occupied) % queuelen

produce-IsFifo :
    (e : Bytes) (s : Shared) → s.num_occupied < queuelen → IsFifo s → IsFifo (produce e s)
unfolding produce
produce-IsFifo e s l h = record {
  order =
      ap (λ p. p ++ e ∷ []) h.order
      ∙ ++_assoc s.consumed (contents s.queue s.read_index s.num_occupied) (e ∷ [])
      ∙ ap (◌++◌ s.consumed) (
          sym (contents-put s.queue e s.read_index s.num_occupied s.write_index h.write l)
          ∙ ap (contents (put s.queue s.write_index e) s.read_index) (omega arith));
  size = omega (arith, h.size);
  read = h.read;
  write = omega (arith, h.write);
}

consume-IsFifo : (s : Shared) → 0 < s.num_occupied → IsFifo s → IsFifo (consume s)
unfolding consume
consume-IsFifo s l h = record {
  order =
      h.order
      ∙ ap (◌++◌ s.consumed) (contents-head s.queue s.read_index s.num_occupied h.read l)
      ∙ sym (
          ++_assoc s.consumed (s.queue s.read_index ∷ [])
            (contents s.queue ((s.read_index + 1) % queuelen) (s.num_occupied - 1)));
  size = omega (arith, h.size);
  read = omega arith;
  write = omega (arith, h.write);
}

pub Step-IsFifo : {s t : Shared} → Step s t → IsFifo s → IsFifo t
Step-IsFifo (lock i p r m) h = record {
  order = h.order;
  size = h.size;
  read = h.read;
  write = h.write;
}
Step-IsFifo (sleep_producer i p r m) h = record {
  order = h.order;
  size = h.size;
  read = h.read;
  write = h.write;
}
Step-IsFifo (sleep_consumer i p r m) h = record {
  order = h.order;
  size = h.size;
  read = h.read;
  write = h.write;
}
Step-IsFifo (wake i p) h = record { order = h.order; size = h.size; read = h.read; write = h.write }
Step-IsFifo (relock i p m) h = record {
  order = h.order;
  size = h.size;
  read = h.read;
  write = h.write;
}
Step-IsFifo {s} (make i r1 r2 p r l) h =
    let k = produce-IsFifo (random_expression r1 r2) s l h in
    record { order = k.order; size = k.size; read = k.read; write = k.write }
Step-IsFifo {s} (take i p r l) h =
    let k = consume-IsFifo s l h in
    record { order = k.order; size = k.size; read = k.read; write = k.write }
Step-IsFifo (unlock i p) h = record {
  order = h.order;
  size = h.size;
  read = h.read;
  write = h.write;
}
Step-IsFifo (exit i p r) h = record {
  order = h.order;
  size = h.size;
  read = h.read;
  write = h.write;
}

-- In every reachable state, for any number of producers and consumers and any order of their steps:
-- the expressions produced are those consumed, in the same order, and then the ones in the queue, so
-- that each is consumed once and none is lost; the queue holds at most QUEUELEN; and both indices are
-- inside it.
pub Reachable-IsFifo :
    (roles : ℕ → Role) (queue : ℕ → Bytes) (s : Shared) → Reachable roles queue s → IsFifo s
unfolding contents
Reachable-IsFifo roles queue _ started = record {
  order = refl;
  size = omega arith;
  read = omega arith;
  write = refl;
}
Reachable-IsFifo roles queue _ (stepped {s} p step) =
    Step-IsFifo step (Reachable-IsFifo roles queue s p)
