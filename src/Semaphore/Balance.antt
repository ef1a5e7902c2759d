-- ===== src/Semaphore/Balance.antt =====
-- mpsumarray/mpsumarray.c and sharedmem/sleepingprocesses.c: the semaphore keeps the processes apart, and
-- no addition to the shared number is lost.
use cs.Prelude.{
  ℕ, zero, suc, ◌+◌, ◌%◌, ◌^◌, ◌≤◌, ◌<◌, ◌≡◌, ◌≢◌, refl, sym, ◌∙◌, ap, true, false, Option, none,
  some, List, [], ◌∷◌, arith, ◌==◌, Bool-cases, inl, inr, dec_lt, subst,
}
use cs.Prelude.Sums.{total, total-update, total-update_same}
use cs.Server.State.{Status}
use cs.Semaphore.{Complaint, Semaphore, returns, down, up}
use cs.Semaphore.Adders.{
  Pc, outside, holding, loaded, stored, Worker, Shared, set_worker, at_pc, move, with_semaphore,
  write_sum, Step, enter, load, store, leave, is_inside,
}

abbrev pub sum_of : List ℕ → ℕ
sum_of [] = 0
sum_of (a ∷ rest) = a + sum_of rest

abbrev pub owed : Worker → ℕ
owed w = sum_of w.todo

abbrev value_of : Option ℕ → ℕ
value_of none = 1
value_of (some k) = 0

-- Of the processes below `n`, one at most is inside, and what is in the shared number and what the processes
-- have still to add come to `t`.
pub record Inv (n t : ℕ) (s : Shared) : Type 0 where
  pub holder : Option ℕ
  pub small : s.sum < 2 ^ 32
  pub counted : s.semaphore ≡ some (value_of holder)
  pub apart : (k : ℕ) → is_inside (s.workers k).pc ≡ true → holder ≡ some k
  pub fresh : (k v : ℕ) → (s.workers k).pc ≡ loaded v → v ≡ s.sum
  pub idle : (k : ℕ) → n ≤ k → (s.workers k).todo ≡ []
  pub balance : (s.sum + total owed n s.workers) % 2 ^ 32 ≡ t % 2 ^ 32

module _ {n t : ℕ} {s : Shared} (inv : Inv n t s) (i : ℕ) where
  open inv use {holder, counted, apart, fresh, idle, balance, small}

  -- A move of process `i` that leaves the shared number alone.
  moved :
      (pc : Pc) (m : Semaphore) (holder' : Option ℕ)
      → m ≡ some (value_of holder')
      → ((k : ℕ) → k ≢ i → is_inside (s.workers k).pc ≡ true → holder' ≡ some k)
      → (is_inside pc ≡ true → holder' ≡ some i)
      → ((v : ℕ) → pc ≡ loaded v → v ≡ s.sum)
      → Inv n t (with_semaphore m (move i pc s))
  moved pc m holder' c others self now = record {
    holder = holder';
    small = small;
    counted = c;
    apart = λ k e. elim (Bool-cases (k == i)) [
      | inl at ↦ ground (arith, self)
      | inr off ↦ ground (arith, others k)
    ];
    fresh = λ k v e. elim (Bool-cases (k == i)) [
      | inl at ↦ ground (arith, now v)
      | inr off ↦ ground (arith, fresh k v)
    ];
    idle = λ k l. ground (arith, idle k l, idle i);
    balance =
        ground (arith, balance, total-update_same owed n s.workers i (at_pc (s.workers i) pc) refl);
  }

  busy : {a : ℕ} {rest : List ℕ} → (s.workers i).todo ≡ a ∷ rest → i < n
  busy q = elim (dec_lt i n) [
    | yes below ↦ below
    | no beyond ↦ absurd (ground (arith, q, idle i (omega arith)))
  ]

  -- With `*sum` written, before `V`.
  pub alone :
      (k : ℕ) → is_inside (s.workers i).pc ≡ true → is_inside (s.workers k).pc ≡ true → i ≡ k
  alone k p q = ground (arith, apart i p, apart k q)

  nobody : (k : ℕ) → s.semaphore ≡ some 1 → is_inside (s.workers k).pc ≡ false
  nobody k e = elim (Bool-cases (is_inside (s.workers k).pc)) [
    | inl into ↦ absurd (ground (arith, e, counted, apart k into))
    | inr out ↦ out
  ]

  entered : s.semaphore ≡ some 1 → Inv n t (with_semaphore (some 0) (move i holding s))
  entered e =
      moved holding (some 0) (some i) refl (λ k off into. absurd (ground (arith, into, nobody k e)))
        (λ into. refl) (λ v e. ground arith)

  read : (s.workers i).pc ≡ holding → Inv n t (move i (loaded s.sum) s)
  read p =
      moved (loaded s.sum) s.semaphore holder counted (λ k off into. apart k into)
        (λ into. apart i (ap is_inside p)) (λ v e. ground (arith, e))

  written :
      (v a : ℕ) (rest : List ℕ)
      → (s.workers i).pc ≡ loaded v
      → (s.workers i).todo ≡ a ∷ rest
      → Inv n t (write_sum i v a rest s)
  written v a rest p q = record {
    holder = holder;
    small = ground (arith, small);
    counted = counted;
    apart = λ k e. elim (Bool-cases (k == i)) [
      | inl at ↦ ground (arith, apart i (ap is_inside p))
      | inr off ↦ ground (arith, apart k)
    ];
    fresh = λ k v' e. elim (Bool-cases (k == i)) [
      | inl at ↦ ground arith
      | inr off ↦ absurd (ground (arith, alone k (ap is_inside p) (ap is_inside (rw off at e))))
    ];
    idle = λ k l. ground (arith, idle k l, idle i, q);
    balance = omega (
      arith,
      balance,
      fresh i v p,
      ap sum_of q,
      total-update owed n s.workers i (record { pc = stored; todo = rest }) (busy q),
    );
  }

  left : (s.workers i).pc ≡ stored → Inv n t (with_semaphore (some 1) (move i outside s))
  left p =
      moved outside (some 1) none refl
        (λ k off into. absurd (off (sym (alone k (ap is_inside p) into)))) (λ into. ground arith)
        (λ v e. ground arith)

  pub gone :
      (pc : Pc) → is_inside (s.workers i).pc ≡ false → is_inside pc ≡ false → Inv n t (move i pc s)
  gone pc p q =
      moved pc s.semaphore holder counted (λ k off into. apart k into)
        (λ into. absurd (ground (arith, into, q)))
        (λ v e. absurd (ground (arith, q, ap is_inside e)))

  -- A process that has nothing to add gets `a` to add.
  pub hired :
      (a : ℕ)
      → i < n
      → is_inside (s.workers i).pc ≡ false
      → (s.workers i).todo ≡ []
      → Inv n (t + a) (set_worker i (record { pc = outside; todo = a ∷ [] }) s)
  hired a l p q = record {
    holder = holder;
    small = ground (arith, small);
    counted = counted;
    apart = λ k e. elim (Bool-cases (k == i)) [
      | inl at ↦ ground arith
      | inr off ↦ ground (arith, apart k)
    ];
    fresh = λ k v e. elim (Bool-cases (k == i)) [
      | inl at ↦ ground arith
      | inr off ↦ ground (arith, fresh k v)
    ];
    idle = λ k m. ground (arith, idle k m);
    balance = omega (
      arith,
      balance,
      ap sum_of q,
      total-update owed n s.workers i (record { pc = outside; todo = a ∷ [] }),
    );
  }

pub down_inv :
    (m : Semaphore) (status : Status) (c : Option Complaint) (o : Option ℕ) (m' : Semaphore)
    → m ≡ some (value_of o)
    → down m ≡ returns status c m'
    → (m ≡ some 1) × (m' ≡ some 0)
down_inv none status c o m' e d = ground arith
down_inv (some zero) status c o m' e d = ground arith
down_inv (some (suc v)) status c none m' e d = ground arith
down_inv (some (suc v)) status c (some k) m' e d = ground arith

pub up_inv :
    (m : Semaphore) (status : Status) (c : Option Complaint) (m' : Semaphore)
    → m ≡ some 0
    → up m ≡ returns status c m'
    → m' ≡ some 1
up_inv none status c m' e d = ground arith
up_inv (some v) status c m' e d = ground arith

pub Step-Inv : {n t : ℕ} {s u : Shared} → Step s u → Inv n t s → Inv n t u
Step-Inv {n} {t} {s} (enter i a rest status c m p q d) inv =
    let (one, none_left) = down_inv s.semaphore status c inv.holder m inv.counted d in
    subst (λ x. Inv n t (with_semaphore x (move i holding s))) (sym none_left) (entered inv i one)
Step-Inv (load i p) inv = read inv i p
Step-Inv (store i v a rest p q) inv = written inv i v a rest p q
Step-Inv {n} {t} {s} (leave i status c m p d) inv =
    subst (λ x. Inv n t (with_semaphore x (move i outside s)))
      (sym (
        up_inv s.semaphore status c m
          (inv.counted ∙ ap (λ x. some (value_of x)) (inv.apart i (ap is_inside p))) d))
      (left inv i p)
