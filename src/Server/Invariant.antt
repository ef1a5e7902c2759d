-- ===== src/Server/Invariant.antt =====
-- hw7/chatserver.c: the invariant that relates `num_connections`, `client_sockets` and `usernames`,
-- and how the two writes to the table change it.
use cs.Prelude.{
  ℕ, zero, suc, ◌+◌, ◌≤◌, ◌<◌, ◌≡◌, refl, Bool, true, false, not, Option, none, some, List, [], ◌∷◌,
  Bytes, if◌then◌else◌, length, get_elem?, set, All, arith,
}
use cs.Prelude.Int.{ltb_ℤ, ℤ, pos, minus_one, eq_ℤ, is_neg}
use cs.Util.{max_name_len}
use cs.Server.State.{fd_setsize, max_connections, Slot, Server, free_slot, fresh}
use cs.Server.Handlers.{slot_at, free_index}

abbrev pub is_live : Slot → Bool
is_live x = not (eq_ℤ x.client_socket minus_one)

abbrev pub weight : Slot → ℕ
weight x = if is_live x then 1 else 0

unfoldable pub live : List Slot → ℕ
live [] = 0
live (x ∷ xs) = weight x + live xs

abbrev pub name_length : Option Bytes → ℕ
name_length none = 0
name_length (some n) = length n

abbrev pub is_some {ℓ} : {A : Type ℓ} → Option A → Bool
is_some none = false
is_some (some a) = true

-- A socket is open exactly where there is a name; a name is no longer than the client sends, and a
-- descriptor is one for `FD_SET`.
pub record IsSlot (x : Slot) : Type 0 where
  pub open_or_free : is_neg x.client_socket ≡ true → x.client_socket ≡ minus_one
  pub named : is_some x.username ≡ not (is_neg x.client_socket)
  pub short : name_length x.username ≤ max_name_len
  pub low : ltb_ℤ x.client_socket (pos fd_setsize) ≡ true

pub record IsConsistent (s : Server) : Type 0 where
  pub size : length s.slots ≡ max_connections
  pub counted : s.num_connections ≡ pos (live s.slots)
  pub table : All IsSlot s.slots
  pub door : ltb_ℤ s.server_socket (pos fd_setsize) ≡ true

pub fresh-IsConsistent : (fd : ℤ) → ltb_ℤ fd (pos fd_setsize) ≡ true → IsConsistent (fresh fd)
unfolding live
fresh-IsConsistent fd h = record { size = refl; counted = refl; table = ground arith; door = h }

pub All-set {ℓ κ} :
    {A : Type ℓ} (P : A → Type κ) (xs : List A) (k : ℕ) {y : A}
    → All P xs
    → P y
    → All P (set xs k y)
All-set P [] k h p = tt
All-set P (x ∷ xs) zero h p = (p, h.1)
All-set P (x ∷ xs) (suc k) h p = (h.0, All-set P xs k h.1 p)

pub free_slot-IsSlot : IsSlot free_slot
free_slot-IsSlot = ground arith

pub All-slot_at :
    (P : Slot → Type 0) (xs : List Slot) (k : ℕ)
    → All P xs
    → P free_slot
    → P (slot_at (get_elem? xs k))
All-slot_at P [] k h p = p
All-slot_at P (x ∷ xs) zero h p = h.0
All-slot_at P (x ∷ xs) (suc k) h p = All-slot_at P xs k h.1 p

pub live-set :
    (xs : List Slot) (k : ℕ) (y : Slot)
    → k < length xs
    → live (set xs k y) + weight (slot_at (get_elem? xs k)) ≡ live xs + weight y
unfolding live
live-set [] k y h = absurd (omega arith)
live-set (x ∷ xs) zero y h = omega arith
live-set (x ∷ xs) (suc k) y h = omega (arith, live-set xs k y)

pub free_index-some :
    (xs : List Slot) (k : ℕ)
    → free_index xs ≡ some k
    → (k < length xs) × ((slot_at (get_elem? xs k)).client_socket ≡ minus_one)
unfolding free_index
free_index-some [] k h = cc
free_index-some (x ∷ xs) zero h = ground arith
free_index-some (x ∷ xs) (suc k) h = ground (arith, free_index-some xs k)

pub live-le : (xs : List Slot) → live xs ≤ length xs
unfolding live
live-le [] = omega arith
live-le (x ∷ xs) = ground (arith, live-le xs)

pub free_index-none : (xs : List Slot) → free_index xs ≡ none → live xs ≡ length xs
unfolding free_index live
free_index-none [] h = refl
free_index-none (x ∷ xs) h = ground (arith, free_index-none xs)

-- What the write of a new client does to the table.
pub live-take :
    (xs : List Slot) (k : ℕ) (y : Slot)
    → free_index xs ≡ some k
    → is_live y ≡ true
    → live (set xs k y) ≡ live xs + 1
live-take xs k y h l = ground (arith, live-set xs k y, free_index-some xs k h)

-- And what the write of a free slot over a client does.
pub live-forget :
    (xs : List Slot) (k : ℕ)
    → k < length xs
    → is_live (slot_at (get_elem? xs k)) ≡ true
    → live (set xs k free_slot) + 1 ≡ live xs
live-forget xs k h l = ground (arith, live-set xs k free_slot)
