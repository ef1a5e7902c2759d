-- ===== src/Server/Delivery.antt =====
-- hw7/chatserver.c: who gets a message that `broadcast_buffer` sends.
use cs.Prelude.{
  ℕ, zero, suc, ◌+◌, ◌≤◌, ◌≡◌, refl, true, false, not, ◌&&◌, ◌≢◌, Option, none, some, List, [], ◌∷◌,
  ◌++◌, Bytes, bytes, bytes_eq, ◌==◌, if◌then◌else◌, length, get_elem?, set, All, arith, Bool-cases,
  inl, inr, sym, ap, ◌∙◌,
}
use cs.Prelude.Int.{ℤ, pos, minus_one, eq_ℤ, eq_ℤ→eq, eq_ℤ_refl, is_neg, leb_ℤ}
use cs.Util.{max_msg_len, max_name_len}
use cs.Util.Input.{cstr-length, cstr}
use cs.Server.State.{
  max_connections, outbuf_size, Slot, Server, Run, done, out_of_bounds, ◌>>=◌, Ends, ends, Status,
  Accepted, Received, recv_failed, received, write_string,
}
use cs.Server.Messages.{
  create_welcome_msg, broadcast_buffer, broadcast, name_text, says_text, joined_text,
}
use cs.Server.Handlers.{
  recv_on, disconnect_client, receive_name, add_at, add_client, free_index, terminate_inbuf,
  handle_server_socket, client, slot_at, handle_client_socket,
}
use cs.Server.Invariant.{All-set, is_live}
use cs.Server.Handling.{terminate_inbuf-done}
use cs.Server.Texts.{write_string-done, texts_fit}

-- The texts sent to one descriptor, oldest first.
unfoldable pub mailbox : ℤ → List (ℤ × Bytes) → List Bytes
mailbox fd [] = []
mailbox fd ((to, m) ∷ sent) = if eq_ℤ to fd then m ∷ mailbox fd sent else mailbox fd sent

mailbox-append :
    (fd : ℤ) (xs ys : List (ℤ × Bytes)) → mailbox fd (xs ++ ys) ≡ mailbox fd xs ++ mailbox fd ys
unfolding mailbox
mailbox-append fd [] ys = refl
mailbox-append fd ((to, m) ∷ xs) ys = ground (arith, mailbox-append fd xs ys)

-- No two slots hold the same open socket.
abbrev pub Apart : ℤ → List Slot → Type 0
Apart fd = All (λ x. x.client_socket ≢ fd)

abbrev pub Distinct : List Slot → Type 0
Distinct [] = Unit
Distinct (x ∷ xs) = (is_live x ≡ true → Apart x.client_socket xs) × Distinct xs

broadcast-Apart :
    (skip : ℤ) (m : Bytes) (fd : ℤ) (i : ℕ) (xs : List Slot)
    → Apart fd xs
    → mailbox fd (broadcast skip m i xs) ≡ []
unfolding mailbox broadcast
broadcast-Apart skip m fd i [] h = refl
broadcast-Apart skip m fd i (x ∷ xs) h =
    ground (arith, broadcast-Apart skip m fd (suc i) xs h.1, h.0, eq_ℤ→eq x.client_socket fd)

Apart-slot_at :
    (fd : ℤ) (xs : List Slot) (k : ℕ)
    → Apart fd xs
    → fd ≢ minus_one
    → (slot_at (get_elem? xs k)).client_socket ≢ fd
Apart-slot_at fd [] k h n e = n (sym e)
Apart-slot_at fd (x ∷ xs) zero h n e = h.0 e
Apart-slot_at fd (x ∷ xs) (suc k) h n e = Apart-slot_at fd xs k h.1 n e

other_socket :
    (x : Slot) (xs : List Slot) (k : ℕ)
    → Distinct (x ∷ xs)
    → is_live (slot_at (get_elem? xs k)) ≡ true
    → is_live x ≡ true
    → eq_ℤ x.client_socket (slot_at (get_elem? xs k)).client_socket ≡ false
other_socket x xs k d l lx = ground (
  arith,
  eq_ℤ→eq x.client_socket (slot_at (get_elem? xs k)).client_socket,
  Apart-slot_at x.client_socket xs k (d.0 lx),
)

-- One copy for each open slot but the one that is skipped.
broadcast-mailbox :
    (skip : ℤ) (m : Bytes) (k i : ℕ) (xs : List Slot)
    → Distinct xs
    → is_live (slot_at (get_elem? xs k)) ≡ true
    → mailbox (slot_at (get_elem? xs k)).client_socket (broadcast skip m i xs)
      ≡ (if eq_ℤ (pos (i + k)) skip then [] else m ∷ [])
unfolding mailbox broadcast
broadcast-mailbox skip m k i [] d l = cc
broadcast-mailbox skip m zero i (x ∷ xs) d l =
    ground
      (arith, broadcast-Apart skip m x.client_socket (suc i) xs (d.0 l), eq_ℤ_refl x.client_socket)
broadcast-mailbox skip m (suc k) i (x ∷ xs) d l =
    ground (arith, other_socket x xs k d l, broadcast-mailbox skip m k (suc i) xs d.1 l)

-- A run that ends in a state where only the outbox has changed, and where each connected client has
-- got the text once, but for client `i`, who has not.
pub record Delivered (i : ℕ) (m : Bytes) (s t : Server) : Type 0 where
  pub same_table : t.slots ≡ s.slots
  pub same_count : t.num_connections ≡ s.num_connections
  pub got :
      (k : ℕ)
      → is_live (client k s) ≡ true
      → mailbox (client k s).client_socket t.sent
        ≡ (mailbox (client k s).client_socket s.sent ++ (if k == i then [] else m ∷ []))

broadcast_buffer-Delivered :
    (i : ℕ) (m inbuf out : Bytes) (s : Server)
    → Distinct s.slots
    → Delivered i m s (broadcast_buffer (pos i) m (record s { inbuf = inbuf; outbuf = out }))
unfolding broadcast_buffer
broadcast_buffer-Delivered i m inbuf out s d = record {
  same_table = refl;
  same_count = refl;
  got = λ k l.
      mailbox-append (client k s).client_socket s.sent (broadcast (pos i) m 0 s.slots)
      ∙ ap (λ b. mailbox (client k s).client_socket s.sent ++ b)
          (ground (arith, broadcast-mailbox (pos i) m k 0 s.slots d l));
}

-- A message other than "bye" that fits goes, with the sender's name, exactly once to every other
-- connected client and not to the sender; nobody is disconnected.
pub handle_client_socket-Delivered :
    (i c : ℕ) (b : Bytes) (s : Server)
    → Distinct s.slots
    → length (c ∷ b) ≤ max_msg_len
    → length (name_text (client i s).username) ≤ max_name_len
    → bytes_eq (cstr (c ∷ b)) (bytes "bye") ≡ false
    → Ends
        (Delivered i (says_text (name_text (client i s).username) (cstr (c ∷ b))) s)
        (handle_client_socket i (received (c ∷ b)) s)
unfolding handle_client_socket
handle_client_socket-Delivered i c b s d h n bye =
    rw
      (
        terminate_inbuf-done (c ∷ b) h,
        bye,
        write_string-done outbuf_size (says_text (name_text (client i s).username) (cstr (c ∷ b))) (
            omega (
              arith,
              cstr-length (c ∷ b),
              texts_fit (name_text (client i s).username) (cstr (c ∷ b)),
            )),
      )
      (ends (broadcast_buffer-Delivered i _ (cstr (c ∷ b)) _ s d))

Apart-set :
    (fd : ℤ) (xs : List Slot) (k : ℕ) (y : Slot)
    → Apart fd xs
    → y.client_socket ≢ fd
    → Apart fd (set xs k y)
Apart-set fd xs k y h n = All-set (λ x. x.client_socket ≢ fd) xs k h n

Distinct-set :
    (xs : List Slot) (k : ℕ) (y : Slot)
    → Distinct xs
    → (is_live y ≡ true → Apart y.client_socket xs)
    → Distinct (set xs k y)
Distinct-set [] k y d h = tt
Distinct-set (x ∷ xs) zero y d h = (λ l. (h l).1, d.1)
Distinct-set (x ∷ xs) (suc k) y d h = (
  λ l. Apart-set x.client_socket xs k y (d.0 l) (λ e. (h (rw e l)).0 (sym e)),
  Distinct-set xs k y d.1 (λ l. (h l).1),
)

-- What holds of the end of a run, if it ends.
abbrev pub Always {ℓ} : {A : Type 0} → (A → Type ℓ) → Run A → Type ℓ
Always P (done a) = P a
Always P out_of_bounds = Unit

Always-bind {ℓ} :
    {A B : Type 0} (P : B → Type ℓ) (r : Run A) (k : A → Run B)
    → ((a : A) → Always P (k a))
    → Always P (r >>= k)
Always-bind P (done a) k h = h a
Always-bind P out_of_bounds k h = tt

abbrev pub KeepsDistinct : Status × Server → Type 0
KeepsDistinct (st, t) = Distinct t.slots

add_at-Distinct :
    (fd : ℤ) (s : Server) (o : Option ℕ)
    → Distinct s.slots
    → Apart fd s.slots
    → Always KeepsDistinct (add_at fd s o)
unfolding add_at broadcast_buffer
add_at-Distinct fd s none d a = d
add_at-Distinct fd s (some k) d a =
    Always-bind KeepsDistinct (write_string outbuf_size (joined_text s.inbuf)) _
      λ out. Distinct-set s.slots k _ d (λ l. a)

receive_name-Distinct :
    (fd : ℤ) (r : Received) (s : Server)
    → Distinct s.slots
    → Apart fd s.slots
    → Always KeepsDistinct (receive_name fd r s)
unfolding receive_name add_client
receive_name-Distinct fd (recv_failed e) s d a = add_at-Distinct fd s (free_index s.slots) d a
receive_name-Distinct fd (received []) s d a = d
receive_name-Distinct fd (received (c ∷ b)) s d a =
    Always-bind KeepsDistinct (terminate_inbuf (c ∷ b)) _
      λ name. add_at-Distinct fd (record s { inbuf = name }) (free_index s.slots) d a

disconnect_client-Distinct :
    (i : ℕ) (s : Server) → Distinct s.slots → Always (λ t. Distinct t.slots) (disconnect_client i s)
unfolding disconnect_client broadcast_buffer
disconnect_client-Distinct i s d =
    Always-bind (λ t. Distinct t.slots) (write_string outbuf_size _) _
      λ out. Distinct-set s.slots i _ d (λ l. cc)

-- No branch of `handle_client_socket` makes two slots share an open socket.
pub handle_client_socket-Distinct :
    (i : ℕ) (r : Received) (s : Server)
    → Distinct s.slots
    → Always (λ t. Distinct t.slots) (handle_client_socket i r s)
unfolding handle_client_socket broadcast_buffer
handle_client_socket-Distinct i (recv_failed false) s d = d
handle_client_socket-Distinct i (recv_failed true) s d = tt
handle_client_socket-Distinct i (received []) s d = disconnect_client-Distinct i s d
handle_client_socket-Distinct i (received (c ∷ b)) s d =
    Always-bind (λ t. Distinct t.slots) (terminate_inbuf (c ∷ b)) _
      λ msg. elim (Bool-cases (bytes_eq msg (bytes "bye"))) [
        | inl bye ↦ rw bye (disconnect_client-Distinct i (record s { inbuf = msg }) d)
        | inr text ↦ rw text (
            Always-bind (λ t. Distinct t.slots)
              (write_string outbuf_size (says_text (name_text (client i s).username) msg)) _
              λ out. d)
      ]

-- While `accept` gives a descriptor that no client holds, no branch of `handle_server_socket` makes
-- two slots share an open socket.
pub handle_server_socket-Distinct :
    (a : Accepted) (r : Received) (s : Server)
    → Distinct s.slots
    → Apart a.new_socket s.slots
    → Always KeepsDistinct (handle_server_socket a r s)
unfolding handle_server_socket
handle_server_socket-Distinct a r s d p = elim (Bool-cases (is_neg a.new_socket && not a.eintr)) [
  | inl refused ↦ rw refused d
  | inr going ↦ elim (Bool-cases (leb_ℤ (pos max_connections) s.num_connections)) [
    | inl full ↦ rw (going, full) d
    | inr room ↦
        rw (going, room)
          (Always-bind KeepsDistinct (create_welcome_msg s) _
            λ out. receive_name-Distinct a.new_socket (recv_on a.new_socket r) _ d p)
  ]
]
