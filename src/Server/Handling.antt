-- ===== src/Server/Handling.antt =====
-- hw7/chatserver.c: the handlers keep the invariant and stay inside their buffers.
use cs.Prelude.{
  take, ap, suc, zero, ℕ, zero, suc, ◌≤◌, ◌<◌, ◌≡◌, refl, true, false, not, ◌&&◌, Option, none,
  some, List, [], ◌∷◌, Bytes, bytes, bytes_eq, length, length-set, get_elem?, arith, Bool-cases,
  inl, inr, ◌∙◌, lt→ltb,
}
use cs.Prelude.Int.{ltb_ℤ, ℤ, pos, is_neg, leb_ℤ}
use cs.Util.{max_name_len, max_msg_len}
use cs.Util.Input.{cstr-length, cstr}
use cs.Server.State.{
  fd_setsize, max_connections, inbuf_size, outbuf_size, Slot, Server, slot, done, Ends, ends,
  Ends-bind, Status, Accepted, Received, recv_failed, received,
}
use cs.Server.Messages.{broadcast_buffer, name_text, joined_text, left_text, says_text}
use cs.Server.Handlers.{
  recv_size, slot_at, client, free_index, forget_client, disconnect_client, take_slot, add_at,
  add_client, terminate_inbuf, receive_name, handle_server_socket, pass_on, handle_client_socket,
}
use cs.Server.Invariant.{
  name_length, IsSlot, IsConsistent, All-set, All-slot_at, free_slot-IsSlot, live-take, live-forget,
}
use cs.Server.Texts.{write_string-done, texts_fit}
use cs.Server.Welcome.{create_welcome_msg-Ends}

-- What `handle_server_socket` and `handle_client_socket` need of the outside: `accept` gives a
-- descriptor for `FD_SET`, and the peer sends what the chat client sends.
abbrev pub AcceptOk : Accepted → Type 0
AcceptOk a =
    (is_neg a.new_socket ≡ true → a.eintr ≡ false) × (ltb_ℤ a.new_socket (pos fd_setsize) ≡ true)

abbrev IsOpen : ℤ → Type 0
IsOpen fd = (is_neg fd ≡ false) × (ltb_ℤ fd (pos fd_setsize) ≡ true)

abbrev pub NameOk : Received → Type 0
NameOk (recv_failed eintr) = ⊥
NameOk (received b) = length b ≤ max_name_len

abbrev pub MessageOk : Received → Type 0
MessageOk (recv_failed eintr) = eintr ≡ false
MessageOk (received b) = length b ≤ max_msg_len

abbrev pub Kept : Status × Server → Type 0
Kept (st, t) = IsConsistent t

take_slot-IsConsistent :
    (fd : ℤ) (k : ℕ) (out : Bytes) (s : Server)
    → IsConsistent s
    → IsOpen fd
    → length s.inbuf ≤ max_name_len
    → free_index s.slots ≡ some k
    → IsConsistent (take_slot fd k out s)
unfolding broadcast_buffer
take_slot-IsConsistent fd k out s c p l e = record {
  size = length-set s.slots k _ ∙ c.size;
  counted = ground (arith, c.counted, live-take s.slots k (slot fd (some s.inbuf)) e);
  table = All-set IsSlot s.slots k c.table (ground (arith, p));
  door = c.door;
}

add_at-Ends :
    (fd : ℤ) (s : Server) (o : Option ℕ)
    → IsConsistent s
    → IsOpen fd
    → length s.inbuf ≤ max_name_len
    → free_index s.slots ≡ o
    → Ends Kept (add_at fd s o)
unfolding add_at
add_at-Ends fd s none c p l e = ends c
add_at-Ends fd s (some k) c p l e =
    rw (write_string-done outbuf_size (joined_text s.inbuf) (omega (arith, texts_fit s.inbuf [])))
      (ends (take_slot-IsConsistent fd k (joined_text s.inbuf) s c p l e))

pub take-all : (n : ℕ) (b : Bytes) → length b ≤ n → take n b ≡ b
take-all zero [] h = refl
take-all (suc n) [] h = refl
take-all zero (c ∷ b) h = absurd (omega (arith, h))
take-all (suc n) (c ∷ b) h = ap (◌∷◌ c) (take-all n b (omega (arith, h)))

pub terminate_inbuf-done : (b : Bytes) → length b ≤ max_msg_len → terminate_inbuf b ≡ done (cstr b)
unfolding terminate_inbuf
terminate_inbuf-done b h =
    rw (take-all recv_size b (omega arith), lt→ltb (length b) inbuf_size (omega arith)) refl

abbrev with_inbuf : Bytes → Server → Server
with_inbuf b s = record s { inbuf = b }

with_inbuf-IsConsistent : (b : Bytes) (s : Server) → IsConsistent s → IsConsistent (with_inbuf b s)
with_inbuf-IsConsistent b s c = record {
  size = c.size;
  counted = c.counted;
  table = c.table;
  door = c.door;
}

receive_name-Ends :
    (fd : ℤ) (r : Received) (s : Server)
    → IsConsistent s
    → IsOpen fd
    → NameOk r
    → Ends Kept (receive_name fd r s)
unfolding receive_name add_client
receive_name-Ends fd (recv_failed e) s c p h = absurd h
receive_name-Ends fd (received []) s c p h = ends c
receive_name-Ends fd (received (x ∷ b)) s c p h = rw (terminate_inbuf-done (x ∷ b) (omega arith)) (
    add_at-Ends fd (record s { inbuf = cstr (x ∷ b) }) (free_index s.slots)
      (record { size = c.size; counted = c.counted; table = c.table; door = c.door }) p
      (omega (arith, cstr-length (x ∷ b))) refl)

-- `handle_server_socket` on every branch: from a consistent state, when `accept` gives a descriptor
-- below FD_SETSIZE
-- or an error other than EINTR and the peer sends a name of at most MAX_NAME_LEN bytes or hangs
-- up, it ends inside its buffers in a consistent state.
pub handle_server_socket-Ends :
    (a : Accepted) (r : Received) (s : Server)
    → IsConsistent s
    → AcceptOk a
    → NameOk r
    → Ends Kept (handle_server_socket a r s)
unfolding handle_server_socket
handle_server_socket-Ends a r s c ok h = elim (Bool-cases (is_neg a.new_socket && not a.eintr)) [
  | inl refused ↦ rw refused (ends c)
  | inr going ↦ elim (Bool-cases (leb_ℤ (pos max_connections) s.num_connections)) [
    | inl full ↦
        rw (going, full)
          (ends (record { size = c.size; counted = c.counted; table = c.table; door = c.door }))
    | inr room ↦
        rw (going, room)
          (Ends-bind (create_welcome_msg-Ends s c) λ out _. rw (accepted going) (
            receive_name-Ends a.new_socket r _
              (record { size = c.size; counted = c.counted; table = c.table; door = c.door })
              (accepted going, ok.1) h))
  ]
]
  where
    accepted : (is_neg a.new_socket && not a.eintr) ≡ false → is_neg a.new_socket ≡ false
    accepted going = ground (arith, going, ok.0)

in_range :
    (xs : List Slot) (i : ℕ)
    → is_neg (slot_at (get_elem? xs i)).client_socket ≡ false
    → i < length xs
in_range [] i h = cc
in_range (x ∷ xs) zero h = omega arith
in_range (x ∷ xs) (suc i) h = omega (arith, in_range xs i h)

forget_client-IsConsistent :
    (i : ℕ) (out : Bytes) (s : Server)
    → IsConsistent s
    → is_neg (client i s).client_socket ≡ false
    → IsConsistent (forget_client i out s)
unfolding broadcast_buffer
forget_client-IsConsistent i out s c p = record {
  size = length-set s.slots i _ ∙ c.size;
  counted = ground (arith, c.counted, live-forget s.slots i (in_range s.slots i p));
  table = All-set IsSlot s.slots i c.table free_slot-IsSlot;
  door = c.door;
}

-- What `%s` of a client's name adds to a text.
name_text-short :
    (i : ℕ) (s : Server) → IsConsistent s → length (name_text (client i s).username) ≤ max_name_len
name_text-short i s c =
    short (client i s).username (All-slot_at IsSlot s.slots i c.table free_slot-IsSlot).short
  where
    short : (o : Option Bytes) → name_length o ≤ max_name_len → length (name_text o) ≤ max_name_len
    short none h = omega arith
    short (some n) h = h

disconnect_client-Ends :
    (i : ℕ) (s : Server)
    → IsConsistent s
    → is_neg (client i s).client_socket ≡ false
    → Ends IsConsistent (disconnect_client i s)
unfolding disconnect_client
disconnect_client-Ends i s c p =
    rw
      (write_string-done outbuf_size (left_text (name_text (client i s).username))
        (omega (arith, name_text-short i s c, texts_fit (name_text (client i s).username) [])))
      (ends (forget_client-IsConsistent i _ s c p))

pass_on-Ends :
    (i : ℕ) (s : Server)
    → IsConsistent s
    → length s.inbuf ≤ max_msg_len
    → Ends IsConsistent (pass_on i s)
unfolding broadcast_buffer
pass_on-Ends i s c h =
    rw
      (write_string-done outbuf_size (says_text (name_text (client i s).username) s.inbuf)
        (omega (arith, name_text-short i s c, texts_fit (name_text (client i s).username) s.inbuf)))
      (ends (record { size = c.size; counted = c.counted; table = c.table; door = c.door }))

-- `handle_client_socket` on every branch: from a consistent state, at the index of an open socket,
-- when the peer sends at most MAX_MSG_LEN bytes or closes and `recv` does not fail with EINTR, it
-- ends inside its buffers in a consistent state.
pub handle_client_socket-Ends :
    (i : ℕ) (r : Received) (s : Server)
    → IsConsistent s
    → is_neg (client i s).client_socket ≡ false
    → MessageOk r
    → Ends IsConsistent (handle_client_socket i r s)
unfolding handle_client_socket
handle_client_socket-Ends i (recv_failed true) s c p h = cc
handle_client_socket-Ends i (recv_failed false) s c p h = ends c
handle_client_socket-Ends i (received []) s c p h = disconnect_client-Ends i s c p
handle_client_socket-Ends i (received (x ∷ b)) s c p h =
    rw (terminate_inbuf-done (x ∷ b) h) (elim (Bool-cases (bytes_eq (cstr (x ∷ b)) (bytes "bye"))) [
      | inl bye ↦ rw bye (
          disconnect_client-Ends i (with_inbuf (cstr (x ∷ b)) s)
            (with_inbuf-IsConsistent (cstr (x ∷ b)) s c) p)
      | inr text ↦ rw text (
          pass_on-Ends i (with_inbuf (cstr (x ∷ b)) s) (with_inbuf-IsConsistent (cstr (x ∷ b)) s c)
            (omega (arith, cstr-length (x ∷ b))))
    ])
