-- ===== src/Server/Faults.antt =====
-- hw7/chatserver.c: what goes wrong where the peers or `accept` do not behave.
use cs.Prelude.{
  subst, dec_lt, take, ap, ◌↔◌, ℕ, zero, suc, ◌+◌, ◌≤◌, ◌<◌, ◌≡◌, refl, Bool, true, false, Option,
  none, some, List, [], ◌∷◌, Bytes, length, get_elem?, set, arith, le→ltb,
}
use cs.Prelude.Int.{is_neg, ℤ, pos, minus_one, leb_ℤ}
use cs.Util.{max_msg_len, max_name_len}
use cs.Server.State.{
  max_connections, inbuf_size, outbuf_size, Slot, Server, slot, Run, done, out_of_bounds, Ends,
  ends, Ends-bind, Status, Received, recv_failed, received,
}
use cs.Server.Messages.{broadcast_buffer, joined_text}
use cs.Server.Handlers.{
  recv_size, client, slot_at, terminate_inbuf, free_index, add_at, add_client, receive_name,
  handle_server_socket, handle_client_socket,
}
use cs.Server.Invariant.{live, live-set, free_index-some, free_index-none, IsConsistent}
use cs.Server.Handling.{handle_client_socket-Ends}
use cs.Server.Texts.{texts_fit, write_string-done}
use cs.Server.Welcome.{create_welcome_msg-Ends}

-- What `recv` stores, as long as the peer has sent enough.
take-length : (n : ℕ) (b : Bytes) → n ≤ length b → length (take n b) ≡ n
take-length zero b h = refl
take-length (suc n) [] h = absurd (omega (arith, h))
take-length (suc n) (c ∷ b) h = ap suc (take-length n b (omega (arith, h)))

terminate_inbuf-overrun : (b : Bytes) → max_msg_len < length b → terminate_inbuf b ≡ out_of_bounds
unfolding terminate_inbuf
terminate_inbuf-overrun b h = rw (
    le→ltb (length (take recv_size b)) inbuf_size
      (omega (arith, take-length recv_size b (omega (arith, h)))))

abbrev IsDone : {A : Type 0} → Run A → Type 0
IsDone (done a) = Unit
IsDone out_of_bounds = ⊥

Ends-IsDone : {A : Type 0} {P : A → Type 0} {r : Run A} → Ends P r → IsDone r
Ends-IsDone (ends p) = tt

message_overruns :
    (i : ℕ) (b : Bytes) (s : Server)
    → max_msg_len < length b
    → handle_client_socket i (received b) s ≡ out_of_bounds
unfolding handle_client_socket
message_overruns i [] s h = absurd (omega (arith, h))
message_overruns i (c ∷ b) s h = rw (terminate_inbuf-overrun (c ∷ b) h)

-- In a consistent state, at the index of an open socket: a message makes `handle_client_socket` write
-- outside its buffers exactly if more than MAX_MSG_LEN bytes of it are there at the `recv`.
pub full_buffer_overruns :
    (i : ℕ) (b : Bytes) (s : Server)
    → IsConsistent s
    → is_neg (client i s).client_socket ≡ false
    → (handle_client_socket i (received b) s ≡ out_of_bounds) ↔ (max_msg_len < length b)
full_buffer_overruns i b s k p = (
  λ e. elim (dec_lt max_msg_len (length b)) [
    | yes long ↦ long
    | no short ↦ absurd (
        subst IsDone e
          (Ends-IsDone (handle_client_socket-Ends i (received b) s k p (omega (arith, short)))))
  ],
  λ long. message_overruns i b s long,
)

-- The table is left as it is except at `k`, and the count goes up all the same.
abbrev pub Miscounted : Status × Server → Type 0
Miscounted (st, t) = ¬ IsConsistent t

add_at-miscounts :
    (s : Server) (o : Option ℕ)
    → length s.slots ≡ max_connections
    → s.num_connections ≡ pos (live s.slots)
    → live s.slots < max_connections
    → length s.inbuf ≤ max_name_len
    → free_index s.slots ≡ o
    → Ends Miscounted (add_at minus_one s o)
unfolding add_at broadcast_buffer
add_at-miscounts s none size counted room l e = absurd (omega (arith, free_index-none s.slots e))
add_at-miscounts s (some k) size counted room l e =
    rw (write_string-done outbuf_size (joined_text s.inbuf) (omega (arith, texts_fit s.inbuf []))) (
      ends λ c. absurd (
        ground (
          arith,
          c.counted,
          counted,
          live-set s.slots k (slot minus_one (some s.inbuf)),
          free_index-some s.slots k e,
        )))

-- `accept` interrupted by a signal returns -1 with EINTR, and `handle_server_socket` goes on with -1
-- as a client's socket: `recv` on it fails, whatever the peers send, and -1 is stored. From any
-- consistent state with room, where `inbuf` holds a text of at most MAX_NAME_LEN bytes, the state it
-- ends in is no longer consistent.
pub accept_eintr_miscounts :
    (s : Server) (r : Received)
    → IsConsistent s
    → live s.slots < max_connections
    → length s.inbuf ≤ max_name_len
    → Ends Miscounted (handle_server_socket (record { new_socket = minus_one; eintr = true }) r s)
unfolding handle_server_socket receive_name add_client
accept_eintr_miscounts s r k room short =
    let open_door : leb_ℤ (pos max_connections) s.num_connections ≡ false =
      ground (arith, k.counted) in
    rw open_door (
      Ends-bind (create_welcome_msg-Ends s k)
        λ out _. add_at-miscounts _ (free_index s.slots) k.size k.counted room short refl)

slot_at-set :
    (xs : List Slot) (k : ℕ) (y : Slot) → k < length xs → slot_at (get_elem? (set xs k y) k) ≡ y
slot_at-set [] k y h = absurd (omega arith)
slot_at-set (x ∷ xs) zero y h = refl
slot_at-set (x ∷ xs) (suc k) y h = slot_at-set xs k y (omega arith)

-- If the `recv` of the name fails, the new client gets whatever `inbuf` held before: an earlier
-- name, or an earlier message of any client.
pub receive_name_stale :
    (fd : ℤ) (eintr : Bool) (s : Server) (k : ℕ)
    → free_index s.slots ≡ some k
    → length s.inbuf + 29 < outbuf_size
    → Ends (λ (st, t). client k t ≡ slot fd (some s.inbuf)) (receive_name fd (recv_failed eintr) s)
unfolding receive_name add_client add_at broadcast_buffer
receive_name_stale fd eintr s k e h =
    rw
      (
        e,
        add_at,
        write_string-done outbuf_size (joined_text s.inbuf) (omega (arith, texts_fit s.inbuf [])),
      )
      (ends (slot_at-set s.slots k (slot fd (some s.inbuf)) (free_index-some s.slots k e).0))
