-- ===== src/Server/Handlers.antt =====
-- hw7/chatserver.c: `disconnect_client`, `handle_server_socket`, `handle_client_socket`, `cleanup`.
-- The log lines that they print on stdout and stderr are left out.
use cs.Prelude.{
  suc, Bool, true, false, not, ◌&&◌, Option, none, some, List, [], ◌∷◌, ◌++◌, Bytes, bytes,
  bytes_eq, ltb, if◌then◌else◌, length, get_elem?, set, take, ◌+◌, ℕ,
}
use cs.Prelude.Int.{ℤ, pos, minus_one, eq_ℤ, is_neg, leb_ℤ, inc_ℤ, dec_ℤ}
use cs.Util.{max_msg_len}
use cs.Util.Input.{cstr}
use cs.Server.State.{
  max_connections, inbuf_size, outbuf_size, Slot, Server, slot, free_slot, Run, done, out_of_bounds,
  ◌>>=◌, write_string, Status, success, failure, Accepted, Received, recv_failed, received,
}
use cs.Server.Messages.{
  broadcast_buffer, create_welcome_msg, name_text, joined_text, left_text, says_text,
}

abbrev pub slot_at : Option Slot → Slot
slot_at none = free_slot
slot_at (some x) = x

-- `client_sockets[i]` and `usernames[i]`; the index is below `max_connections`.
abbrev pub client : ℕ → Server → Slot
client i s = slot_at (get_elem? s.slots i)

abbrev pub close_fd : ℤ → Server → Server
close_fd fd s = record s { closed = s.closed ++ fd ∷ [] }

-- The end of `disconnect_client`, once `outbuf` is written.
abbrev pub forget_client : ℕ → Bytes → Server → Server
forget_client i out s =
    let t =
      close_fd (client i s).client_socket
        (broadcast_buffer (pos i) out (record s { outbuf = out })) in
    record t { slots = set t.slots i free_slot; num_connections = dec_ℤ t.num_connections }

unfoldable pub disconnect_client : ℕ → Server → Run Server
disconnect_client i s = do
  out ← write_string outbuf_size (left_text (name_text (client i s).username))
  done (forget_client i out s)

abbrev pub next_index : Option ℕ → Option ℕ
next_index none = none
next_index (some i) = some (suc i)

-- The first index whose socket is -1.
unfoldable pub free_index : List Slot → Option ℕ
free_index [] = none
free_index (x ∷ xs) = if eq_ℤ x.client_socket minus_one then some 0 else next_index (free_index xs)

abbrev pub take_slot : ℤ → ℕ → Bytes → Server → Server
take_slot fd i out s = broadcast_buffer (pos i) out (record s {
  slots = set s.slots i (slot fd (some s.inbuf));
  num_connections = inc_ℤ s.num_connections;
  outbuf = out;
})

-- The loop that adds the new socket to the array, at the index that it stops at.
unfoldable pub add_at : ℤ → Server → Option ℕ → Run (Status × Server)
add_at fd s none = done (success, s)
add_at fd s (some i) = do
  out ← write_string outbuf_size (joined_text s.inbuf)
  done (success, take_slot fd i out s)

unfoldable pub add_client : ℤ → Server → Run (Status × Server)
add_client fd s = add_at fd s (free_index s.slots)

-- The size that is given to `recv`.
abbrev pub recv_size : ℕ
recv_size = max_msg_len + 1

-- `recv` puts at most `recv_size` of the bytes that the peer has sent into `inbuf`; then
-- inbuf[bytes_recvd] = '\0'.
unfoldable pub terminate_inbuf : Bytes → Run Bytes
terminate_inbuf b =
    let stored = take recv_size b in
    if ltb (length stored) inbuf_size then done (cstr stored) else out_of_bounds

-- What `recv` answers on a descriptor: on a negative one it fails with EBADF.
abbrev pub recv_on : ℤ → Received → Received
recv_on fd r = if is_neg fd then recv_failed false else r

-- From the `recv` of the user name on.
unfoldable pub receive_name : ℤ → Received → Server → Run (Status × Server)
receive_name fd (recv_failed eintr) s = add_client fd s
receive_name fd (received []) s = done (success, s)
receive_name fd (received (c ∷ b)) s = do
  name ← terminate_inbuf (c ∷ b)
  add_client fd (record s { inbuf = name })

unfoldable pub handle_server_socket : Accepted → Received → Server → Run (Status × Server)
handle_server_socket a name s =
    if is_neg a.new_socket && not a.eintr
    then done (failure, s)
    else if leb_ℤ (pos max_connections) s.num_connections
    then done (success, close_fd a.new_socket s)
    else do
      out ← create_welcome_msg s
      receive_name a.new_socket (recv_on a.new_socket name)
          (record s { outbuf = out; sent = s.sent ++ (a.new_socket, out) ∷ [] })

-- The branch for a message that is not "bye".
abbrev pub pass_on : ℕ → Server → Run Server
pass_on i s = do
  out ← write_string outbuf_size (says_text (name_text (client i s).username) s.inbuf)
  done (broadcast_buffer (pos i) out (record s { outbuf = out }))

-- With EINTR the last branch runs with -1 for `bytes_recvd`, and writes before the array.
unfoldable pub handle_client_socket : ℕ → Received → Server → Run Server
handle_client_socket i (recv_failed false) s = done s
handle_client_socket i (recv_failed true) s = out_of_bounds
handle_client_socket i (received []) s = disconnect_client i s
handle_client_socket i (received (c ∷ b)) s = do
  msg ← terminate_inbuf (c ∷ b)
  let t = record s { inbuf = msg }
  if bytes_eq msg (bytes "bye") then disconnect_client i t else pass_on i t

-- The closing loop of `cleanup`; `is_open fd` is `fcntl(fd, F_GETFD) >= 0`.
unfoldable pub close_all : (ℤ → Bool) → List Slot → List ℤ
close_all is_open [] = []
close_all is_open (x ∷ xs) =
    let rest = close_all is_open xs in
    if is_open x.client_socket then x.client_socket ∷ rest else rest

unfoldable pub cleanup : (ℤ → Bool) → Server → Server
cleanup is_open s =
    let t = broadcast_buffer minus_one (bytes "bye") (record s { outbuf = bytes "bye" }) in
    let first : List ℤ = if is_open t.server_socket then t.server_socket ∷ [] else [] in
    record t { closed = t.closed ++ (first ++ close_all is_open t.slots) }
