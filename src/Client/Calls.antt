-- ===== src/Client/Calls.antt =====
-- hw7/chatclient.c: the helpers that receive and send.
use cs.Prelude.{[], ◌∷◌, ◌++◌, Bytes, length, if◌then◌else◌}
use cs.Prelude.Int.{ℤ, pos, minus_one, is_neg}
use cs.Server.State.{Received, recv_failed, received}
use cs.Client.State.{
  Client, say, recv_error, connections_busy, recv_warning, connection_lost, send_error,
  send_warning, Session, at, ◌>>=◌, terminate,
}

-- What the receiving helpers return, the string in `bufcomingin`, and the client.
pub record Incoming (S : Type 0) : Type 0 where
  pub num_bytes_received : ℤ
  pub text : Bytes
  pub client : Client S

module _ {S : Type 0} where
  abbrev pub arrived : ℤ → Bytes → Client S → Incoming S
  arrived n text c = record { num_bytes_received = n; text = text; client = c }

  abbrev pub handle_stdin : Received → Client S → Session (Incoming S)
  handle_stdin (recv_failed eintr) c = at (arrived minus_one [] (say recv_error c))
  handle_stdin (received []) c = at (arrived (pos 0) [] (say connections_busy c))
  handle_stdin (received (b ∷ bs)) c = do
    text ← terminate (b ∷ bs)
    at (arrived (pos (length (b ∷ bs))) text c)

  abbrev pub handle_stdin_in_server : Received → Client S → Session (Incoming S)
  handle_stdin_in_server (recv_failed eintr) c = at (arrived minus_one [] (say recv_warning c))
  handle_stdin_in_server (received []) c = at (arrived (pos 0) [] (say connection_lost c))
  handle_stdin_in_server (received (b ∷ bs)) c = do
    text ← terminate (b ∷ bs)
    at (arrived (pos (length (b ∷ bs))) text c)

  -- `num_bytes_send` is what `send` answers.
  abbrev pub send_text : Bytes → Client S → Client S
  send_text text c = record c { sent = c.sent ++ text ∷ [] }

  abbrev pub handle_client_socket : ℤ → Bytes → Client S → ℤ × Client S
  handle_client_socket num_bytes_send text c =
      let d = send_text text c in
      (num_bytes_send, if is_neg num_bytes_send then say send_error d else d)

  abbrev pub handle_client_socket_in_server : ℤ → Bytes → Client S → ℤ × Client S
  handle_client_socket_in_server num_bytes_send text c =
      let d = send_text text c in
      (num_bytes_send, if is_neg num_bytes_send then say send_warning d else d)
