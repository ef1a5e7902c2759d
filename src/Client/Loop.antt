-- ===== src/Client/Loop.antt =====
-- hw7/chatclient.c: `main`, with its loop as a run over what each `select` reports.
use cs.Prelude.{
  ℕ, zero, suc, Bool, not, ◌||◌, Option, none, some, List, [], ◌∷◌, ◌++◌, Bytes, bytes, bytes_eq,
  if◌then◌else◌,
}
use cs.Prelude.Int.{ℤ, pos, minus_one, is_neg, eq_ℤ, ltb_ℤ, leb_ℤ}
use cs.Util.{max_msg_len, max_name_len, is_integer, Parsed, parse_int}
use cs.Util.Input.{Stdin, Reply, ok, no_input, too_long, cstr, get_string, ParseString}
use cs.Server.State.{Received, Status, success, failure}
use cs.Client.State.{
  Client, say, copy_out, Session, at, out_of_fuel, ◌>>=◌, from_reply, bad_address, bad_port,
  port_range, ask_username, limit_username, hello, socket_error, connect_error, welcome, prompt,
  select_error, goodbye, limit_message, server_shutdown, incoming, usage,
}
use cs.Client.Calls.{
  Incoming, handle_stdin, handle_stdin_in_server, handle_client_socket,
  handle_client_socket_in_server,
}

-- What the operating system answers in one round: `num_bytes_send` is the answer to `send`.
pub record Round : Type 0 where
  pub select_failed : Bool
  pub stdin_ready : Bool
  pub socket_ready : Bool
  pub num_bytes_send : ℤ
  pub received : Received

-- What the system calls before the loop answer.
pub record Connection : Type 0 where
  pub new_socket : ℤ
  pub connect_ok : Bool
  pub greeting : Received
  pub name_sent : ℤ

-- A status where the program jumps to EXIT.
abbrev pub Next : Type 0 → Type 0
Next S = Option Status × Client S

abbrev pub numeric_address : Bytes → Bytes
numeric_address a = if bytes_eq (bytes "localhost") a then bytes "127.0.0.1" else a

module _ {S : Type 0} where
  abbrev pub unless_left : (Client S → Session (Next S)) → Next S → Session (Next S)
  unless_left next (none, c) = next c
  unless_left next (some st, c) = at (some st, c)

  -- case OK, from `handle_client_socket_in_server` on.
  abbrev pub after_send : Bytes → ℤ × Client S → Next S
  after_send text (n, c) =
      if ltb_ℤ minus_one n
      then (if bytes_eq (bytes "bye") text
          then (some success, say goodbye c)
          else (none, say (prompt c.username) c))
      else (none, c)

  -- The `switch` on the status of `get_string`.
  abbrev pub after_input : Round → ParseString → Bytes → Client S → Next S
  after_input r ok text c = after_send text (handle_client_socket_in_server r.num_bytes_send text c)
  after_input r too_long text c = (none, say limit_message c)
  after_input r no_input text c = (none, c)

  abbrev pub after_receive : Incoming S → Next S
  after_receive i =
      if eq_ℤ i.num_bytes_received (pos 0)
      then (some failure, i.client)
      else if leb_ℤ (pos 1) i.num_bytes_received
      then (if bytes_eq (bytes "bye") i.text
          then (some success, say server_shutdown i.client)
          else (none, say (prompt i.client.username) (say (incoming i.text) i.client)))
      else (none, i.client)

  abbrev pub socket_turn : Round → Client S → Session (Next S)
  socket_turn r c =
      if r.socket_ready
      then (do i ← handle_stdin_in_server r.received c; at (after_receive i))
      else at (none, c)

  abbrev pub after_reply : Round → Client S → Reply S → Session (Next S)
  after_reply r c reply =
      at (after_input r reply.status (cstr reply.buf) (record c { input = reply.rest }))

  abbrev pub after_name_input :
      (Client S → Session (Client S)) → ParseString → Bytes → Client S → Session (Client S)
  after_name_input again ok name c = at (record c { username = name })
  after_name_input again too_long name c = again (say limit_username c)
  after_name_input again no_input name c = again c

  abbrev pub after_name_reply :
      (Client S → Session (Client S)) → Client S → Reply S → Session (Client S)
  after_name_reply again c reply =
      after_name_input again reply.status (cstr reply.buf)
        (say ask_username (record c { input = reply.rest }))

  -- From the arrival of the welcome message to the prompt.
  abbrev pub after_name : ℤ × Client S → Next S
  after_name (n, c) = if is_neg n then (some failure, c) else (none, say (prompt c.username) c)

  abbrev pub after_greeting : Connection → Incoming S → Session (Next S)
  after_greeting os i =
      if leb_ℤ i.num_bytes_received (pos 0) then at (some failure, i.client) else (do
        name ← copy_out i.client.username
        at (after_name (handle_client_socket os.name_sent name (say (welcome i.text) i.client))))

  -- From the call of `socket` to the loop.
  unfoldable pub connect_to_server : Connection → Client S → Session (Next S)
  connect_to_server os c =
      let d : Client S = record c { client_socket = os.new_socket } in
      if is_neg os.new_socket
      then at (some failure, say socket_error d)
      else if not os.connect_ok
      then at (some failure, say connect_error d)
      else (do i ← handle_stdin os.greeting d; after_greeting os i)

  -- The code at EXIT.
  abbrev pub leave : (ℤ → Bool) → Next S → Next S
  leave is_open (none, c) = (none, c)
  leave is_open (some st, c) = (
    some st,
    if is_open c.client_socket then record c { closed = c.closed ++ c.client_socket ∷ [] } else c,
  )

  -- The checks of the arguments, whose failure jumps to EXIT while `client_socket` is EXIT_SUCCESS.
  abbrev pub check_port : Bytes → Parsed → Client S → Next S
  check_port port p c =
      if not (is_integer port)
      then (some failure, say bad_port c)
      else if not p.success
      then (some failure, c)
      else if ltb_ℤ (pos 65535) p.value || ltb_ℤ p.value (pos 1024)
      then (some failure, say port_range c)
      else (none, c)

  abbrev pub fresh : S → Client S
  fresh input = record {
    client_socket = pos 0;
    username = [];
    input = input;
    sent = [];
    output = [];
    closed = [];
  }

  abbrev pub check_arguments : (Bytes → ℤ) → Bytes → Bytes → S → Next S
  check_arguments inet_pton address port input =
      if leb_ℤ (inet_pton (numeric_address address)) (pos 0)
      then (some failure, say bad_address (fresh input))
      else check_port port (parse_int port (pos 0)) (fresh input)

module _ {S : Type 0} (io : Stdin S) where
  unfoldable pub stdin_turn : Round → Client S → Session (Next S)
  stdin_turn r c =
      if r.stdin_ready
      then from_reply (get_string io c.input max_msg_len) (after_reply r c)
      else at (none, c)

  -- The body of `while (whilebool)`.
  unfoldable pub round : Round → Client S → Session (Next S)
  round r c =
      if r.select_failed
      then at (some failure, say select_error c)
      else stdin_turn r c >>= unless_left (socket_turn r)

  -- The list ends where the client waits in `select`.
  unfoldable pub chat : List Round → Client S → Session (Next S)
  chat [] c = at (none, c)
  chat (r ∷ rs) c = round r c >>= unless_left (chat rs)

  -- The loop that asks for a user name, with at most `fuel` questions.
  unfoldable pub enter_username : ℕ → Client S → Session (Client S)
  enter_username zero c = out_of_fuel
  enter_username (suc fuel) c =
      from_reply (get_string io c.input max_name_len) (after_name_reply (enter_username fuel) c)

  -- From the prompt for a user name on.
  unfoldable pub session : ℕ → Connection → List Round → Client S → Session (Next S)
  session fuel os rounds c = do
    d ← enter_username fuel c
    next ← connect_to_server os (say (hello d.username) d)
    unless_left (chat rounds) next

  -- `inet_pton` is the C library's, and `is_open` tells whether `fcntl` finds a descriptor open.
  unfoldable pub main :
      (inet_pton : Bytes → ℤ) (is_open : ℤ → Bool)
      → List Bytes
      → ℕ
      → Connection
      → List Round
      → S
      → Session (Next S)
  main inet_pton is_open (prog ∷ address ∷ port ∷ []) fuel os rounds input = do
    next ← unless_left (session fuel os rounds) (check_arguments inet_pton address port input)
    at (leave is_open next)
  main inet_pton is_open argv fuel os rounds input = at (some failure, say usage (fresh input))
