-- ===== src/Client/Bounds.antt =====
-- hw7/chatclient.c: the client stays inside its buffers, and sends what the chat server expects.
use cs.Prelude.{
  ◌+◌, ◌≤◌, ◌≡◌, refl, Bool, true, false, Option, none, some, List, [], ◌∷◌, ◌++◌, Bytes, bytes,
  bytes_eq, if◌then◌else◌, arith, All, All-append, length, lt→ltb,
}
use cs.Prelude.Int.{ℤ, pos, minus_one, is_neg, eq_ℤ, leb_ℤ, ltb_ℤ}
use cs.Util.{max_msg_len, max_name_len, buflen}
use cs.Util.Input.{Stdin, Reply, ParseString, ok, no_input, too_long, cstr}
use cs.Util.Input.Text.{IsText, Answers, answers, get_string-Answers}
use cs.Server.State.{Received, recv_failed, received}
use cs.Client.State.{
  Client, say, Session, Reaches, reaches, Reaches-bind, Reaches-if, terminate, from_reply, Line,
  send_warning,
}
use cs.Client.Calls.{Incoming, send_text, handle_client_socket_in_server, handle_stdin_in_server}
use cs.Client.Loop.{
  Round, Next, unless_left, after_send, after_input, after_receive, socket_turn, stdin_turn, round,
  chat, after_reply,
}

-- `recv` stores at most the BUFLEN bytes that it is given.
abbrev pub RecvOk : Received → Type 0
RecvOk (recv_failed eintr) = Unit
RecvOk (received b) = length b ≤ buflen

-- The user name and what was sent fit what the server reads.
pub record IsSane {S : Type 0} (c : Client S) : Type 0 where
  pub name : IsText max_name_len c.username
  pub sent : All (IsText max_msg_len) c.sent

abbrev pub Sane : {S : Type 0} → Next S → Type 0
Sane n = IsSane n.1

pub terminate-Reaches : (b : Bytes) → length b ≤ buflen → Reaches (λ t. Unit) (terminate b)
terminate-Reaches b h = let e = lt→ltb (length b) (buflen + 1) (omega arith) in rw e (reaches tt)

module _ {S : Type 0} where
  say-IsSane : (l : Line) (c : Client S) → IsSane c → IsSane (say l c)
  say-IsSane l c h = record { name = h.name; sent = h.sent }

  receive-IsSane :
      (r : Received) (c : Client S)
      → RecvOk r
      → IsSane c
      → Reaches (λ i. IsSane i.client) (handle_stdin_in_server r c)
  receive-IsSane (recv_failed e) c k h = reaches (record { name = h.name; sent = h.sent })
  receive-IsSane (received []) c k h = reaches (record { name = h.name; sent = h.sent })
  receive-IsSane (received (b ∷ bs)) c k h =
      Reaches-bind (terminate-Reaches (b ∷ bs) k) (λ t u. reaches h)

  pub Sane-if : (b : Bool) (m n : Next S) → Sane m → Sane n → Sane (if b then m else n)
  Sane-if true m n h k = h
  Sane-if false m n h k = k

  after_receive-Sane : (i : Incoming S) → IsSane i.client → Sane (after_receive i)
  after_receive-Sane i h = Sane-if (eq_ℤ i.num_bytes_received (pos 0)) _ _ h (
      Sane-if (leb_ℤ (pos 1) i.num_bytes_received) _ _
        (Sane-if (bytes_eq (bytes "bye") i.text) _ _ (record { name = h.name; sent = h.sent })
          (record { name = h.name; sent = h.sent }))
        h)

  socket_turn-Sane :
      (r : Round) (c : Client S) → RecvOk r.received → IsSane c → Reaches Sane (socket_turn r c)
  socket_turn-Sane r c k h =
      Reaches-if Sane r.socket_ready
        (Reaches-bind (receive-IsSane r.received c k h) (λ i s. reaches (after_receive-Sane i s)))
        (reaches h)

  pub unless_left-Sane :
      (next : Client S → Session (Next S))
      → ((c : Client S) → IsSane c → Reaches Sane (next c))
      → (n : Next S) → Sane n
      → Reaches Sane (unless_left next n)
  unless_left-Sane next f (none, c) h = f c h
  unless_left-Sane next f (some st, c) h = reaches h

  pub IsSane-if : (b : Bool) (c d : Client S) → IsSane c → IsSane d → IsSane (if b then c else d)
  IsSane-if true c d h k = h
  IsSane-if false c d h k = k

  send-IsSane :
      (n : ℤ) (text : Bytes) (c : Client S)
      → IsText max_msg_len text
      → IsSane c
      → IsSane (handle_client_socket_in_server n text c).1
  send-IsSane n text c t h =
      IsSane-if (is_neg n) (say send_warning (send_text text c)) (send_text text c)
        (record { name = h.name; sent = sent }) (record { name = h.name; sent = sent })
    where
      sent : All (IsText max_msg_len) (c.sent ++ text ∷ [])
      sent = All-append (IsText max_msg_len) c.sent (text ∷ []) h.sent (t, tt)

  after_send-Sane : (text : Bytes) (p : ℤ × Client S) → IsSane p.1 → Sane (after_send text p)
  after_send-Sane text (n, c) h =
      Sane-if (ltb_ℤ minus_one n) _ _
        (Sane-if (bytes_eq (bytes "bye") text) _ _ (record { name = h.name; sent = h.sent })
          (record { name = h.name; sent = h.sent }))
        h

  after_input-Sane :
      (r : Round) (st : ParseString) (text : Bytes) (c : Client S)
      → (st ≡ ok → IsText max_msg_len text)
      → IsSane c
      → Sane (after_input r st text c)
  after_input-Sane r ok text c t h =
      after_send-Sane text (handle_client_socket_in_server r.num_bytes_send text c)
        (send-IsSane r.num_bytes_send text c (t refl) h)
  after_input-Sane r too_long text c t h = record { name = h.name; sent = h.sent }
  after_input-Sane r no_input text c t h = h

module _ {S : Type 0} (io : Stdin S) where
  reply-Sane :
      (r : Round) (c : Client S) {o : Option (Reply S)}
      → Answers max_msg_len o
      → IsSane c
      → Reaches Sane (from_reply o (after_reply r c))
  reply-Sane r c (answers p t) h = reaches (
      after_input-Sane r p.status (cstr p.buf) (record c { input = p.rest }) t
        (record { name = h.name; sent = h.sent }))

  stdin_turn-Sane : (r : Round) (c : Client S) → IsSane c → Reaches Sane (stdin_turn io r c)
  unfolding stdin_turn
  stdin_turn-Sane r c h =
      Reaches-if Sane r.stdin_ready (reply-Sane r c (get_string-Answers io c.input max_msg_len) h)
        (reaches h)

  round-Sane :
      (r : Round) (c : Client S) → RecvOk r.received → IsSane c → Reaches Sane (round io r c)
  unfolding round
  round-Sane r c k h =
      Reaches-if Sane r.select_failed (reaches (record { name = h.name; sent = h.sent })) (
        Reaches-bind (stdin_turn-Sane r c h)
          (unless_left-Sane (socket_turn r) (λ d s. socket_turn-Sane r d k s)))

  -- The loop of the client ends in bounds over any number of rounds, whatever the user types and
  -- whatever up to BUFLEN bytes arrive; every text sent is not empty and shorter than MAX_MSG_LEN,
  -- and the user name stays not empty and shorter than MAX_NAME_LEN.
  pub chat-Sane :
      (rs : List Round) (c : Client S)
      → All (λ r. RecvOk r.received) rs
      → IsSane c
      → Reaches Sane (chat io rs c)
  unfolding chat
  chat-Sane [] c k h = reaches h
  chat-Sane (r ∷ rs) c k h =
      Reaches-bind (round-Sane r c k.0 h)
        (unless_left-Sane (chat io rs) (λ d s. chat-Sane rs d k.1 s))
