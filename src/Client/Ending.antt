-- ===== src/Client/Ending.antt =====
-- hw7/chatclient.c: why the loop of the client ends.
use cs.Prelude.{
  ℕ, ◌≡◌, refl, Bool, true, false, Option, none, some, List, [], ◌∷◌, ◌++◌, Bytes, bytes, bytes_eq,
  bytes_eq→eq, if◌then◌else◌, ◌⊎◌, inl, inr, Bool-cases, length, suc, ◌==◌, leb, arith, All,
}
use cs.Prelude.Int.{ℤ, pos, minus_one, is_neg, ltb_ℤ}
use cs.Util.{max_msg_len}
use cs.Util.Input.{Stdin, Reply, ParseString, ok, no_input, too_long, cstr, get_string}
use cs.Server.State.{Received, recv_failed, received, success, failure}
use cs.Client.State.{
  Client, say, connection_lost, goodbye, select_error, server_shutdown, Session, at, out_of_bounds,
  out_of_fuel, ◌>>=◌, terminate, from_reply, Reaches, reaches,
}
use cs.Client.Calls.{handle_client_socket_in_server, handle_stdin_in_server}
use cs.Client.Bounds.{Sane, IsSane, RecvOk, chat-Sane}
use cs.Client.Loop.{
  Round, Next, unless_left, after_send, after_input, after_reply, after_receive, socket_turn,
  stdin_turn, round, chat,
}

-- `x` is the last element of `xs`.
abbrev pub EndsIn : {A : Type 0} → List A → A → Type 0
EndsIn {A} xs x = (before : List A) × (xs ≡ before ++ x ∷ [])

abbrev pub Explained : {S : Type 0} → Next S → Type 0
Explained (none, c) = Unit
Explained (some success, c) =
    (EndsIn c.output goodbye × EndsIn c.sent (bytes "bye")) ⊎ EndsIn c.output server_shutdown
Explained (some failure, c) = EndsIn c.output select_error ⊎ EndsIn c.output connection_lost

-- A piece of the program that ends has an explained status.
abbrev pub Explains : {S : Type 0} → Session (Next S) → Type 0
Explains (at n) = Explained n
Explains out_of_bounds = Unit
Explains out_of_fuel = Unit

module _ {S : Type 0} where
  Explains-if :
      (b : Bool) (m n : Session (Next S)) → Explains m → Explains n → Explains (if b then m else n)
  Explains-if true m n h k = h
  Explains-if false m n h k = k

  Explains-bind :
      (m : Session (Next S)) (next : Client S → Session (Next S))
      → Explains m
      → ((c : Client S) → Explains (next c))
      → Explains (m >>= unless_left next)
  Explains-bind (at (none, c)) next h f = f c
  Explains-bind (at (some st, c)) next h f = h
  Explains-bind out_of_bounds next h f = tt
  Explains-bind out_of_fuel next h f = tt

  after_send-Explained :
      (text : Bytes) (n : ℤ) (c : Client S)
      → EndsIn c.sent text
      → Explained (after_send text (n, c))
  after_send-Explained text n c (before, e) = elim (Bool-cases (ltb_ℤ minus_one n)) [
    | inr lost ↦ rw lost tt
    | inl through ↦ elim (Bool-cases (bytes_eq (bytes "bye") text)) [
      | inl bye ↦
          rw (through, bye)
            (inl ((c.output, refl), (before, rw (bytes_eq→eq (bytes "bye") text bye) e)))
      | inr other ↦ rw (through, other) tt
    ]
  ]

  sent-EndsIn :
      (n : ℤ) (text : Bytes) (c : Client S)
      → EndsIn (handle_client_socket_in_server n text c).1.sent text
  sent-EndsIn n text c = elim (Bool-cases (is_neg n)) [
    | inl failed ↦ rw failed (c.sent, refl)
    | inr through ↦ rw through (c.sent, refl)
  ]

  after_input-Explained :
      (r : Round) (st : ParseString) (text : Bytes) (c : Client S)
      → Explained (after_input r st text c)
  after_input-Explained r ok text c =
      after_send-Explained text r.num_bytes_send
        (handle_client_socket_in_server r.num_bytes_send text c).1
        (sent-EndsIn r.num_bytes_send text c)
  after_input-Explained r too_long text c = tt
  after_input-Explained r no_input text c = tt

  received-Explained :
      (n : ℕ) (t : Session Bytes) (c : Client S)
      → Explains (
          (t >>= λ text. at (record { num_bytes_received = pos (suc n); text = text; client = c }))
          >>= λ i. at (after_receive i))
  received-Explained n (at text) c =
      let some_bytes : (suc n == 0) ≡ false = ground arith in
      let one_byte : leb 1 (suc n) ≡ true = ground arith in
      elim (Bool-cases (bytes_eq (bytes "bye") text)) [
        | inl bye ↦ rw (some_bytes, one_byte, bye) (inr (c.output, refl))
        | inr other ↦ rw (some_bytes, one_byte, other) tt
      ]
  received-Explained n out_of_bounds c = tt
  received-Explained n out_of_fuel c = tt

  receive-Explains :
      (r : Received) (c : Client S)
      → Explains (handle_stdin_in_server r c >>= λ i. at (after_receive i))
  receive-Explains (recv_failed e) c = tt
  receive-Explains (received []) c = inr (c.output, refl)
  receive-Explains (received (b ∷ bs)) c = received-Explained (length bs) (terminate (b ∷ bs)) c

  socket_turn-Explains : (r : Round) (c : Client S) → Explains (socket_turn r c)
  socket_turn-Explains r c =
      Explains-if r.socket_ready _ (at (none, c)) (receive-Explains r.received c) tt

module _ {S : Type 0} (io : Stdin S) where
  reply-Explains :
      (r : Round) (c : Client S) (o : Option (Reply S)) → Explains (from_reply o (after_reply r c))
  reply-Explains r c none = tt
  reply-Explains r c (some p) =
      after_input-Explained r p.status (cstr p.buf) (record c { input = p.rest })

  round-Explains : (r : Round) (c : Client S) → Explains (round io r c)
  unfolding round stdin_turn
  round-Explains r c =
      Explains-if r.select_failed (at (some failure, say select_error c)) _ (inl (c.output, refl)) (
        Explains-bind (stdin_turn io r c) (socket_turn r)
          (Explains-if r.stdin_ready _ (at (none, c))
            (reply-Explains r c (get_string io c.input max_msg_len)) tt)
          (socket_turn-Explains r))

  chat-Explains : (rs : List Round) (c : Client S) → Explains (chat io rs c)
  unfolding chat
  chat-Explains [] c = tt
  chat-Explains (r ∷ rs) c =
      Explains-bind (round io r c) (chat io rs) (round-Explains r c) (chat-Explains rs)

  explained : (m : Session (Next S)) → Reaches Sane m → Explains m → Reaches Explained m
  explained (at n) (reaches h) e = reaches e
  explained out_of_bounds h e = elim h [ ]
  explained out_of_fuel h e = elim h [ ]

  -- The loop of the client ends in bounds with a reason. With EXIT_SUCCESS, either the user has sent
  -- `bye`, which was the last text sent, and Goodbye was the last line shown, or the last line shown
  -- tells of a shutdown by the server. With EXIT_FAILURE, the last line tells of a failed `select` or
  -- a lost connection. Else the client waits for more. The conditions: at most BUFLEN bytes arrive at
  -- a time, and what was sent before and the user name are short texts.
  pub chat-Explained :
      (rs : List Round) (c : Client S)
      → All (λ r. RecvOk r.received) rs
      → IsSane c
      → Reaches Explained (chat io rs c)
  chat-Explained rs c k h = explained (chat io rs c) (chat-Sane io rs c k h) (chat-Explains rs c)
