-- ===== src/Client/Whole.antt =====
-- hw7/chatclient.c: `main` from its arguments to EXIT.
use cs.Prelude.{
  subst, sym, lt→ltb, length, refl, ℕ, suc, ◌≤◌, ◌≡◌, Bool, true, false, not, ◌||◌, none, some,
  List, [], ◌∷◌, ◌++◌, Bytes, if◌then◌else◌, arith, All, All-append, ltb, Bool-cases, inl, inr,
}
use cs.Prelude.Int.{ℤ, pos, is_neg, leb_ℤ, ltb_ℤ}
use cs.Util.{max_msg_len, max_name_len, is_integer, Parsed, parse_int}
use cs.Util.Input.{cstr}
use cs.Util.Input.Text.{IsText}
use cs.Util.Input.Terminal.{terminal, then_line, IsLine}
use cs.Server.State.{Received, recv_failed, received, failure}
use cs.Client.State.{
  copy_out, bufcomingout_size, Client, say, hello, welcome, send_error, Session, at, Reaches,
  reaches, Reaches-bind, Reaches-if, Reaches-mono, bad_address,
}
use cs.Client.Calls.{Incoming, send_text, handle_client_socket, handle_stdin}
use cs.Client.Loop.{
  Round, Connection, Next, unless_left, after_name, after_greeting, connect_to_server, leave,
  check_port, fresh, enter_username, session, chat, main, check_arguments, numeric_address,
}
use cs.Client.Bounds.{
  RecvOk, IsSane, Sane, terminate-Reaches, Sane-if, IsSane-if, chat-Sane, unless_left-Sane,
}
use cs.Client.Names.{refused, lines, Named, named, enter_username-Named}

cstr-length : (s : Bytes) → length (cstr s) ≤ length s
unfolding cstr
cstr-length [] = omega arith
cstr-length (c ∷ s) = ground (arith, cstr-length s)

-- Everything sent is short.
abbrev pub Modest : {S : Type 0} → Next S → Type 0
Modest n = All (IsText max_msg_len) n.1.sent

-- The user name fits `bufcomingout`.
copy_out-Reaches :
    (text : Bytes) → IsText max_name_len text → Reaches (λ b. b ≡ text) (copy_out text)
copy_out-Reaches text t =
    let e = lt→ltb (length text) bufcomingout_size (omega (arith, t.1)) in rw e (reaches refl)

module _ {S : Type 0} where
  name_sent-IsSane :
      (n : ℤ) (c : Client S) → IsSane c → IsSane (handle_client_socket n c.username c).1
  name_sent-IsSane n c h =
      IsSane-if (is_neg n) (say send_error (send_text c.username c)) (send_text c.username c)
        (record { name = h.name; sent = sent }) (record { name = h.name; sent = sent })
    where
      sent : All (IsText max_msg_len) (c.sent ++ c.username ∷ [])
      sent =
          All-append (IsText max_msg_len) c.sent (c.username ∷ []) h.sent
            ((h.name.0, omega (arith, h.name.1)), tt)

  after_name-Sane : (p : ℤ × Client S) → IsSane p.1 → Sane (after_name p)
  after_name-Sane (n, c) h = Sane-if (is_neg n) _ _ h (record { name = h.name; sent = h.sent })

  after_greeting-Sane :
      (os : Connection) (i : Incoming S) → IsSane i.client → Reaches Sane (after_greeting os i)
  after_greeting-Sane os i h = Reaches-if Sane (leb_ℤ i.num_bytes_received (pos 0)) (reaches h) (
      Reaches-bind (copy_out-Reaches i.client.username h.name) (λ name e. reaches (
        after_name-Sane (handle_client_socket os.name_sent name (say (welcome i.text) i.client)) (
          subst
            (λ n. IsSane (handle_client_socket os.name_sent n (say (welcome i.text) i.client)).1)
            (sym e)
            (name_sent-IsSane os.name_sent (say (welcome i.text) i.client)
              (record { name = h.name; sent = h.sent }))))))

  greet-IsSane :
      (r : Received) (c : Client S)
      → RecvOk r
      → IsSane c
      → Reaches (λ i. IsSane i.client) (handle_stdin r c)
  greet-IsSane (recv_failed e) c k h = reaches (record { name = h.name; sent = h.sent })
  greet-IsSane (received []) c k h = reaches (record { name = h.name; sent = h.sent })
  greet-IsSane (received (b ∷ bs)) c k h =
      Reaches-bind (terminate-Reaches (b ∷ bs) k) (λ t u. reaches h)

  connect_to_server-Sane :
      (os : Connection) (c : Client S)
      → RecvOk os.greeting
      → IsSane c
      → Reaches Sane (connect_to_server os c)
  unfolding connect_to_server
  connect_to_server-Sane os c k h =
      Reaches-if Sane (is_neg os.new_socket) (reaches (record { name = h.name; sent = h.sent })) (
        Reaches-if Sane (not os.connect_ok) (reaches (record { name = h.name; sent = h.sent })) (
          Reaches-bind
            (greet-IsSane os.greeting (record c { client_socket = os.new_socket }) k
              (record { name = h.name; sent = h.sent }))
            (λ i s. after_greeting-Sane os i s)))

  leave-Modest : (is_open : ℤ → Bool) (n : Next S) → Modest n → Modest (leave is_open n)
  leave-Modest is_open (none, c) h = h
  leave-Modest is_open (some st, c) h = elim (Bool-cases (is_open c.client_socket)) [
    | inl is ↦ rw is h
    | inr closed ↦ rw closed h
  ]

  -- No check of the arguments reads or sends.
  abbrev Untouched : S → Next S → Type 0
  Untouched input n = (n.1.input ≡ input) × (n.1.sent ≡ [])

  Untouched-if :
      (b : Bool) (input : S) (m n : Next S)
      → Untouched input m
      → Untouched input n
      → Untouched input (if b then m else n)
  Untouched-if true input m n h k = h
  Untouched-if false input m n h k = k

  check_port-Untouched :
      (port : Bytes) (p : Parsed) (input : S) → Untouched input (check_port port p (fresh input))
  check_port-Untouched port p input =
      Untouched-if (not (is_integer port)) input _ _ (refl, refl)
        (Untouched-if (not p.success) input _ _ (refl, refl)
          (Untouched-if (ltb_ℤ (pos 65535) p.value || ltb_ℤ p.value (pos 1024)) input _ _
            (refl, refl) (refl, refl)))

  check_arguments-Untouched :
      (inet_pton : Bytes → ℤ) (address port : Bytes) (input : S)
      → Untouched input (check_arguments inet_pton address port input)
  check_arguments-Untouched inet_pton address port input =
      Untouched-if _ input _ _ (refl, refl)
        (check_port-Untouched port (parse_int port (pos 0)) input)

Named-IsSane :
    {name rest : Bytes} {c : Client Bytes} (r : Session (Client Bytes))
    → IsText max_name_len (cstr name)
    → c.sent ≡ []
    → Named name rest c r
    → Reaches IsSane r
Named-IsSane _ t e (named h) = reaches (record { name = rw h.username t; sent = rw (h.sent, e) tt })

blank-length : (l : Bytes) → refused l ≡ false → IsText max_name_len (cstr l)
blank-length l h = go (cstr l) h (cstr-length l)
  where
    go :
        (s : Bytes)
        → (not (ltb (length l) max_name_len)
            || (elim s as (λ x. Bool) [ [] ↦ true | d ∷ t ↦ false ]))
          ≡ false
        → length s ≤ length l
        → IsText max_name_len s
    go [] e k = ground arith
    go (d ∷ t) e k = ground arith

-- What the outside does for a run of `main`: the lines `ls` come before a name that is taken, and at
-- most BUFLEN bytes arrive at a time.
pub record IsRun (ls : List Bytes) (name : Bytes) (os : Connection) (rs : List Round) : Type 0 where
  pub too_long_or_blank : All (λ l. IsLine l × (refused l ≡ true)) ls
  pub name_line : IsLine name
  pub name_taken : refused name ≡ false
  pub greeting : RecvOk os.greeting
  pub rounds : All (λ r. RecvOk r.received) rs

module _ (ls : List Bytes) (name rest : Bytes) (os : Connection) (rs : List Round)
    (run : IsRun ls name os rs) where
  session-Sane :
      (c : Client Bytes)
      → c.input ≡ lines ls (then_line name rest)
      → c.sent ≡ []
      → Reaches Sane (session terminal (suc (length ls)) os rs c)
  unfolding session
  session-Sane c e s =
      Reaches-bind
        (Named-IsSane (enter_username terminal (suc (length ls)) c)
          (blank-length name run.name_taken) s
          (enter_username-Named ls name rest c run.too_long_or_blank run.name_line run.name_taken
            e))
        (λ d h.
          Reaches-bind
            (connect_to_server-Sane os (say (hello d.username) d) run.greeting
              (record { name = h.name; sent = h.sent }))
            (unless_left-Sane (chat terminal rs) (λ c' h'. chat-Sane terminal rs c' run.rounds h')))

  checked-Modest :
      (n : Next Bytes)
      → n.1.input ≡ lines ls (then_line name rest)
      → n.1.sent ≡ []
      → Reaches Modest (unless_left (session terminal (suc (length ls)) os rs) n)
  checked-Modest (none, c) e s = Reaches-mono (session-Sane c e s) (λ n h. h.sent)
  checked-Modest (some st, c) e s = reaches (rw s tt)

  -- `main` of the client at a terminal, where lines that are too long or blank come before the name
  -- and at most BUFLEN bytes arrive at a time: for every command line, answer of the system calls and
  -- number of rounds it ends, and writes neither the '\0' of what it receives behind `bufcomingin` nor
  -- the copy of the user name behind `bufcomingout`. Every text that it has sent is not empty and
  -- shorter than MAX_MSG_LEN.
  pub main-Modest :
      (inet_pton : Bytes → ℤ) (is_open : ℤ → Bool) (argv : List Bytes)
      → Reaches Modest (
          main terminal inet_pton is_open argv
            (suc (length ls))
            os
            rs
            (lines ls (then_line name rest)))
  unfolding main
  main-Modest inet_pton is_open [] = reaches tt
  main-Modest inet_pton is_open (a ∷ []) = reaches tt
  main-Modest inet_pton is_open (a ∷ b ∷ []) = reaches tt
  main-Modest inet_pton is_open (prog ∷ address ∷ port ∷ []) =
      let input = lines ls (then_line name rest) in
      Reaches-bind
        (checked-Modest (check_arguments inet_pton address port input)
          (check_arguments-Untouched inet_pton address port input).0
          (check_arguments-Untouched inet_pton address port input).1)
        (λ n h. reaches (leave-Modest is_open n h))
  main-Modest inet_pton is_open (a ∷ b ∷ c ∷ d ∷ argv) = reaches tt

-- Where `inet_pton` refuses the address while standard input is open, `main` fails and closes
-- descriptor 0, standard input, since `client_socket` starts as EXIT_SUCCESS.
pub main-closes_stdin :
    (inet_pton : Bytes → ℤ) (is_open : ℤ → Bool) (prog address port : Bytes) (fuel : ℕ)
    (os : Connection) (rs : List Round) (input : Bytes)
    → leb_ℤ (inet_pton (numeric_address address)) (pos 0) ≡ true
    → is_open (pos 0) ≡ true
    → main terminal inet_pton is_open (prog ∷ address ∷ port ∷ []) fuel os rs input
      ≡ at (some failure, record (say bad_address (fresh input)) { closed = pos 0 ∷ [] })
unfolding main
main-closes_stdin inet_pton is_open prog address port fuel os rs input h k = rw (h, k) refl
