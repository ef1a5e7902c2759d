-- ===== src/Client/Names.antt =====
-- hw7/chatclient.c: the question for a user name, and the turn of standard input, at a terminal.
use cs.Prelude.{
  ℕ, zero, suc, ◌≡◌, refl, ◌∙◌, ap, Bool, true, false, not, ◌||◌, none, some, List, [], ◌∷◌, Bytes,
  bytes, bytes_eq, if◌then◌else◌, arith, All, length, ltb, take, Bool-cases, inl, inr, le→ltb,
}
use cs.Prelude.Int.{ℤ, pos, negsuc, minus_one, ltb_ℤ}
use cs.Util.{max_msg_len, max_name_len}
use cs.Util.Input.{Reply, ParseString, ok, no_input, too_long, cstr, get_string}
use cs.Util.Input.Terminal.{
  terminal, then_line, IsLine, line_reply, get_string-line, cstr-terminated,
}
use cs.Server.State.{success}
use cs.Client.State.{
  Client, say, ask_username, limit_username, limit_message, prompt, goodbye, send_warning, Session,
  at, out_of_fuel, from_reply,
}
use cs.Client.Calls.{send_text, handle_client_socket_in_server}
use cs.Client.Loop.{
  Round, Next, after_send, after_input, after_reply, after_name_reply, enter_username, stdin_turn,
}

if_true : {A : Type 0} {b : Bool} {x : A} (y : A) → b ≡ true → (if b then x else y) ≡ x
if_true y e = rw e refl

abbrev pub is_blank : Bytes → Bool
is_blank l = elim (cstr l) as (λ x. Bool) [ [] ↦ true | c ∷ s ↦ false ]

-- A line that the question for a name does not take.
abbrev pub refused : Bytes → Bool
refused l = not (ltb (length l) max_name_len) || is_blank l

-- The lines `ls`, one after the other, and then `rest`.
abbrev pub lines : List Bytes → Bytes → Bytes
lines [] rest = rest
lines (l ∷ ls) rest = then_line l (lines ls rest)

-- What the client answers to one line, by the line alone.
abbrev pub answer : ℤ → Bytes → Client Bytes → Next Bytes
answer n l c =
    if not (ltb (length l) max_msg_len)
    then (none, say limit_message c)
    else if is_blank l
    then (none, c)
    else if not (ltb_ℤ minus_one n)
    then (none, say send_warning (send_text (cstr l) c))
    else if bytes_eq (bytes "bye") (cstr l)
    then (some success, say goodbye (send_text (cstr l) c))
    else (none, say (prompt c.username) (send_text (cstr l) c))

after_send-answer :
    (n : ℤ) (text : Bytes) (c : Client Bytes)
    → after_send text (handle_client_socket_in_server n text c) ≡ (
        if not (ltb_ℤ minus_one n)
        then (none, say send_warning (send_text text c))
        else if bytes_eq (bytes "bye") text
        then (some success, say goodbye (send_text text c))
        else (none, say (prompt c.username) (send_text text c)))
after_send-answer (pos n) text c = refl
after_send-answer (negsuc n) text c = rw (le→ltb n 0 (omega arith)) refl

-- The status of a short line and what is then done, for its C string `s`.
after_status-answer :
    (r : Round) (s : Bytes) (c : Client Bytes)
    → after_input r (elim s as (λ x. ParseString) [ [] ↦ no_input | d ∷ t ↦ ok ]) s c ≡ (
        if (elim s as (λ x. Bool) [ [] ↦ true | d ∷ t ↦ false ])
        then (none, c)
        else after_send s (handle_client_socket_in_server r.num_bytes_send s c))
after_status-answer r [] c = refl
after_status-answer r (d ∷ t) c = refl

after_input-answer :
    (r : Round) (l rest : Bytes) (c : Client Bytes)
    → ltb (length l) max_msg_len ≡ true
    → after_input r (line_reply l rest).status (cstr (line_reply l rest).buf) c
      ≡ answer r.num_bytes_send l c
after_input-answer r l rest c h =
    rw
      (
        cstr-terminated l,
        h,
        after_status-answer r (cstr l) c,
        after_send-answer r.num_bytes_send (cstr l) c,
      )
      refl

after_line-answer :
    (r : Round) (c : Client Bytes) (l rest : Bytes)
    → from_reply
        (some (
          if ltb (length l) max_msg_len
          then line_reply l rest
          else record { status = too_long; buf = take max_msg_len l; rest = rest }))
        (after_reply r c)
      ≡ at (answer r.num_bytes_send l (record c { input = rest }))
after_line-answer r c l rest = elim (Bool-cases (ltb (length l) max_msg_len)) [
  | inl short ↦
      rw short
        (ap at (after_input-answer r l rest (record c { input = rest }) short ∙ rw short refl))
  | inr long ↦ rw long refl
]

-- With the line `l` waiting, the turn of standard input takes it. A line of MAX_MSG_LEN bytes or more
-- is not sent, and the limit is named; nothing is done on a line that is empty as a C string; any
-- other is sent once, as it is. A failed `send` is reported. Else `bye` ends the client with
-- EXIT_SUCCESS, and after another message the prompt is shown.
pub stdin_turn-answer :
    (r : Round) (c : Client Bytes) (l rest : Bytes)
    → r.stdin_ready ≡ true
    → c.input ≡ then_line l rest
    → IsLine l
    → stdin_turn terminal r c ≡ at (answer r.num_bytes_send l (record c { input = rest }))
unfolding stdin_turn
stdin_turn-answer r c l rest ready e h =
    if_true (at (none, c)) ready
    ∙ ap (λ i. from_reply (get_string terminal i max_msg_len) (after_reply r c)) e
    ∙ ap (λ o. from_reply o (after_reply r c)) (get_string-line l rest max_msg_len h (omega arith))
    ∙ after_line-answer r c l rest

no_line :
    get_string terminal [] max_name_len ≡ some (record { status = no_input; buf = []; rest = [] })
unfolding get_string terminal
no_line = refl

-- At the end of the input the question for a name is asked for ever: no number of questions gets a
-- name.
pub enter_username-at_end :
    (fuel : ℕ) (c : Client Bytes) → c.input ≡ [] → enter_username terminal fuel c ≡ out_of_fuel
unfolding enter_username
enter_username-at_end zero c e = refl
enter_username-at_end (suc fuel) c e =
    ap
      (λ i.
        from_reply (get_string terminal i max_name_len)
          (after_name_reply (enter_username terminal fuel) c))
      e
    ∙ ap (λ o. from_reply o (after_name_reply (enter_username terminal fuel) c)) no_line
    ∙ enter_username-at_end fuel (say ask_username (record c { input = [] })) refl

-- What a client gets with a name: the C string of the line, and the input that follows.
pub record IsNamed (name rest : Bytes) (c d : Client Bytes) : Type 0 where
  pub username : d.username ≡ cstr name
  pub input : d.input ≡ rest
  pub sent : d.sent ≡ c.sent

pub data Named (name rest : Bytes) (c : Client Bytes) : Session (Client Bytes) → Type 0 where
  named : {d : Client Bytes} → IsNamed name rest c d → Named name rest c (at d)

abbrev name_reply : Bytes → Bytes → Reply Bytes
name_reply l rest =
    if ltb (length l) max_name_len
    then line_reply l rest
    else record { status = too_long; buf = take max_name_len l; rest = rest }

ask :
    (fuel : ℕ) (c : Client Bytes) (l rest : Bytes)
    → c.input ≡ then_line l rest
    → IsLine l
    → enter_username terminal (suc fuel) c
      ≡ after_name_reply (enter_username terminal fuel) c (name_reply l rest)
unfolding enter_username
ask fuel c l rest e h =
    ap
      (λ i.
        from_reply (get_string terminal i max_name_len)
          (after_name_reply (enter_username terminal fuel) c))
      e
    ∙ ap (λ o. from_reply o (after_name_reply (enter_username terminal fuel) c))
        (get_string-line l rest max_name_len h (omega arith))

is_blank-no_input : (l rest : Bytes) → is_blank l ≡ true → (line_reply l rest).status ≡ no_input
is_blank-no_input l rest h = go (cstr l) h
  where
    go :
        (s : Bytes)
        → (elim s as (λ x. Bool) [ [] ↦ true | d ∷ t ↦ false ]) ≡ true
        → (elim s as (λ x. ParseString) [ [] ↦ no_input | d ∷ t ↦ ok ]) ≡ no_input
    go [] e = refl
    go (d ∷ t) e = ground arith

is_blank-ok : (l rest : Bytes) → is_blank l ≡ false → (line_reply l rest).status ≡ ok
is_blank-ok l rest h = go (cstr l) h
  where
    go :
        (s : Bytes)
        → (elim s as (λ x. Bool) [ [] ↦ true | d ∷ t ↦ false ]) ≡ false
        → (elim s as (λ x. ParseString) [ [] ↦ no_input | d ∷ t ↦ ok ]) ≡ ok
    go [] e = ground arith
    go (d ∷ t) e = refl

Named-from :
    {name rest : Bytes} {c d : Client Bytes} {r : Session (Client Bytes)}
    → d.sent ≡ c.sent
    → Named name rest d r
    → Named name rest c r
Named-from e (named h) =
    named (record { username = h.username; input = h.input; sent = h.sent ∙ e })

refused-Named :
    (again : Client Bytes → Session (Client Bytes)) (name end : Bytes) (c : Client Bytes)
    (l rest : Bytes)
    → refused l ≡ true
    → ((d : Client Bytes) → d.input ≡ rest → d.sent ≡ c.sent → Named name end c (again d))
    → Named name end c (after_name_reply again c (name_reply l rest))
refused-Named again name end c l rest h f = elim (Bool-cases (ltb (length l) max_name_len)) [
  | inl short ↦
      let blank : is_blank l ≡ true = ground arith in
      rw (short, is_blank-no_input l rest blank)
        (f (say ask_username (record c { input = rest })) refl refl)
  | inr long ↦
      rw long (f (say limit_username (say ask_username (record c { input = rest }))) refl refl)
]

taken-Named :
    (again : Client Bytes → Session (Client Bytes)) (c : Client Bytes) (l rest : Bytes)
    → refused l ≡ false
    → Named l rest c (after_name_reply again c (name_reply l rest))
taken-Named again c l rest h =
    let short : ltb (length l) max_name_len ≡ true = ground arith in
    let full : is_blank l ≡ false = ground arith in
    rw (short, is_blank-ok l rest full, cstr-terminated l)
      (named (record { username = refl; input = refl; sent = refl }))

-- At a terminal, whatever lines come first that are too long or blank, the question for a name is
-- asked once for each of them and once more: then the next line, shorter than MAX_NAME_LEN and not
-- blank, is the name, the rest of the input is left, and nothing has been sent.
pub enter_username-Named :
    (ls : List Bytes) (name rest : Bytes) (c : Client Bytes)
    → All (λ l. IsLine l × (refused l ≡ true)) ls
    → IsLine name
    → refused name ≡ false
    → c.input ≡ lines ls (then_line name rest)
    → Named name rest c (enter_username terminal (suc (length ls)) c)
enter_username-Named [] name rest c hs h k e =
    rw (ask 0 c name rest e h) (taken-Named (enter_username terminal 0) c name rest k)
enter_username-Named (l ∷ ls) name rest c hs h k e =
    rw (ask (suc (length ls)) c l (lines ls (then_line name rest)) e hs.0.0) (
      refused-Named (enter_username terminal (suc (length ls))) name rest c l
        (lines ls (then_line name rest)) hs.0.1
        (λ d i s. Named-from {c = c} {d = d} s (enter_username-Named ls name rest d hs.1 h k i)))
