-- ===== src/Client/State.antt =====
-- hw7/chatclient.c: the client's variables, and what it prints.
use cs.Prelude.{
  ℕ, ◌+◌, Bool, true, false, Option, none, some, List, [], ◌∷◌, ◌++◌, Bytes, length, ltb,
  if◌then◌else◌,
}
use cs.Prelude.Int.{ℤ}
use cs.Util.{buflen, max_msg_len}
use cs.Util.Input.{Reply, cstr}

-- The messages on stdout and stderr, in the order of the source, with the texts they show.
pub data Line : Type 0 where
  recv_error : Line
  connections_busy : Line
  recv_warning : Line
  connection_lost : Line
  send_error : Line
  send_warning : Line
  usage : Line
  bad_address : Line
  bad_port : Line
  port_range : Line
  ask_username : Line
  limit_username : Line
  hello : Bytes → Line
  socket_error : Line
  connect_error : Line
  welcome : Bytes → Line
  prompt : Bytes → Line
  select_error : Line
  goodbye : Line
  limit_message : Line
  server_shutdown : Line
  incoming : Bytes → Line

-- `sent` are the texts given to `send`, and `closed` the descriptors given to `close`. `input` is
-- the state of standard input.
pub record Client (S : Type 0) : Type 0 where
  pub client_socket : ℤ
  pub username : Bytes
  pub input : S
  pub sent : List Bytes
  pub output : List Line
  pub closed : List ℤ

abbrev pub say : {S : Type 0} → Line → Client S → Client S
say l c = record c { output = c.output ++ l ∷ [] }

-- What a piece of the program does: it goes on, writes outside an array, or runs out of the fuel of
-- the model.
pub data Session (A : Type 0) : Type 0 where
  at : A → Session A
  out_of_bounds : Session A
  out_of_fuel : Session A

infixl 5 ◌>>=◌
abbrev pub ◌>>=◌ : {A B : Type 0} → Session A → (A → Session B) → Session B
at a >>= k = k a
out_of_bounds >>= k = out_of_bounds
out_of_fuel >>= k = out_of_fuel

-- The piece of the program ends, with a value that satisfies `P`.
pub data Reaches {A : Type 0} (P : A → Type 0) : Session A → Type 0 where
  reaches : {a : A} → P a → Reaches P (at a)

pub Reaches-bind :
    {A B : Type 0} {P : A → Type 0} {Q : B → Type 0} {r : Session A} {k : A → Session B}
    → Reaches P r
    → ((a : A) → P a → Reaches Q (k a))
    → Reaches Q (r >>= k)
Reaches-bind (reaches p) next = next _ p

pub Reaches-mono :
    {A : Type 0} {P Q : A → Type 0} {r : Session A}
    → Reaches P r
    → ((a : A) → P a → Q a)
    → Reaches Q r
Reaches-mono (reaches p) weaken = reaches (weaken _ p)

pub Reaches-if :
    {A : Type 0} (P : A → Type 0) (b : Bool) {x y : Session A}
    → Reaches P x
    → Reaches P y
    → Reaches P (if b then x else y)
Reaches-if P true h k = h
Reaches-if P false h k = k

abbrev pub from_reply : {S B : Type 0} → Option (Reply S) → (Reply S → Session B) → Session B
from_reply none k = out_of_fuel
from_reply (some r) k = k r

-- sizeof(bufcomingin)
abbrev pub bufcomingin_size : ℕ
bufcomingin_size = buflen + 1

-- `bufcomingin[num_bytes_received] = '\0'`, and the C string that is then in the buffer.
abbrev pub terminate : Bytes → Session Bytes
terminate b = if ltb (length b) bufcomingin_size then at (cstr b) else out_of_bounds

-- sizeof(bufcomingout)
abbrev pub bufcomingout_size : ℕ
bufcomingout_size = max_msg_len + 1

-- strcpy(bufcomingout, text)
abbrev pub copy_out : Bytes → Session Bytes
copy_out text = if ltb (length text) bufcomingout_size then at text else out_of_bounds
