-- ===== src/Server/State.antt =====
-- hw7/chatserver.c: the global variables, and the results of the system calls that the server makes.
use cs.Prelude.{
  ℕ, ◌+◌, Bool, Option, none, List, [], Bytes, ltb, if◌then◌else◌, length, replicate, true, false,
}
use cs.Prelude.Int.{ℤ, pos, minus_one}
use cs.Util.{max_msg_len, buflen}

-- FD_SETSIZE of the C library
abbrev pub fd_setsize : ℕ
fd_setsize = 1024

abbrev pub max_connections : ℕ
max_connections = 3

-- sizeof(inbuf) and sizeof(outbuf)
abbrev pub inbuf_size : ℕ
inbuf_size = max_msg_len + 1

abbrev pub outbuf_size : ℕ
outbuf_size = buflen + 1

-- `client_sockets[i]` and `usernames[i]`, where a null pointer is `none`.
pub record Slot : Type 0 where
  pub client_socket : ℤ
  pub username : Option Bytes

-- The buffers are seen as the C strings that they hold. `sent` are the calls of `send`, oldest
-- first, and `closed` the descriptors given to `close`.
pub record Server : Type 0 where
  pub server_socket : ℤ
  pub num_connections : ℤ
  pub slots : List Slot
  pub inbuf : Bytes
  pub outbuf : Bytes
  pub sent : List (ℤ × Bytes)
  pub closed : List ℤ

abbrev pub slot : ℤ → Option Bytes → Slot
slot fd name = record { client_socket = fd; username = name }

abbrev pub free_slot : Slot
free_slot = slot minus_one none

-- The state after the initialising loop of `main`, with `fd` for the server's socket.
abbrev pub fresh : ℤ → Server
fresh fd = record {
  server_socket = fd;
  num_connections = pos 0;
  slots = replicate max_connections free_slot;
  inbuf = [];
  outbuf = [];
  sent = [];
  closed = [];
}

-- What a piece of the program does: it ends, or writes or reads outside an array.
pub data Run (A : Type 0) : Type 0 where
  done : A → Run A
  out_of_bounds : Run A

infixl 5 ◌>>=◌ ◌>>◌
abbrev pub ◌>>=◌ : {A B : Type 0} → Run A → (A → Run B) → Run B
done a >>= k = k a
out_of_bounds >>= k = out_of_bounds

abbrev pub ◌>>◌ : {A B : Type 0} → Run A → Run B → Run B
m >> k = m >>= λ _. k

-- Every end of the run satisfies `P`, and it does end.
pub data Ends {A : Type 0} (P : A → Type 0) : Run A → Type 0 where
  ends : {a : A} → P a → Ends P (done a)

-- A string and its '\0' are written into an array of `size` bytes.
unfoldable pub write_string : ℕ → Bytes → Run Bytes
write_string size s = if ltb (length s) size then done s else out_of_bounds

-- EXIT_SUCCESS and EXIT_FAILURE
pub data Status : Type 0 where
  success : Status
  failure : Status

-- What `accept` returns, and whether `errno` is EINTR after it.
pub record Accepted : Type 0 where
  pub new_socket : ℤ
  pub eintr : Bool

-- What `recv` returns: -1 with `errno` EINTR or not, or the bytes that it stored. No bytes mean that
-- the peer has closed the connection.
pub data Received : Type 0 where
  recv_failed : Bool → Received
  received : Bytes → Received

module _ {A : Type 0} {P : A → Type 0} where
  pub Ends-bind :
      {B : Type 0} {Q : B → Type 0} {r : Run A} {k : A → Run B}
      → Ends P r
      → ((a : A) → P a → Ends Q (k a))
      → Ends Q (r >>= k)
  Ends-bind (ends p) next = next _ p

  pub Ends-mono : {Q : A → Type 0} {r : Run A} → Ends P r → ((a : A) → P a → Q a) → Ends Q r
  Ends-mono (ends p) weaken = ends (weaken _ p)

pub Ends-if :
    {A : Type 0} (P : A → Type 0) (b : Bool) {x y : Run A}
    → Ends P x
    → Ends P y
    → Ends P (if b then x else y)
Ends-if P true h k = h
Ends-if P false h k = k
