-- ===== src/Server/Texts.antt =====
-- hw7/chatserver.c: the lengths of the texts.
use cs.Prelude.{ℕ, ◌+◌, ◌<◌, ◌≡◌, ◌++◌, Bytes, bytes, length, length-append, arith, lt→ltb}
use cs.Server.State.{done, write_string}
use cs.Server.Messages.{joined_text, left_text, says_text}

pub write_string-done : (size : ℕ) (s : Bytes) → length s < size → write_string size s ≡ done s
unfolding write_string
write_string-done size s h = rw (lt→ltb (length s) size h)

-- The lengths of the texts, for the arithmetic.
pub texts_fit :
    (n m : Bytes)
    → (length (joined_text n) ≡ length n + 29)
      × (length (left_text n) ≡ length n + 27)
      × (length (says_text n m) ≡ length n + length m + 4)
texts_fit n m = omega (
  arith,
  length-append n (bytes "] joined the chat room."),
  length-append n (bytes "] left the chat room."),
  length-append n (bytes "]: " ++ m),
)
