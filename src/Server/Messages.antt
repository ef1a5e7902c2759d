-- ===== src/Server/Messages.antt =====
-- hw7/chatserver.c: `broadcast_buffer`, `str_cmp`, `create_welcome_msg` and the texts that are sent.
use cs.Prelude.{
  ℕ, suc, Bool, true, false, not, ◌&&◌, Option, none, some, List, [], ◌∷◌, ◌++◌, Bytes, bytes, ltb,
  ◌==◌, if◌then◌else◌,
}
use cs.Prelude.Int.{ℤ, pos, minus_one, eq_ℤ}
use cs.Server.State.{Slot, Server, Run, done, out_of_bounds, ◌>>=◌, write_string, outbuf_size}

-- The loop of `broadcast_buffer` from index `i` on: the calls of `send` that it makes.
unfoldable pub broadcast : ℤ → Bytes → ℕ → List Slot → List (ℤ × Bytes)
broadcast skip_index buf i [] = []
broadcast skip_index buf i (x ∷ xs) =
    let rest = broadcast skip_index buf (suc i) xs in
    if not (eq_ℤ (pos i) skip_index) && not (eq_ℤ x.client_socket minus_one)
    then (x.client_socket, buf) ∷ rest
    else rest

unfoldable pub broadcast_buffer : ℤ → Bytes → Server → Server
broadcast_buffer skip_index buf s = record s { sent = s.sent ++ broadcast skip_index buf 0 s.slots }

-- `strcmp(a, b) <= 0`
unfoldable pub str_le : Bytes → Bytes → Bool
str_le [] t = true
str_le (c ∷ s) [] = false
str_le (c ∷ s) (d ∷ t) = if ltb c d then true else (c == d) && str_le s t

-- The array `names`, and `qsort` of it by `str_cmp`.
unfoldable pub user_names : List Slot → List Bytes
user_names [] = []
user_names (x ∷ xs) = elim x.username [ none ↦ user_names xs | some n ↦ n ∷ user_names xs ]

unfoldable pub insert_name : Bytes → List Bytes → List Bytes
insert_name n [] = n ∷ []
insert_name n (m ∷ ms) = if str_le n m then n ∷ m ∷ ms else m ∷ insert_name n ms

unfoldable pub sort_names : List Bytes → List Bytes
unfolding insert_name
sort_names [] = []
sort_names (n ∷ ns) = insert_name n (sort_names ns)

-- strcat(outbuf, s)
abbrev pub strcat : Bytes → Bytes → Run Bytes
strcat buf s = write_string outbuf_size (buf ++ s)

-- The loop that appends the names from the second on.
unfoldable pub append_names : Bytes → List Bytes → Run Bytes
append_names buf [] = done buf
append_names buf (n ∷ ns) = do
  buf ← strcat buf (bytes ", ")
  buf ← strcat buf n
  append_names buf ns

abbrev pub list_users : Bytes → List Bytes → Run Bytes
list_users buf [] = out_of_bounds
list_users buf (n ∷ ns) = do
  buf ← strcat buf (bytes "\n\nConnected users: [")
  buf ← strcat buf n
  buf ← append_names buf ns
  strcat buf (bytes "]")

-- The new contents of `outbuf`. With no name in the table `names[0]` is not set.
unfoldable pub create_welcome_msg : Server → Run Bytes
create_welcome_msg s = do
  buf ← strcat [] (bytes "*** Welcome to CS 392 Chat Server v1.0 ***")
  if eq_ℤ s.num_connections (pos 0)
      then strcat buf (bytes "\n\nNo other users are in the chat room.")
      else list_users buf (sort_names (user_names s.slots))

-- `%s` of a name, where the C library prints a null pointer as "(null)".
abbrev pub name_text : Option Bytes → Bytes
name_text none = bytes "(null)"
name_text (some n) = n

abbrev pub joined_text : Bytes → Bytes
joined_text n = bytes "User [" ++ (n ++ bytes "] joined the chat room.")

abbrev pub left_text : Bytes → Bytes
left_text n = bytes "User [" ++ (n ++ bytes "] left the chat room.")

abbrev pub says_text : Bytes → Bytes → Bytes
says_text n m = bytes "[" ++ (n ++ (bytes "]: " ++ m))
