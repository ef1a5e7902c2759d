-- ===== src/Server/Loop.antt =====
-- hw7/chatserver.c: `main`, with its loop as a run over what each `select` reports.
use cs.Prelude.{
  ℕ, zero, suc, Bool, not, ◌&&◌, ◌||◌, Option, none, some, List, [], ◌∷◌, Bytes, if◌then◌else◌,
  ◌++◌, false,
}
use cs.Prelude.Int.{ℤ, pos, minus_one, is_neg, ltb_ℤ, eq_ℤ}
use cs.Util.{Parsed, parse_int}
use cs.Server.State.{
  max_connections, Server, fresh, Run, done, ◌>>=◌, Status, success, failure, Accepted, Received,
  Slot, out_of_bounds, fd_setsize,
}
use cs.Server.Handlers.{client, handle_server_socket, handle_client_socket, cleanup}

-- What the operating system answers in one round of the loop. `still_running k` is the value of
-- `running` at the test before `accept` (0) and at the tests of the loop over the clients (from 1).
pub record Round : Type 0 where
  pub select_failed : Bool
  pub ready : ℤ → Bool
  pub still_running : ℕ → Bool
  pub accepted : Accepted
  pub name : Received
  pub message : ℕ → Received

-- The `if` in the loop over the clients.
unfoldable pub client_turn : Round → ℕ → Server → Run Server
client_turn r i s =
    let fd = (client i s).client_socket in
    if ltb_ℤ minus_one fd && r.ready fd then handle_client_socket i (r.message i) s else done s

-- The loop over the clients, with `n` rounds left from index `i` on.
unfoldable pub client_loop : Round → ℕ → ℕ → Server → Run Server
client_loop r zero i s = done s
client_loop r (suc n) i s =
    if r.still_running (suc i)
    then (do t ← client_turn r i s; client_loop r n (suc i) t)
    else done s

unfoldable pub accept_turn : Round → Server → Run (Status × Server)
accept_turn r s =
    if r.still_running 0 && r.ready s.server_socket
    then handle_server_socket r.accepted r.name s
    else done (success, s)

-- The body of `while (running)`; `failure` stands for the jump to EXIT.
abbrev pub after_accept : Round → Status × Server → Run (Status × Server)
after_accept r (failure, s) = done (failure, s)
after_accept r (success, s) = do t ← client_loop r max_connections 0 s; done (success, t)

-- The descriptors in `sockset` before `select`, and `max_socket`.
abbrev pub watch_client : ℤ → List ℤ × ℤ → List ℤ × ℤ
watch_client fd (fds, top) =
    (if ltb_ℤ minus_one fd then fds ++ fd ∷ [] else fds, if ltb_ℤ top fd then fd else top)

unfoldable pub watch_clients : List Slot → List ℤ × ℤ → List ℤ × ℤ
watch_clients [] w = w
watch_clients (x ∷ xs) w = watch_clients xs (watch_client x.client_socket w)

unfoldable pub watched : Server → List ℤ × ℤ
watched s = watch_clients s.slots (s.server_socket ∷ [], s.server_socket)

unfoldable pub has_fd : ℤ → List ℤ → Bool
has_fd fd [] = false
has_fd fd (x ∷ xs) = eq_ℤ fd x || has_fd fd xs

-- `select` leaves in `sockset` those of its descriptors that are ready, and all after EINTR.
abbrev pub selected : Round → Server → Round
selected r s = record r { ready = λ fd. has_fd fd (watched s).0 && r.ready fd }

-- `FD_SET` writes behind the set for a descriptor that is not below FD_SETSIZE; `max_socket` is the largest
-- that is set.
abbrev pub fits_set : Server → Bool
fits_set s = ltb_ℤ (watched s).1 (pos fd_setsize)

abbrev pub after_set : Round → Server → Run (Status × Server)
after_set r s =
    if r.select_failed
    then done (failure, s)
    else (accept_turn (selected r s) s >>= after_accept (selected r s))

unfoldable pub round : Round → Server → Run (Status × Server)
round r s = if fits_set s then after_set r s else out_of_bounds

abbrev pub go_on : (Server → Run (Status × Server)) → Status × Server → Run (Status × Server)
go_on next (failure, s) = done (failure, s)
go_on next (success, s) = next s

-- The list ends where `running` is found false at the head of the loop.
unfoldable pub serve : List Round → Server → Run (Status × Server)
serve [] s = done (success, s)
serve (r ∷ rs) s = round r s >>= go_on (serve rs)

-- What the system calls of `main` answer before the loop.
pub record Startup : Type 0 where
  pub sigaction_ok : Bool
  pub new_socket : ℤ
  pub setsockopt_ok : Bool
  pub bind_ok : Bool
  pub listen_ok : Bool

-- The code at EXIT.
abbrev pub leave : (ℤ → Bool) → Status × Server → Run (Status × Option Server)
leave is_open (st, s) = done (st, some (cleanup is_open s))

-- From the call of `socket` on.
unfoldable pub open_server : Startup → (ℤ → Bool) → List Round → Run (Status × Option Server)
open_server os is_open rounds =
    if is_neg os.new_socket
    then done (failure, none)
    else if not os.setsockopt_ok || not os.bind_ok || not os.listen_ok
    then leave is_open (failure, fresh os.new_socket)
    else serve rounds (fresh os.new_socket) >>= leave is_open

unfoldable pub port_in_range : ℤ → Bool
port_in_range port = not (ltb_ℤ port (pos 1024) || ltb_ℤ (pos 65535) port)

abbrev pub on_port : Parsed → Bool → Run (Status × Option Server) → Run (Status × Option Server)
on_port p sigaction_ok next =
    if not p.success
    then done (failure, none)
    else if not (port_in_range p.value)
    then done (failure, none)
    else if not sigaction_ok
    then done (failure, none)
    else next

-- `main`, without its messages: the exit status, and the server's state where one was set up.
-- `argv` starts with the program's name.
unfoldable pub main : List Bytes → Startup → (ℤ → Bool) → List Round → Run (Status × Option Server)
main (prog ∷ arg ∷ []) os is_open rounds =
    on_port (parse_int arg (pos 0)) os.sigaction_ok (open_server os is_open rounds)
main argv os is_open rounds = done (failure, none)
