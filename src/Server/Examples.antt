-- ===== src/Server/Examples.antt =====
-- hw7/chatserver.c: runs of the server, and its theorems at concrete inputs.
use cs.Prelude.{
  ℕ, ◌↔◌, length, ◌<◌, ◌≡◌, refl, Bool, true, false, ◌||◌, some, List, [], ◌∷◌, Bytes, bytes,
  bytes_eq, arith, replicate,
}
use cs.Prelude.Int.{ℤ, pos, minus_one, eq_ℤ}
use cs.Util.Input.{cstr}
use cs.Server.State.{
  Server, slot, free_slot, Run, done, out_of_bounds, Ends, write_string, Status, recv_failed,
  received,
}
use cs.Server.Messages.{
  broadcast, broadcast_buffer, str_le, user_names, sort_names, append_names, create_welcome_msg,
  says_text,
}
use cs.Server.Handlers.{
  client, free_index, add_at, add_client, terminate_inbuf, receive_name, handle_server_socket,
  handle_client_socket,
}
use cs.Server.Loop.{
  Round, watched, watch_clients, has_fd, client_turn, client_loop, accept_turn, round, serve,
  Startup, main,
}
use cs.Server.Invariant.{live, IsConsistent}
use cs.Server.Handling.{Kept}
use cs.Server.Serving.{RoundOk, serve-Ends, Left, opens, main-Ends}
use cs.Server.Faults.{full_buffer_overruns, Miscounted, accept_eintr_miscounts, receive_name_stale}
use cs.Server.Delivery.{Distinct, Delivered, handle_client_socket-Delivered}

-- Two clients, with room for a third.
abbrev busy : Server
busy = record {
  server_socket = pos 3;
  num_connections = pos 2;
  slots = slot (pos 5) (some (bytes "zoe")) ∷ free_slot ∷ slot (pos 4) (some (bytes "al")) ∷ [];
  inbuf = bytes "zoe";
  outbuf = [];
  sent = [];
  closed = [];
}

busy-IsConsistent : IsConsistent busy
unfolding live
busy-IsConsistent = record { size = refl; counted = refl; table = ground arith; door = refl }

busy-Distinct : Distinct busy.slots
busy-Distinct = ground arith

-- Accepts descriptor 6, whose client calls itself "bo", and then hears from client 0.
abbrev busy_round : Round
busy_round = record {
  select_failed = false;
  ready = λ fd. eq_ℤ fd (pos 3) || eq_ℤ fd (pos 5);
  still_running = λ k. true;
  accepted = record { new_socket = pos 6; eintr = false };
  name = received (bytes "bo");
  message = λ i. received (bytes "hi all");
}

busy_round-RoundOk : RoundOk busy_round
busy_round-RoundOk = record {
  accepted = (λ h. refl, refl);
  name = omega arith;
  message = λ i. omega arith;
}

abbrev outbox : Run (Status × Server) → List (ℤ × Bytes)
outbox out_of_bounds = []
outbox (done (st, t)) = t.sent

busy-outbox :
    outbox (round busy_round busy)
    ≡ (pos 6, bytes "*** Welcome to CS 392 Chat Server v1.0 ***\n\nConnected users: [al, zoe]")
      ∷ (pos 5, bytes "User [bo] joined the chat room.")
      ∷ (pos 4, bytes "User [bo] joined the chat room.")
      ∷ (pos 6, bytes "[zoe]: hi all")
      ∷ (pos 4, bytes "[zoe]: hi all")
      ∷ []
unfolding round watched watch_clients has_fd accept_turn client_loop client_turn
    handle_server_socket create_welcome_msg write_string user_names sort_names str_le append_names
    receive_name terminate_inbuf cstr add_client add_at free_index broadcast_buffer broadcast
    handle_client_socket bytes_eq
busy-outbox = refl

serve-Ends_example : Ends Kept (serve (busy_round ∷ busy_round ∷ []) busy)
serve-Ends_example =
    serve-Ends (busy_round ∷ busy_round ∷ []) busy (busy_round-RoundOk, (busy_round-RoundOk, tt))
      busy-IsConsistent

abbrev started : Startup
started = record {
  sigaction_ok = true;
  new_socket = pos 3;
  setsockopt_ok = true;
  bind_ok = true;
  listen_ok = true;
}

abbrev few_open : ℤ → Bool
few_open fd = eq_ℤ fd (pos 3) || eq_ℤ fd (pos 4) || eq_ℤ fd (pos 6)

abbrev command : List Bytes
command = bytes "chatserver" ∷ bytes "8080" ∷ []

main-Ends_example :
    Ends (Left (opens command started) few_open) (main command started few_open (busy_round ∷ []))
main-Ends_example =
    main-Ends command started few_open (busy_round ∷ []) refl (busy_round-RoundOk, tt)

full_buffer_overruns_example :
    (handle_client_socket 0 (received (replicate 1025 b'x')) busy ≡ out_of_bounds)
    ↔ (1024 < length {A = ℕ} (replicate 1025 b'x'))
full_buffer_overruns_example =
    full_buffer_overruns 0 (replicate 1025 b'x') busy busy-IsConsistent refl

accept_eintr_miscounts_example : Ends Miscounted (
    handle_server_socket
      (record { new_socket = minus_one; eintr = true })
      (received (bytes "bo"))
      busy)
accept_eintr_miscounts_example =
    accept_eintr_miscounts busy (received (bytes "bo")) busy-IsConsistent
      (unfold live in omega arith) (omega arith)

first_free : free_index busy.slots ≡ some 1
unfolding free_index
first_free = refl

-- The third client, whose name could not be read, is called "zoe" as the last one was.
receive_name_stale_example :
    Ends
      (λ (st, t). client 1 t ≡ slot (pos 6) (some (bytes "zoe")))
      (receive_name (pos 6) (recv_failed false) busy)
receive_name_stale_example = receive_name_stale (pos 6) false busy 1 first_free (omega arith)

not_bye : bytes_eq (cstr (bytes "hi")) (bytes "bye") ≡ false
unfolding bytes_eq cstr
not_bye = refl

handle_client_socket-Delivered_example :
    Ends
      (Delivered 0 (says_text (bytes "zoe") (cstr (bytes "hi"))) busy)
      (handle_client_socket 0 (received (bytes "hi")) busy)
handle_client_socket-Delivered_example =
    handle_client_socket-Delivered 0 b'h' (bytes "i") busy busy-Distinct (omega arith) (omega arith)
      not_bye
