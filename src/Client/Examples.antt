-- ===== src/Client/Examples.antt =====
-- hw7/chatclient.c: a run of the client, and its theorems at concrete inputs.
use cs.Prelude.{
  ◌≡◌, refl, Bool, true, false, some, List, [], ◌∷◌, Bytes, bytes, arith, length, if◌then◌else◌,
  ◌==◌, bytes_eq,
}
use cs.Prelude.Int.{ℤ, pos, eq_ℤ}
use cs.Util.{is_integer, parse_int, sscanf_lld, scan_number, scan_digits}
use cs.Util.Input.{cstr, get_string, consume}
use cs.Util.Input.Terminal.{terminal, then_line}
use cs.Server.State.{recv_failed, received, success}
use cs.Client.State.{Client, Reaches, at, Session}
use cs.Client.Loop.{
  Round, Connection, Next, fresh, stdin_turn, enter_username, chat, main, session,
  connect_to_server, round,
}
use cs.Client.Bounds.{IsSane}
use cs.Client.Names.{answer, lines, Named, stdin_turn-answer, enter_username-Named}
use cs.Client.Ending.{Explained, chat-Explained}
use cs.Client.Whole.{Modest, IsRun, main-Modest}

abbrev typing : Round
typing = record {
  select_failed = false;
  stdin_ready = true;
  socket_ready = false;
  num_bytes_send = pos 3;
  received = recv_failed false;
}

abbrev hearing : Round
hearing = record {
  select_failed = false;
  stdin_ready = false;
  socket_ready = true;
  num_bytes_send = pos 0;
  received = received (bytes "[bob]: hi");
}

abbrev ann : Bytes → Client Bytes
ann input = record {
  client_socket = pos 3;
  username = bytes "ann";
  input = input;
  sent = bytes "ann" ∷ [];
  output = [];
  closed = [];
}

abbrev typed : Bytes
typed = bytes "hi\nbye\n"

ann-IsSane : IsSane (ann typed)
ann-IsSane = record { name = omega arith; sent = omega arith }

stdin_turn-answer_example :
    stdin_turn terminal typing (ann typed)
    ≡ at (answer (pos 3) (bytes "hi") (record (ann typed) { input = bytes "bye\n" }))
stdin_turn-answer_example =
    stdin_turn-answer typing (ann typed) (bytes "hi") (bytes "bye\n") refl refl (omega arith)

chat-Explained_example :
    Reaches Explained (chat terminal (hearing ∷ typing ∷ typing ∷ []) (ann typed))
chat-Explained_example =
    chat-Explained terminal (hearing ∷ typing ∷ typing ∷ []) (ann typed) (omega arith) ann-IsSane

abbrev long_name : Bytes
long_name = bytes "abcdefghijklmnopqrst"

enter_username-Named_example :
    Named
      (bytes "ann")
      []
      (fresh (lines (long_name ∷ [] ∷ []) (bytes "ann\n")))
      (enter_username terminal 3 (fresh (lines (long_name ∷ [] ∷ []) (bytes "ann\n"))))
unfolding cstr
enter_username-Named_example =
    enter_username-Named (long_name ∷ [] ∷ []) (bytes "ann") []
      (fresh (lines (long_name ∷ [] ∷ []) (bytes "ann\n"))) ((omega arith, refl), ((tt, refl), tt))
      (omega arith) refl refl

abbrev connection : Connection
connection = record {
  new_socket = pos 3;
  connect_ok = true;
  greeting = received (bytes "welcome");
  name_sent = pos 3;
}

abbrev resolve : Bytes → ℤ
resolve a = if length a == 9 then pos 1 else pos 0

abbrev open_fd : ℤ → Bool
open_fd fd = true

good-IsRun : IsRun (long_name ∷ []) (bytes "ann") connection (hearing ∷ typing ∷ [])
unfolding cstr
good-IsRun = record {
  too_long_or_blank = ((omega arith, refl), tt);
  name_line = omega arith;
  name_taken = refl;
  greeting = omega arith;
  rounds = omega arith;
}

abbrev arguments : List Bytes
arguments = bytes "chatclient" ∷ bytes "localhost" ∷ bytes "8080" ∷ []

main-Modest_example : Reaches Modest (
    main terminal resolve open_fd arguments 2 connection
      (hearing ∷ typing ∷ [])
      (lines (long_name ∷ []) (then_line (bytes "ann") (bytes "bye\n"))))
main-Modest_example =
    main-Modest (long_name ∷ []) (bytes "ann") (bytes "bye\n") connection (hearing ∷ typing ∷ [])
      good-IsRun resolve open_fd arguments

abbrev run_end : Session (Next Bytes) → Bool
run_end (at (some success, c)) = eq_ℤ (pos (length c.sent)) (pos 2)
run_end r = false

-- The whole run: a name, a message that arrives, and `bye`.
whole_run :
    run_end (
      main terminal resolve open_fd arguments 2 connection
        (hearing ∷ typing ∷ [])
        (lines (long_name ∷ []) (then_line (bytes "ann") (bytes "bye\n"))))
    ≡ true
unfolding main bytes_eq is_integer parse_int sscanf_lld scan_number scan_digits session
    enter_username get_string terminal consume cstr connect_to_server chat round stdin_turn
whole_run = refl
