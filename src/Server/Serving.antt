-- ===== src/Server/Serving.antt =====
-- hw7/chatserver.c: the main loop and `main` keep the invariant, and `cleanup` closes what is open.
use cs.Prelude.{
  ℕ, zero, suc, ◌≤◌, ◌≡◌, refl, Bool, true, false, not, ◌&&◌, ◌||◌, Option, none, some, List, [],
  ◌∷◌, ◌++◌, Bytes, if◌then◌else◌, All, arith, Bool-cases, inl, inr, ◌∙◌,
}
use cs.Prelude.Int.{ℤ, pos, minus_one, eq_ℤ, eq_ℤ→eq, is_neg, ltb_ℤ}
use cs.Util.{Parsed, parse_int}
use cs.Server.State.{
  fd_setsize, max_connections, Slot, Server, fresh, Run, Ends, ends, Ends-bind, Status, success,
  failure, Ends-if,
}
use cs.Server.Handlers.{client, cleanup, close_all}
use cs.Server.Messages.{broadcast_buffer}
use cs.Server.Invariant.{IsSlot, live, live-le, IsConsistent, fresh-IsConsistent}
use cs.Server.Handling.{
  AcceptOk, NameOk, MessageOk, Kept, handle_server_socket-Ends, handle_client_socket-Ends,
}
use cs.Server.Loop.{
  fits_set, watched, watch_clients, watch_client, Round, client_turn, client_loop, accept_turn,
  after_accept, selected, round, go_on, serve, Startup, leave, open_server, port_in_range, on_port,
  main,
}

-- In a round, `accept` gives a descriptor below FD_SETSIZE or an error other than EINTR, and the peers send what the
-- chat client sends.
pub record RoundOk (r : Round) : Type 0 where
  pub accepted : AcceptOk r.accepted
  pub name : NameOk r.name
  pub message : (i : ℕ) → MessageOk (r.message i)

module _ (r : Round) (ok : RoundOk r) where
  client_turn-Ends : (i : ℕ) (s : Server) → IsConsistent s → Ends IsConsistent (client_turn r i s)
  unfolding client_turn
  client_turn-Ends i s c =
      elim (Bool-cases
        (ltb_ℤ minus_one (client i s).client_socket && r.ready (client i s).client_socket)) [
          | inl on ↦
              rw on (handle_client_socket-Ends i (r.message i) s c (ground arith) (ok.message i))
          | inr off ↦ rw off (ends c)
        ]

  client_loop-Ends :
      (n i : ℕ) (s : Server) → IsConsistent s → Ends IsConsistent (client_loop r n i s)
  unfolding client_loop
  client_loop-Ends zero i s c = ends c
  client_loop-Ends (suc n) i s c = elim (Bool-cases (r.still_running (suc i))) [
    | inl on ↦ rw on (Ends-bind (client_turn-Ends i s c) λ t c'. client_loop-Ends n (suc i) t c')
    | inr off ↦ rw off (ends c)
  ]

  accept_turn-Ends : (s : Server) → IsConsistent s → Ends Kept (accept_turn r s)
  unfolding accept_turn
  accept_turn-Ends s c = elim (Bool-cases (r.still_running 0 && r.ready s.server_socket)) [
    | inl on ↦ rw on (handle_server_socket-Ends r.accepted r.name s c ok.accepted ok.name)
    | inr off ↦ rw off (ends c)
  ]

  after_accept-Ends : (p : Status × Server) → Kept p → Ends Kept (after_accept r p)
  after_accept-Ends (failure, s) c = ends c
  after_accept-Ends (success, s) c =
      Ends-bind (client_loop-Ends max_connections 0 s c) λ t c'. ends c'

watch_clients-low :
    (xs : List Slot) (w : List ℤ × ℤ)
    → All IsSlot xs
    → ltb_ℤ w.1 (pos fd_setsize) ≡ true
    → ltb_ℤ (watch_clients xs w).1 (pos fd_setsize) ≡ true
unfolding watch_clients
watch_clients-low [] w h l = l
watch_clients-low (x ∷ xs) w h l =
    watch_clients-low xs (watch_client x.client_socket w) h.1 (ground (arith, h.0.low, l))

-- Every descriptor that is watched is one for `FD_SET`.
watched-low : (s : Server) → IsConsistent s → fits_set s ≡ true
unfolding watched
watched-low s c = watch_clients-low s.slots (s.server_socket ∷ [], s.server_socket) c.table c.door

round-Ends : (r : Round) → RoundOk r → (s : Server) → IsConsistent s → Ends Kept (round r s)
unfolding round
round-Ends r ok s c = rw (watched-low s c) (
    Ends-if Kept r.select_failed (ends c)
      (Ends-bind (accept_turn-Ends (selected r s) ok' s c) (after_accept-Ends (selected r s) ok')))
  where
    ok' : RoundOk (selected r s)
    ok' = record { accepted = ok.accepted; name = ok.name; message = ok.message }

go_on-Ends :
    (next : Server → Run (Status × Server))
    → ((s : Server) → IsConsistent s → Ends Kept (next s))
    → (p : Status × Server) → Kept p
    → Ends Kept (go_on next p)
go_on-Ends next h (failure, s) c = ends c
go_on-Ends next h (success, s) c = h s c

-- The main loop over any number of rounds, whatever `select` reports and at whichever of its tests `running`
-- is found false, as long as in each round `accept` gives a descriptor below FD_SETSIZE or an error other
-- than EINTR, no `recv` of a name fails, no `recv` of a message fails with EINTR, a name has at most
-- MAX_NAME_LEN bytes and a message at most MAX_MSG_LEN: from a consistent state, where the open descriptors
-- are below FD_SETSIZE too, the server ends inside its buffers and the set of descriptors, in a consistent
-- state. So `num_connections` is the number of open client sockets.
pub serve-Ends :
    (rs : List Round) (s : Server) → All RoundOk rs → IsConsistent s → Ends Kept (serve rs s)
unfolding serve
serve-Ends [] s h c = ends c
serve-Ends (r ∷ rs) s h c =
    Ends-bind (round-Ends r h.0 s c) (go_on-Ends (serve rs) λ t c'. serve-Ends rs t h.1 c')

-- In a consistent state the number of connections is between 0 and MAX_CONNECTIONS.
pub capacity : (s : Server) → IsConsistent s → (n : ℕ) × (s.num_connections ≡ pos n) × (n ≤ 3)
capacity s c = (live s.slots, c.counted, omega (arith, live-le s.slots, c.size))

abbrev pub has {ℓ} : {A : Type ℓ} → (A → Bool) → List A → Bool
has p [] = false
has p (x ∷ xs) = p x || has p xs

has-append {ℓ} :
    {A : Type ℓ} (p : A → Bool) (xs ys : List A) → has p (xs ++ ys) ≡ (has p xs || has p ys)
has-append p [] ys = refl
has-append p (x ∷ xs) ys = ground (arith, has-append p xs ys)

close_all-has :
    (is_open : ℤ → Bool) (fd : ℤ) (xs : List Slot)
    → has (eq_ℤ fd) (close_all is_open xs) ≡ (is_open fd && has (λ x. eq_ℤ fd x.client_socket) xs)
unfolding close_all
close_all-has is_open fd [] = ground arith
close_all-has is_open fd (x ∷ xs) =
    ground (arith, close_all-has is_open fd xs, eq_ℤ→eq fd x.client_socket)

first-has :
    (is_open : ℤ → Bool) (fd sock : ℤ)
    → has (eq_ℤ fd) (if is_open sock then sock ∷ [] else []) ≡ (is_open fd && eq_ℤ fd sock)
first-has is_open fd sock = ground (arith, eq_ℤ→eq fd sock)

-- `cleanup` closes a descriptor exactly if it is open and is the server's socket or that of a
-- slot; what was closed before stays so.
pub cleanup-has :
    (is_open : ℤ → Bool) (fd : ℤ) (s : Server)
    → has (eq_ℤ fd) (cleanup is_open s).closed ≡ (
        has (eq_ℤ fd) s.closed
        || (is_open fd && (eq_ℤ fd s.server_socket || has (λ x. eq_ℤ fd x.client_socket) s.slots)))
unfolding cleanup broadcast_buffer
cleanup-has is_open fd s =
    let first : List ℤ = if is_open s.server_socket then s.server_socket ∷ [] else [] in
    has-append (eq_ℤ fd) s.closed (first ++ close_all is_open s.slots)
    ∙ ground (
      arith,
      has-append (eq_ℤ fd) first (close_all is_open s.slots),
      close_all-has is_open fd s.slots,
      first-has is_open fd s.server_socket,
    )

-- Whether the arguments, `sigaction` and `socket` let `main` come to have a server.
abbrev pub opens : List Bytes → Startup → Bool
opens (prog ∷ arg ∷ []) os =
    let p = parse_int arg (pos 0) in
    p.success && (port_in_range p.value && (os.sigaction_ok && not (is_neg os.new_socket)))
opens argv os = false

-- How `main` leaves: with `cleanup` of a consistent state where it has opened a server, and with
-- EXIT_FAILURE where it has not.
abbrev pub Left : Bool → (ℤ → Bool) → Status × Option Server → Type 0
Left opened is_open (st, none) = (opened ≡ false) × (st ≡ failure)
Left opened is_open (st, some t) =
    (opened ≡ true) × ((s : Server) × IsConsistent s × (t ≡ cleanup is_open s))

leave-Ends :
    (is_open : ℤ → Bool) (p : Status × Server) → Kept p → Ends (Left true is_open) (leave is_open p)
leave-Ends is_open (st, s) c = ends (refl, (s, c, refl))

open_server-Ends :
    (os : Startup) (is_open : ℤ → Bool) (rs : List Round)
    → ltb_ℤ os.new_socket (pos fd_setsize) ≡ true
    → All RoundOk rs
    → Ends (Left (not (is_neg os.new_socket)) is_open) (open_server os is_open rs)
unfolding open_server
open_server-Ends os is_open rs l h = elim (Bool-cases (is_neg os.new_socket)) [
  | inl closed ↦ rw closed (ends (refl, refl))
  | inr opened ↦ rw opened (
      Ends-if (Left true is_open) (not os.setsockopt_ok || not os.bind_ok || not os.listen_ok)
        (leave-Ends is_open (failure, fresh os.new_socket) (fresh-IsConsistent os.new_socket l))
        (Ends-bind (serve-Ends rs (fresh os.new_socket) h (fresh-IsConsistent os.new_socket l))
          (leave-Ends is_open)))
]

on_port-Ends :
    (is_open : ℤ → Bool) (p : Parsed) (ok opened : Bool) (next : Run (Status × Option Server))
    → Ends (Left opened is_open) next
    → Ends
        (Left (p.success && (port_in_range p.value && (ok && opened))) is_open)
        (on_port p ok next)
on_port-Ends is_open p ok opened next h = elim (Bool-cases p.success) [
  | inr bad ↦ rw bad (ends (refl, refl))
  | inl number ↦ elim (Bool-cases (port_in_range p.value)) [
    | inr far ↦ rw (number, far) (ends (refl, refl))
    | inl port ↦ elim (Bool-cases ok) [
      | inr failed ↦ rw (number, port, failed) (ends (refl, refl))
      | inl set ↦ rw (number, port, set) h
    ]
  ]
]

-- `main` for any arguments, any results of the calls at its start, and rounds in which `accept` gives a
-- descriptor or an error other than EINTR, no `recv` of a name fails, no `recv` of a message fails with
-- EINTR, a name has at most MAX_NAME_LEN bytes and a message at most MAX_MSG_LEN, and with descriptors
-- below FD_SETSIZE: it ends inside its buffers. Exactly where the arguments, `sigaction` and
-- `socket` let it have a server it ends with `cleanup` of a consistent state, also when setsockopt, bind
-- or listen fails; else the status is EXIT_FAILURE.
pub main-Ends :
    (argv : List Bytes) (os : Startup) (is_open : ℤ → Bool) (rs : List Round)
    → ltb_ℤ os.new_socket (pos fd_setsize) ≡ true
    → All RoundOk rs
    → Ends (Left (opens argv os) is_open) (main argv os is_open rs)
unfolding main
main-Ends [] os is_open rs l h = ends (refl, refl)
main-Ends (prog ∷ []) os is_open rs l h = ends (refl, refl)
main-Ends (prog ∷ arg ∷ []) os is_open rs l h =
    on_port-Ends is_open (parse_int arg (pos 0)) os.sigaction_ok (not (is_neg os.new_socket))
      (open_server os is_open rs) (open_server-Ends os is_open rs l h)
main-Ends (prog ∷ arg ∷ more ∷ argv) os is_open rs l h = ends (refl, refl)
