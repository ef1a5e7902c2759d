-- ===== src/Server/Select.antt =====
-- hw7/chatserver.c: the set of descriptors that the main loop hands to `select`.
use cs.Prelude.{
  ◌≡◌, refl, Bool, true, false, ◌&&◌, ◌||◌, List, [], ◌∷◌, ◌++◌, if◌then◌else◌, All, All-append,
  arith, Bool-cases, inl, inr,
}
use cs.Prelude.Int.{ℤ, minus_one, eq_ℤ, eq_ℤ→eq, ltb_ℤ, leb_ℤ}
use cs.Server.State.{Slot, Server}
use cs.Server.Loop.{watch_client, watch_clients, watched, has_fd}

abbrev pub Below : ℤ → List ℤ → Type 0
Below top = All (λ fd. leb_ℤ fd top ≡ true)

leb_ℤ_trans : (a b c : ℤ) → leb_ℤ a b ≡ true → leb_ℤ b c ≡ true → leb_ℤ a c ≡ true
leb_ℤ_trans a b c h k = ground arith

Below-mono : (a b : ℤ) (xs : List ℤ) → leb_ℤ a b ≡ true → Below a xs → Below b xs
Below-mono a b [] h p = tt
Below-mono a b (x ∷ xs) h p = (leb_ℤ_trans x a b p.0 h, Below-mono a b xs h p.1)

watch_client-Below :
    (fd : ℤ) (fds : List ℤ) (top : ℤ)
    → Below top fds
    → Below (watch_client fd (fds, top)).1 (watch_client fd (fds, top)).0
watch_client-Below fd fds top p = elim (Bool-cases (ltb_ℤ minus_one fd)) [
  | inl live ↦ rw live (All-append _ fds (fd ∷ []) wider (ground arith, tt))
  | inr off ↦ rw off wider
]
  where
    wider : Below (if ltb_ℤ top fd then fd else top) fds
    wider = Below-mono top (if ltb_ℤ top fd then fd else top) fds (ground arith) p

watch_clients-Below :
    (xs : List Slot) (fds : List ℤ) (top : ℤ)
    → Below top fds
    → Below (watch_clients xs (fds, top)).1 (watch_clients xs (fds, top)).0
unfolding watch_clients
watch_clients-Below [] fds top p = p
watch_clients-Below (x ∷ xs) fds top p =
    watch_clients-Below xs _ _ (watch_client-Below x.client_socket fds top p)

has_fd-append : (fd : ℤ) (xs ys : List ℤ) → has_fd fd (xs ++ ys) ≡ (has_fd fd xs || has_fd fd ys)
unfolding has_fd
has_fd-append fd [] ys = refl
has_fd-append fd (x ∷ xs) ys = ground (arith, has_fd-append fd xs ys)

-- Whether some slot holds the descriptor.
abbrev pub holds : ℤ → List Slot → Bool
holds fd [] = false
holds fd (x ∷ xs) = eq_ℤ fd x.client_socket || holds fd xs

watch_clients-has :
    (fd : ℤ) (xs : List Slot) (fds : List ℤ) (top : ℤ)
    → has_fd fd (watch_clients xs (fds, top)).0
      ≡ (has_fd fd fds || (ltb_ℤ minus_one fd && holds fd xs))
unfolding watch_clients has_fd
watch_clients-has fd [] fds top = ground arith
watch_clients-has fd (x ∷ xs) fds top = ground (
  arith,
  watch_clients-has fd xs (watch_client x.client_socket (fds, top)).0
      (watch_client x.client_socket (fds, top)).1,
  has_fd-append fd fds (x.client_socket ∷ []),
  eq_ℤ→eq fd x.client_socket,
)

-- Before `select`, the set holds the server's socket and the open sockets of the clients and nothing
-- else, and no descriptor in it is above `max_socket`, so the count `max_socket + 1` covers all.
pub watched_lem :
    (s : Server)
    → Below (watched s).1 (watched s).0
      × ((fd : ℤ)
          → has_fd fd (watched s).0
            ≡ (eq_ℤ fd s.server_socket || (ltb_ℤ minus_one fd && holds fd s.slots)))
unfolding watched has_fd
watched_lem s = (
  watch_clients-Below s.slots (s.server_socket ∷ []) s.server_socket (ground arith, tt),
  λ fd. ground (arith, watch_clients-has fd s.slots (s.server_socket ∷ []) s.server_socket),
)
