-- ===== src/Server/Welcome.antt =====
-- hw7/chatserver.c: the length of the welcome message.
use cs.Prelude.{
  ℕ, ◌+◌, ◌*◌, ◌≤◌, ◌<◌, ◌≡◌, refl, List, [], ◌∷◌, ◌++◌, Bytes, bytes, length, length-append, All,
  arith, Bool-cases, inl, inr, ◌∙◌,
}
use cs.Prelude.Int.{pos, eq_ℤ}
use cs.Server.State.{outbuf_size, Slot, Server, Run, Ends, ends, Ends-bind, Ends-mono, write_string}
use cs.Server.Messages.{
  user_names, insert_name, sort_names, append_names, strcat, list_users, create_welcome_msg,
}
use cs.Server.Invariant.{live, IsSlot, IsConsistent}
use cs.Server.Texts.{write_string-done}

-- Each name with the ", " before it.
pub total : List Bytes → ℕ
total [] = 0
total (n ∷ ns) = length n + 2 + total ns

total-insert_name : (n : Bytes) (ns : List Bytes) → total (insert_name n ns) ≡ total (n ∷ ns)
unfolding total insert_name
total-insert_name n [] = refl
total-insert_name n (m ∷ ms) = ground (arith, total-insert_name n ms)

total-cons :
    (n : Bytes) (ms ns : List Bytes) → total ms ≡ total ns → total (n ∷ ms) ≡ total (n ∷ ns)
unfolding total
total-cons n ms ns e = omega arith

total-sort_names : (ns : List Bytes) → total (sort_names ns) ≡ total ns
unfolding sort_names
total-sort_names [] = refl
total-sort_names (n ∷ ns) =
    total-insert_name n (sort_names ns) ∙ total-cons n _ _ (total-sort_names ns)

total-user_names : (xs : List Slot) → All IsSlot xs → total (user_names xs) ≤ length xs * 22
unfolding total user_names
total-user_names [] h = omega arith
total-user_names (x ∷ xs) h = ground (arith, total-user_names xs h.1, h.0)

total-live : (xs : List Slot) → All IsSlot xs → 0 < live xs → 0 < total (user_names xs)
unfolding total user_names live
total-live [] h p = absurd (omega arith)
total-live (x ∷ xs) h p = ground (arith, total-live xs h.1, h.0)

-- A run that ends with a text of the given length.
abbrev EndsWith : ℕ → Run Bytes → Type 0
EndsWith k = Ends (λ b. length b ≡ k)

strcat-Ends :
    (k : ℕ) (b s : Bytes) → length b + length s ≡ k → k < outbuf_size → EndsWith k (strcat b s)
strcat-Ends k b s e h =
    rw (write_string-done outbuf_size (b ++ s) (omega (arith, length-append b s)))
      (ends (omega (arith, length-append b s)))

append_names-Ends :
    (k : ℕ) (ns : List Bytes) (b : Bytes)
    → length b + total ns ≡ k
    → k < outbuf_size
    → EndsWith k (append_names b ns)
unfolding append_names total
append_names-Ends k [] b e h = ends (omega arith)
append_names-Ends k (n ∷ ns) b e h =
    Ends-bind (strcat-Ends (length b + 2) b (bytes ", ") refl (omega arith)) λ b' e'.
      Ends-bind (strcat-Ends (length b + 2 + length n) b' n (omega arith) (omega arith))
        λ b'' e''. append_names-Ends k ns b'' (omega arith) h

list_users-Ends :
    (b : Bytes) (ns : List Bytes)
    → 0 < total ns
    → length b + total ns + 21 < outbuf_size
    → Ends (λ c. length c < outbuf_size) (list_users b ns)
unfolding total
list_users-Ends b [] p h = absurd (omega arith)
list_users-Ends b (n ∷ ns) p h =
    Ends-bind (strcat-Ends (length b + 20) b _ (omega arith) (omega arith)) λ b1 e1.
      Ends-bind (strcat-Ends (length b + 20 + length n) b1 n (omega arith) (omega arith)) λ b2 e2.
        Ends-bind
          (append_names-Ends (length b + 20 + length n + total ns) ns b2 (omega arith)
            (omega arith))
          λ b3 e3.
            Ends-mono
              (strcat-Ends (length b + 21 + length n + total ns) b3 _ (omega arith) (omega arith))
              λ b4 e4. omega arith

-- The welcome message always fits `outbuf`, whoever is connected, and `names[0]` is always set
-- where it is read.
pub create_welcome_msg-Ends :
    (s : Server) → IsConsistent s → Ends (λ b. length b < outbuf_size) (create_welcome_msg s)
unfolding create_welcome_msg write_string
create_welcome_msg-Ends s c = elim (Bool-cases (eq_ℤ s.num_connections (pos 0))) [
  | inl none_yet ↦ rw none_yet (ends (omega arith))
  | inr some_one ↦ rw some_one (
      list_users-Ends (bytes "*** Welcome to CS 392 Chat Server v1.0 ***")
        (sort_names (user_names s.slots))
        (ground
          (arith, total-sort_names (user_names s.slots), total-live s.slots c.table, c.counted))
        (omega
          (arith, total-sort_names (user_names s.slots), total-user_names s.slots c.table, c.size)))
]
