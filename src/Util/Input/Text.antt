-- ===== src/Util/Input/Text.antt =====
-- `get_string` of hw7/util.h: what its caller finds in the buffer after OK.
use cs.Prelude.{
  ℕ, ◌+◌, ◌≤◌, ◌<◌, ◌≡◌, refl, some, [], ◌∷◌, Bytes, ◌==◌, arith, length, Bool-cases, inl, inr,
  Option,
}
use cs.Util.Input.{
  ReadResult, failed, got, Stdin, ParseString, ok, no_input, cstr, newline, Reply, get_string,
  end_last, last_byte, after_line, finish, consume-total,
}

cstr-end_last : (c : ℕ) (b : Bytes) → length (cstr (end_last (c ∷ b))) ≤ length b
unfolding cstr
cstr-end_last c [] = omega arith
cstr-end_last c (d ∷ b) = ground (arith, cstr-end_last d b)

-- A text for `send`: not empty, and shorter than the buffer.
abbrev pub IsText : ℕ → Bytes → Type 0
IsText sz s = (0 < length s) × (length s < sz)

ok-nonempty :
    (b : Bytes) → (elim b as (λ x. ParseString) [ [] ↦ no_input | c ∷ s ↦ ok ]) ≡ ok → 0 < length b
ok-nonempty [] e = ground arith
ok-nonempty (c ∷ b) e = omega arith

-- `get_string` returns, and where its status is OK, the buffer holds a text.
pub data Answers {S : Type 0} (sz : ℕ) : Option (Reply S) → Type 0 where
  answers : (r : Reply S) → (r.status ≡ ok → IsText sz (cstr r.buf)) → Answers sz (some r)

module _ {S : Type 0} (io : Stdin S) where
  finish-IsText :
      (sz c : ℕ) (b : Bytes) (t : S)
      → length (c ∷ b) ≤ sz
      → (finish io (c ∷ b) t).status ≡ ok
      → IsText sz (cstr (end_last (c ∷ b)))
  finish-IsText sz c b t h e =
      (ok-nonempty (cstr (end_last (c ∷ b))) e, omega (arith, cstr-end_last c b))

  after_line-Answers :
      (sz : ℕ) (r : ReadResult × S)
      → ((b : Bytes) (t : S) → r ≡ (got b, t) → length b ≤ sz)
      → Answers sz (after_line io r)
  after_line-Answers sz (failed, t) h = answers _ (λ e. ground arith)
  after_line-Answers sz (got [], t) h = answers _ (λ e. ground arith)
  after_line-Answers sz (got (c ∷ b), t) h = elim (Bool-cases (last_byte (c ∷ b) == newline)) [
    | inl end ↦ rw end (answers (finish io (c ∷ b) t) (finish-IsText sz c b t (h (c ∷ b) t refl)))
    | inr more ↦
        let (u, e) = consume-total io (io.left t + 1) t (omega arith) in
        rw (more, e) (answers _ (λ k. ground arith))
  ]

  pub get_string-Answers : (s : S) (sz : ℕ) → Answers sz (get_string io s sz)
  unfolding get_string
  get_string-Answers s sz = after_line-Answers sz (io.read s sz) (λ b t e. io.bounded s sz b t e)
