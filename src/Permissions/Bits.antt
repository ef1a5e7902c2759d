-- ===== src/Permissions/Bits.antt =====
-- 392/lab 5/permstat.c and 392/PermissionFinder/pfind.c: the string that permstat shows is one that
-- pfind reads.
use cs.Prelude.{
  ℕ, zero, suc, ◌+◌, ◌-◌, ◌%◌, ◌^◌, ◌≡◌, refl, ◌∙◌, ap, true, false, some, Bytes, ltb, ◌==◌,
  if◌then◌else◌, arith, Bool-cases, inl, inr, drop,
}
use native.Mathlib.Nat.{pow-suc}
use cs.Permissions.{
  char_at, has_bit, flag, permission_string, is_flag, valid_permissions, add_bits, permission_bits,
  matches, without_type,
}

flag-valid : (c k mode : ℕ) → is_flag c (flag c k mode) ≡ true
flag-valid c k mode = elim (Bool-cases (has_bit k mode)) [
  | inl on ↦ rw on (ground arith)
  | inr off ↦ rw off (ground arith)
]

-- What a character of the string adds.
flag-adds :
    (c k mode sum : ℕ) (weight : ℕ)
    → (c == b'-') ≡ false
    → (if flag c k mode == b'-' then sum else sum + weight)
      ≡ sum + (if has_bit k mode then weight else 0)
flag-adds c k mode sum weight h = elim (Bool-cases (has_bit k mode)) [
  | inl on ↦ rw (on, h) refl
  | inr off ↦ rw off (ground arith)
]

adds : ℕ → ℕ → ℕ
adds k mode = if has_bit k mode then 2 ^ k else 0

bits : ℕ → ℕ → ℕ
bits zero mode = 0
bits (suc k) mode = bits k mode + adds k mode

low_half : (mode : ℕ) → bits 5 mode ≡ mode % 32
unfolding bits adds
low_half mode = ground arith

nine_bits : (mode : ℕ) → bits 9 mode ≡ mode % 512
unfolding bits adds
nine_bits mode = rw (low_half mode) (ground arith)

add_step :
    (n k c mode : ℕ) (s : Bytes)
    → char_at s (8 - k) ≡ flag c k mode
    → (c == b'-') ≡ false
    → add_bits (suc n) k (2 ^ k) (bits k mode) s
      ≡ add_bits n (suc k) (2 ^ suc k) (bits (suc k) mode) s
unfolding add_bits bits adds
add_step n k c mode s e h =
    let sum : (if flag c k mode == b'-' then bits k mode else bits k mode + 2 ^ k)
        ≡ bits (suc k) mode =
      flag-adds c k mode (bits k mode) (2 ^ k) h in
    rw (e, sum, pow-suc 2 k) refl

add_bits-permission_string :
    (mode : ℕ) → add_bits 9 0 1 0 (drop 1 (permission_string mode)) ≡ mode % 512
unfolding bits
add_bits-permission_string mode =
    let s = drop 1 (permission_string mode) in
    add_step 8 0 b'x' mode s refl refl
    ∙ add_step 7 1 b'w' mode s refl refl
    ∙ add_step 6 2 b'r' mode s refl refl
    ∙ add_step 5 3 b'x' mode s refl refl
    ∙ add_step 4 4 b'w' mode s refl refl
    ∙ add_step 3 5 b'r' mode s refl refl
    ∙ add_step 2 6 b'x' mode s refl refl
    ∙ add_step 1 7 b'w' mode s refl refl
    ∙ add_step 0 8 b'r' mode s refl refl
    ∙ (unfold add_bits in nine_bits mode)

string-valid : (mode : ℕ) → valid_permissions (drop 1 (permission_string mode)) ≡ true
string-valid mode =
    rw
      (
        flag-valid b'r' 8 mode,
        flag-valid b'w' 7 mode,
        flag-valid b'x' 6 mode,
        flag-valid b'r' 5 mode,
        flag-valid b'w' 4 mode,
        flag-valid b'x' 3 mode,
        flag-valid b'r' 2 mode,
        flag-valid b'w' 1 mode,
        flag-valid b'x' 0 mode,
      )
      refl

-- What permstat shows of a regular file's mode, behind the first dash, pfind takes, and reads as the
-- nine permission bits of the mode. A search for them finds the file just when its mode, without the
-- type, has no other bits, like those for set-user-ID, set-group-ID and sticky.
pub permission_bits-permission_string :
    (mode : ℕ)
    → (permission_bits (drop 1 (permission_string mode)) ≡ some (mode % 512))
      × (matches (mode % 512) mode ≡ ltb (without_type mode) 512)
unfolding permission_bits
permission_bits-permission_string mode =
    (rw (string-valid mode) (ap some (add_bits-permission_string mode)), ground arith)
