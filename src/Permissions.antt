-- ===== src/Permissions.antt =====
-- 392/lab 5/permstat.c and 392/PermissionFinder/pfind.c: permission strings and permission bits.
pub mod Bits
pub mod Walk
pub mod Found
pub mod Options
mod Examples
use cs.Prelude.{
  ℕ, zero, suc, ◌+◌, ◌-◌, ◌*◌, ◌/◌, ◌%◌, ◌^◌, Bool, true, false, not, ◌&&◌, ◌||◌, Option, none,
  some, [], ◌∷◌, ◌++◌, Bytes, ◌==◌, if◌then◌else◌, length, get_elem?,
}

-- `st_mode & (1 << k)` is not 0.
abbrev pub has_bit : ℕ → ℕ → Bool
has_bit k mode = mode / 2 ^ k % 2 == 1

abbrev pub flag : ℕ → ℕ → ℕ → ℕ
flag c k mode = if has_bit k mode then c else b'-'

-- The body of the loop of `permission_string`, for the bits from `k` on.
abbrev pub triple : ℕ → ℕ → Bytes
triple k mode = flag b'r' (k + 2) mode ∷ flag b'w' (k + 1) mode ∷ flag b'x' k mode ∷ []

abbrev pub permission_string : ℕ → Bytes
permission_string mode = b'-' ∷ triple 6 mode ++ triple 3 mode ++ triple 0 mode

abbrev pub is_flag : ℕ → ℕ → Bool
is_flag c x = (x == c) || (x == b'-')

-- The checks of the string in steps of three.
abbrev pub valid_triples : Bytes → Bool
valid_triples (r ∷ w ∷ x ∷ rest) =
    is_flag b'r' r && is_flag b'w' w && is_flag b'x' x && valid_triples rest
valid_triples s = true

abbrev pub valid_permissions : Bytes → Bool
valid_permissions s = (length s == 9) && valid_triples s

abbrev pub char_at : Bytes → ℕ → ℕ
char_at s k = elim (get_elem? s k) as (λ x. ℕ) [ none ↦ 0 | some c ↦ c ]

-- The loop that adds up the bits, with `n` rounds left from `i` on.
unfoldable pub add_bits : ℕ → ℕ → ℕ → ℕ → Bytes → ℕ
add_bits zero i shifterbit int1 s = int1
add_bits (suc n) i shifterbit int1 s =
    add_bits n (suc i) (shifterbit * 2)
      (if char_at s (8 - i) == b'-' then int1 else int1 + shifterbit) s

-- `main` of pfind from the check of the string to the first call of `findpaths`: `none` is the error.
unfoldable pub permission_bits : Bytes → Option ℕ
permission_bits s = if valid_permissions s then some (add_bits 9 0 1 0 s) else none

-- `st_mode - (st_mode & S_IFMT)`: the type is in the four bits from 12 on.
abbrev pub without_type : ℕ → ℕ
without_type mode = mode - mode / 2 ^ 12 % 2 ^ 4 * 2 ^ 12

abbrev pub matches : ℕ → ℕ → Bool
matches permint mode = without_type mode == permint
