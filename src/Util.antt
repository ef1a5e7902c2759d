-- ===== src/Util.antt =====
-- hw7/util.h: the helpers that the chat server and the chat client share. (sharedmem/
-- sleepingprocesses.c and 392/lab 4/head.c carry copies of `is_integer`.)
pub mod Input
mod Examples
pub mod ParseInt
pub mod Show
use cs.Prelude.{
  ℕ, zero, suc, ◌+◌, ◌-◌, ◌*◌, ◌^◌, ◌≡◌, refl, Bool, true, false, ◌&&◌, ◌||◌, Option, none, some,
  List, [], ◌∷◌, Bytes, ltb, leb, ◌==◌, if◌then◌else◌,
}
use cs.Prelude.Int.{ℤ, pos, negsuc, neg_ℕ, eq_ℤ, wrap32}

abbrev pub max_msg_len : ℕ
max_msg_len = 1024

abbrev pub max_name_len : ℕ
max_name_len = 20

abbrev pub buflen : ℕ
buflen = max_msg_len + max_name_len + 4

unfoldable pub is_digit : ℕ → Bool
is_digit c = leb b'0' c && leb c b'9'

-- The loop of `is_integer` from its start index on.
unfoldable pub all_digits : Bytes → Bool
unfolding is_digit
all_digits [] = true
all_digits (c ∷ s) = is_digit c && all_digits s

abbrev is_empty : Bytes → Bool
is_empty [] = true
is_empty (c ∷ s) = false

unfoldable pub is_integer : Bytes → Bool
unfolding all_digits
is_integer [] = true
is_integer (c ∷ s) =
    if c == b'-' then (if is_empty s then false else all_digits s) else all_digits (c ∷ s)

-- `%lld` of sscanf: white space, an optional sign, digits up to the first other character. Out of
-- range the C library gives the nearest `long long`.
abbrev is_space : ℕ → Bool
is_space c = (c == b' ') || (leb 9 c && leb c 13)

unfoldable pub scan_digits : ℕ → Bytes → ℕ
unfolding is_digit
scan_digits acc [] = acc
scan_digits acc (c ∷ s) =
    let rest = scan_digits (acc * 10 + (c - b'0')) s in if is_digit c then rest else acc

abbrev pub clamp64 : Bool → ℕ → ℤ
clamp64 false n = if ltb n (2 ^ 63) then pos n else pos (2 ^ 63 - 1)
clamp64 true n = if leb n (2 ^ 63) then neg_ℕ n else neg_ℕ (2 ^ 63)

unfoldable pub scan_number : Bool → Bytes → Option ℤ
scan_number negative [] = none
scan_number negative (c ∷ s) =
    if is_digit c then some (clamp64 negative (scan_digits 0 (c ∷ s))) else none

unfoldable pub sscanf_lld : Bytes → Option ℤ
sscanf_lld [] = none
sscanf_lld (c ∷ s) =
    if is_space c
    then sscanf_lld s
    else if c == b'-'
    then scan_number true s
    else if c == b'+'
    then scan_number false s
    else scan_number false (c ∷ s)

-- `atoi`: the number at the front of the text, or 0.
abbrev pub atoi : Bytes → ℤ
atoi s = elim (sscanf_lld s) as (λ x. ℤ) [ none ↦ pos 0 | some z ↦ wrap32 z ]

pub data Complaint : Type 0 where
  empty_input : Complaint
  overflow : Complaint
  invalid_input : Complaint

-- What `parse_int` returns, what `*i` holds afterwards, and the message on stderr.
pub record Parsed : Type 0 where
  pub success : Bool
  pub value : ℤ
  pub complaint : Option Complaint

-- The branch of `parse_int` on the result of its test, with `z` for `long_long_i`.
abbrev pub store_int : ℤ → Option ℤ → Parsed
store_int i none = record { success = false; value = i; complaint = some invalid_input }
store_int i (some z) =
    if eq_ℤ z (wrap32 z)
    then record { success = true; value = wrap32 z; complaint = none }
    else record { success = false; value = wrap32 z; complaint = some overflow }

unfoldable pub parse_int : Bytes → ℤ → Parsed
parse_int [] i = record { success = false; value = i; complaint = some empty_input }
parse_int (c ∷ s) i = store_int i (if is_integer (c ∷ s) then sscanf_lld (c ∷ s) else none)
