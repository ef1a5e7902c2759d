-- ===== src/Util/Examples.antt =====
-- hw7/util.h: runs of the helpers, and their theorems at concrete inputs.
use cs.Prelude.{◌≡◌, refl, true, none, some, [], ◌∷◌, ◌++◌, Bytes, bytes, arith}
use cs.Prelude.Int.{pos, negsuc}
use cs.Util.{is_integer, parse_int, sscanf_lld, scan_number, scan_digits}
use cs.Util.Show.{show}
use cs.Util.ParseInt.{parse_int-show}
use cs.Util.Input.{ok, too_long, get_string, consume, cstr}
use cs.Util.Input.Terminal.{terminal, get_string-line, then_line}

abbrev port : Bytes
port = bytes "-8080"

show-port : show (negsuc 8079) ≡ port
unfolding show
show-port = refl

sscanf_saturates : sscanf_lld (bytes " +99999999999999999999x") ≡ some (pos 9223372036854775807)
unfolding sscanf_lld scan_number scan_digits
sscanf_saturates = refl

parse_int-show_example :
    parse_int (show (negsuc 8079)) (pos 5)
    ≡ record { success = true; value = negsuc 8079; complaint = none }
parse_int-show_example = parse_int-show (negsuc 8079) (pos 5) (omega arith)

port-success : (parse_int port (pos 0)).success ≡ true
unfolding parse_int is_integer sscanf_lld scan_number scan_digits
port-success = refl

abbrev hello : Bytes
hello = bytes "hello"

abbrev typed : Bytes
typed = then_line hello (bytes "bye\n")

-- A line of five bytes does not fit a buffer of five: the new line has no room.
get_string-line_example :
    get_string terminal typed 5
    ≡ some (record { status = too_long; buf = hello; rest = bytes "bye\n" })
get_string-line_example = get_string-line hello (bytes "bye\n") 5 (ground arith) (omega arith)

get_string_fits :
    get_string terminal typed 6
    ≡ some (record { status = ok; buf = hello ++ 0 ∷ []; rest = bytes "bye\n" })
unfolding terminal get_string consume cstr
get_string_fits = refl

parse_int_negative :
    parse_int (b'-' ∷ b'4' ∷ b'2' ∷ []) (pos 7)
    ≡ record { success = true; value = negsuc 41; complaint = none }
unfolding parse_int is_integer sscanf_lld scan_number scan_digits
parse_int_negative = refl
