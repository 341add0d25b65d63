-- ===== src/Json/Scan/Numbers.antt =====
-- The part of the scanner of `encoding/json` for number literals.
use go_socket_io.Base.{
  ℕ, Bool, true, false, ◌&&◌, ◌||◌, Option, none, some, leb, ◌==◌, if◌then◌else◌,
}

-- Inside a number: after the minus, the leading zero, the other digits, the point and so on.
pub data Number : Type 0 where
  minus leading_zero digits point fraction exponent exponent_sign exponent_digits : Number

abbrev pub is_digit : ℕ → Bool
is_digit c = leb b'0' c && leb c b'9'

unfoldable pub number_start : ℕ → Option Number
number_start c =
    if c == b'-'
    then some minus
    else if c == b'0'
    then some leading_zero
    else if is_digit c
    then some digits
    else none

abbrev at_exponent : ℕ → Option Number
at_exponent c = if c == b'e' || c == b'E' then some exponent else none

-- The next state, while the number goes on.
unfoldable pub number_next : Number → ℕ → Option Number
number_next minus c =
    if c == b'0' then some leading_zero else if is_digit c then some digits else none
number_next leading_zero c = if c == b'.' then some point else at_exponent c
number_next digits c =
    if is_digit c then some digits else if c == b'.' then some point else at_exponent c
number_next point c = if is_digit c then some fraction else none
number_next fraction c = if is_digit c then some fraction else at_exponent c
number_next exponent c =
    if c == b'+' || c == b'-'
    then some exponent_sign
    else if is_digit c
    then some exponent_digits
    else none
number_next exponent_sign c = if is_digit c then some exponent_digits else none
number_next exponent_digits c = if is_digit c then some exponent_digits else none

-- Whether a number may end here.
unfoldable pub number_end : Number → Bool
number_end leading_zero = true
number_end digits = true
number_end fraction = true
number_end exponent_digits = true
number_end _ = false
