-- ===== src/Ether.antt =====
-- src/utils/ether.ts: addresses as texts and as the byte strings of the database. `toLowerCase` is
-- modelled on ASCII letters, which is all that an address holds; `Buffer.from(_, 'hex')` stops at
-- the first pair that is not hexadecimal, as Node's does.
pub mod RoundTrip
pub mod Examples
use diamond_dev_tools.Prelude.{
  ℕ, ◌+◌, ◌-◌, ◌*◌, ◌/◌, ◌%◌, Bool, ◌&&◌, Option, none, some, List, [], ◌∷◌, map, leb, ltb, drop,
  Text, Buffer, if◌then◌else◌,
}

unfoldable pub lower_char : ℕ → ℕ
lower_char c = if leb b'A' c && leb c b'Z' then c + 32 else c

abbrev pub to_lower_case : Text → Text
to_lower_case = map lower_char

-- The value of a hexadecimal digit.
unfoldable pub hex_value : ℕ → Option ℕ
hex_value c =
    if leb b'0' c && leb c b'9'
    then some (c - 48)
    else if leb b'a' c && leb c b'f'
    then some (c - 87)
    else if leb b'A' c && leb c b'F'
    then some (c - 55)
    else none

-- One byte of two digits before the bytes that follow.
unfoldable pub hex_byte : Option ℕ → Option ℕ → Buffer → Buffer
hex_byte (some hi) (some lo) rest = (hi * 16 + lo) ∷ rest
hex_byte _ _ rest = []

unfoldable pub from_hex : Text → Buffer
unfolding hex_byte hex_value
from_hex (hi ∷ lo ∷ rest) = hex_byte (hex_value hi) (hex_value lo) (from_hex rest)
from_hex _ = []

unfoldable pub hex_digit : ℕ → ℕ
hex_digit v = if ltb v 10 then v + 48 else v + 87

unfoldable pub to_hex : Buffer → Text
unfolding hex_digit
to_hex [] = []
to_hex (b ∷ bs) = hex_digit (b / 16) ∷ hex_digit (b % 16) ∷ to_hex bs

unfoldable pub address_to_buffer : Text → Buffer
unfolding from_hex lower_char
address_to_buffer address = from_hex (drop 2 (to_lower_case address))

unfoldable pub buffer_to_address : Buffer → Text
unfolding to_hex lower_char
buffer_to_address buffer = b'0' ∷ b'x' ∷ to_lower_case (to_hex buffer)
