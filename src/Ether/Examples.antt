-- ===== src/Ether/Examples.antt =====
-- Addresses on concrete texts.
use diamond_dev_tools.Prelude.{◌≡◌, refl, [], ◌∷◌, Text}
use diamond_dev_tools.Ether.{address_to_buffer, buffer_to_address, to_lower_case, hex_value}
use diamond_dev_tools.Ether.RoundTrip.{IsHexDigit, IsAddress, buffer_to_address-address_to_buffer}

abbrev pub small_pool : Text
small_pool = b'0' ∷ b'x' ∷ b'1' ∷ b'A' ∷ []

abbrev same_pool : Text
same_pool = b'0' ∷ b'x' ∷ b'1' ∷ b'a' ∷ []

digit_one : IsHexDigit b'1'
unfolding hex_value
digit_one h = cc

digit_capital : IsHexDigit b'A'
unfolding hex_value
digit_capital h = cc

digit_small : IsHexDigit b'a'
unfolding hex_value
digit_small h = cc

small_pool-IsAddress : IsAddress small_pool
small_pool-IsAddress = (b'1' ∷ b'A' ∷ [], refl, (digit_one, digit_capital, tt))

same_pool-IsAddress : IsAddress same_pool
same_pool-IsAddress = (b'1' ∷ b'a' ∷ [], refl, (digit_one, digit_small, tt))

buffer_to_address-address_to_buffer_example :
    buffer_to_address (address_to_buffer small_pool) ≡ to_lower_case small_pool
buffer_to_address-address_to_buffer_example =
    buffer_to_address-address_to_buffer small_pool small_pool-IsAddress
