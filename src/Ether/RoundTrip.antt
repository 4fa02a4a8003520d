-- ===== src/Ether/RoundTrip.antt =====
-- Addresses and buffers of src/utils/ether.ts, there and back.
use diamond_dev_tools.Prelude.{
  ℕ, ◌+◌, ◌*◌, ◌/◌, ◌%◌, ◌<◌, ◌≡◌, refl, ap, ◌≢◌, none, some, [], ◌∷◌, arith, All, Option-cases,
  inl, inr, sym, ◌∙◌, ◌↔◌, drop, Text, Buffer,
}
use diamond_dev_tools.Ether.{
  lower_char, to_lower_case, hex_value, from_hex, hex_digit, to_hex, address_to_buffer,
  buffer_to_address,
}

abbrev pub IsByte : ℕ → Type 0
IsByte b = b < 256

abbrev pub IsHexDigit : ℕ → Type 0
IsHexDigit c = hex_value c ≢ none

hex_value-lower_char-hex_digit : (v : ℕ) → v < 16 → hex_value (lower_char (hex_digit v)) ≡ some v
unfolding hex_value hex_digit lower_char
hex_value-lower_char-hex_digit v h = ground arith

lower_char-idempotent : (c : ℕ) → lower_char (lower_char c) ≡ lower_char c
unfolding lower_char
lower_char-idempotent c = ground arith

pub hex_value-lower_char : (c : ℕ) → hex_value (lower_char c) ≡ hex_value c
unfolding hex_value lower_char
hex_value-lower_char c = ground arith

hex_digit_of_value : (c v : ℕ) → hex_value c ≡ some v → hex_digit v ≡ lower_char c
unfolding hex_value hex_digit lower_char
hex_digit_of_value c v h = ground arith

hex_value-lt : (c v : ℕ) → hex_value c ≡ some v → v < 16
unfolding hex_value
hex_value-lt c v h = ground arith

pub lower-idempotent : (s : Text) → to_lower_case (to_lower_case s) ≡ to_lower_case s
lower-idempotent [] = refl
lower-idempotent (c ∷ s) = cc (lower_char-idempotent c, lower-idempotent s)

pub from_hex-to_hex : (bs : Buffer) → All IsByte bs → from_hex (to_lower_case (to_hex bs)) ≡ bs
unfolding from_hex to_hex
from_hex-to_hex [] h = refl
from_hex-to_hex (b ∷ bs) (h, hs) =
    rw
      (
        hex_value-lower_char-hex_digit (b / 16) (omega arith),
        hex_value-lower_char-hex_digit (b % 16) (omega arith),
        from_hex-to_hex bs hs,
      )
      (ap (λ (x : ℕ). x ∷ bs) (omega arith))

lower_char-hex_digit : (v : ℕ) → v < 16 → lower_char (hex_digit v) ≡ hex_digit v
unfolding hex_digit lower_char
lower_char-hex_digit v h = ground arith

pub to_lower_case-to_hex : (bs : Buffer) → All IsByte bs → to_lower_case (to_hex bs) ≡ to_hex bs
unfolding to_hex
to_lower_case-to_hex [] h = refl
to_lower_case-to_hex (b ∷ bs) (h, hs) = cc (
  lower_char-hex_digit (b / 16) (omega arith),
  lower_char-hex_digit (b % 16) (omega arith),
  to_lower_case-to_hex bs hs,
)

-- A buffer of bytes, written as an address and read back, is the same buffer.
pub address_to_buffer-buffer_to_address :
    (bs : Buffer) → All IsByte bs → address_to_buffer (buffer_to_address bs) ≡ bs
unfolding address_to_buffer buffer_to_address
address_to_buffer-buffer_to_address bs h = rw (lower-idempotent (to_hex bs)) (from_hex-to_hex bs h)

-- Hexadecimal digits in pairs, in either case.
abbrev pub IsHex : Text → Type 0
IsHex [] = Unit
IsHex (c ∷ []) = ⊥
IsHex (c ∷ d ∷ s) = IsHexDigit c × IsHexDigit d × IsHex s

-- "0x" and whole bytes in hexadecimal.
abbrev pub IsAddress : Text → Type 0
IsAddress a = (digits : Text) × (a ≡ b'0' ∷ b'x' ∷ digits) × IsHex digits

to_hex-from_hex : (s : Text) → IsHex s → to_hex (from_hex (to_lower_case s)) ≡ to_lower_case s
unfolding from_hex to_hex
to_hex-from_hex [] h = refl
to_hex-from_hex (c ∷ []) h = absurd h
to_hex-from_hex (c ∷ d ∷ s) (hc, hd, hs) = elim (Option-cases (hex_value c)) [
  | inl e ↦ absurd (hc e)
  | inr (v, e) ↦ elim (Option-cases (hex_value d)) [
    | inl e' ↦ absurd (hd e')
    | inr (w, e') ↦
        rw (hex_value-lower_char c, hex_value-lower_char d, e, e')
          (pair_digits v w (hex_value-lt c v e) (hex_value-lt d w e') (hex_digit_of_value c v e)
            (hex_digit_of_value d w e') (to_hex-from_hex s hs))
  ]
]
  where
    pair_digits :
        (v w : ℕ)
        → v < 16
        → w < 16
        → hex_digit v ≡ lower_char c
        → hex_digit w ≡ lower_char d
        → to_hex (from_hex (to_lower_case s)) ≡ to_lower_case s
        → to_hex ((v * 16 + w) ∷ from_hex (to_lower_case s)) ≡ to_lower_case (c ∷ d ∷ s)
    pair_digits v w hv hw p q r =
        let high : (v * 16 + w) / 16 ≡ v = omega arith in
        let low : (v * 16 + w) % 16 ≡ w = omega arith in rw (high, low, p, q, r)

to_lower_case-prefix : (s : Text) → to_lower_case (b'0' ∷ b'x' ∷ s) ≡ b'0' ∷ b'x' ∷ to_lower_case s
unfolding lower_char
to_lower_case-prefix s = refl

-- An address that is stored as a buffer and read back is the address in lower case.
pub buffer_to_address-address_to_buffer :
    (a : Text) → IsAddress a → buffer_to_address (address_to_buffer a) ≡ to_lower_case a
unfolding address_to_buffer buffer_to_address
buffer_to_address-address_to_buffer a (s, e, h) =
    rw (e, to_lower_case-prefix s, to_hex-from_hex s h, lower-idempotent s)

-- Two addresses have the same buffer exactly when they differ in the case of letters at most.
pub address_to_buffer-eq_iff :
    (a b : Text)
    → IsAddress a
    → IsAddress b
    → (address_to_buffer a ≡ address_to_buffer b) ↔ (to_lower_case a ≡ to_lower_case b)
address_to_buffer-eq_iff a b ha hb = (
  λ e.
      sym (buffer_to_address-address_to_buffer a ha)
      ∙ (ap buffer_to_address e ∙ buffer_to_address-address_to_buffer b hb),
  λ e. unfold address_to_buffer in ap (λ s. from_hex (drop 2 s)) e,
)
