-- ===== src/Javascript.antt =====
-- What the sources use of JavaScript's library on texts: `parseInt` (white space, digits and
-- letters of ASCII) and `split(' ')`.
use diamond_dev_tools.Prelude.{
  ℕ, ◌+◌, ◌*◌, Bool, ◌&&◌, ◌||◌, Option, none, some, List, [], ◌∷◌, leb, ltb, Text, ◌==◌, nat_eq,
  if◌then◌else◌,
}
use diamond_dev_tools.Prelude.Int.{ℤ, pos, neg}
use diamond_dev_tools.Ether.{hex_value}

unfoldable pub trim_start : Text → Text
trim_start [] = []
trim_start (c ∷ cs) = if c == 32 || leb 9 c && leb c 13 then trim_start cs else c ∷ cs

abbrev pub digit_below : ℕ → Option ℕ → Option ℕ
digit_below radix none = none
digit_below radix (some d) = if ltb d radix then some d else none

abbrev pub or_nothing : Option ℕ → ℕ
or_nothing none = 0
or_nothing (some n) = n

-- The number of the digits up to the first other character; none is NaN.
unfoldable pub parse_digits : ℕ → Option ℕ → Text → Option ℕ
unfolding hex_value
parse_digits radix before [] = before
parse_digits radix before (c ∷ cs) = elim (digit_below radix (hex_value c)) [
  | none ↦ before
  | some d ↦ parse_digits radix (some (or_nothing before * radix + d)) cs
]

unfoldable pub parse_magnitude : Text → Option ℕ
unfolding parse_digits
parse_magnitude (a ∷ b ∷ rest) =
    if a == b'0' && (b == b'x' || b == b'X')
    then parse_digits 16 none rest
    else parse_digits 10 none (a ∷ b ∷ rest)
parse_magnitude digits = parse_digits 10 none digits

abbrev pub with_sign : Bool → Option ℕ → Option ℤ
with_sign minus none = none
with_sign minus (some n) = some (if minus then neg (pos n) else pos n)

abbrev pub parse_signed : Text → Option ℤ
parse_signed [] = none
parse_signed (c ∷ cs) =
    if c == b'-' || c == b'+'
    then with_sign (c == b'-') (parse_magnitude cs)
    else with_sign (c == b'-') (parse_magnitude (c ∷ cs))

-- `parseInt(text)` without a radix.
unfoldable pub parse_int : Text → Option ℤ
unfolding trim_start parse_magnitude neg
parse_int text = parse_signed (trim_start text)

abbrev pub cons_first : ℕ → List Text → List Text
cons_first c [] = (c ∷ []) ∷ []
cons_first c (t ∷ ts) = (c ∷ t) ∷ ts

-- `text.split(' ')`.
unfoldable pub split : Text → List Text
split [] = [] ∷ []
split (c ∷ cs) = if c == 32 then [] ∷ split cs else cons_first c (split cs)
