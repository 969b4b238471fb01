-- ===== src/Server/Numbers.antt =====
-- strconv.Atoi: a decimal integer with an optional sign, in 64 bits.
pub mod Decimal
use coap_gateway.Prelude.{
  ℕ, zero, suc, ◌+◌, ◌-◌, ◌*◌, Bool, true, false, ◌&&◌, List, [], ◌∷◌, leb, ltb, ◌==◌,
  if◌then◌else◌,
}
use coap_gateway.Prelude.Int.{ℤ, pos, negsuc}
use coap_gateway.Prelude.Text.{Text}

abbrev pub is_digit : ℕ → Bool
is_digit c = leb b'0' c && leb c b'9'

-- What ParseUint finds: a value, one above 64 bits, or a character that is no digit, whichever comes
-- first.
pub data Parsed : Type 0 where
  number : ℕ → Parsed
  too_large bad_syntax : Parsed

unfoldable pub parse_digits : ℕ → Text → Parsed
parse_digits n [] = number n
parse_digits n (c ∷ s) = elim (is_digit c) [
  | false ↦ bad_syntax
  | true ↦ elim (ltb (n * 10 + (c - b'0')) 18446744073709551616) [
    | false ↦ too_large
    | true ↦ parse_digits (n * 10 + (c - b'0')) s
  ]
]

unfoldable pub parse_uint : Text → Parsed
unfolding parse_digits
parse_uint [] = bad_syntax
parse_uint (c ∷ s) = parse_digits 0 (c ∷ s)

-- The value, and whether there is an error: beside an error of the syntax the value is 0, beside
-- one of the range it is the bound.
abbrev pub positive : Parsed → ℤ × Bool
positive (number n) =
    if ltb n 9223372036854775808 then (pos n, false) else (pos 9223372036854775807, true)
positive too_large = (pos 9223372036854775807, true)
positive bad_syntax = (pos 0, true)

abbrev pub minus : ℕ → ℤ
minus zero = pos 0
minus (suc n) = negsuc n

abbrev pub negative : Parsed → ℤ × Bool
negative (number n) =
    if leb n 9223372036854775808 then (minus n, false) else (negsuc 9223372036854775807, true)
negative too_large = (negsuc 9223372036854775807, true)
negative bad_syntax = (pos 0, true)

unfoldable pub atoi : Text → ℤ × Bool
unfolding parse_uint
atoi [] = (pos 0, true)
atoi (c ∷ s) =
    if c == b'-'
    then negative (parse_uint s)
    else (if c == b'+' then positive (parse_uint s) else positive (parse_uint (c ∷ s)))
