-- ===== src/Token.antt =====
-- GenerateRandomString of pkg/registry/mysqlredisregistry.go, with encoding/base64's URLEncoding.
pub mod Shape
pub mod Unique
use coap_gateway.Prelude.{
  ℕ, zero, suc, ◌+◌, ◌-◌, ◌*◌, ◌/◌, ◌%◌, List, [], ◌∷◌, ltb, ◌==◌, if◌then◌else◌, Option, none,
  some,
}
use coap_gateway.Prelude.Text.{Text}

-- The character for a six-bit digit: A-Z, a-z, 0-9, '-', '_'.
pub digit : ℕ → ℕ
digit n =
    if ltb n 26
    then n + b'A'
    else if ltb n 52
    then n - 26 + b'a'
    else if ltb n 62
    then n - 52 + b'0'
    else if n == 62
    then b'-'
    else b'_'

-- base64.URLEncoding.EncodeToString
unfoldable pub encode_to_string : List ℕ → Text
unfolding digit
encode_to_string [] = []
encode_to_string (a ∷ []) = digit (a / 4) ∷ digit (a % 4 * 16) ∷ b'=' ∷ b'=' ∷ []
encode_to_string (a ∷ b ∷ []) =
    digit (a / 4) ∷ digit (a % 4 * 16 + b / 16) ∷ digit (b % 16 * 4) ∷ b'=' ∷ []
encode_to_string (a ∷ b ∷ c ∷ bytes) =
    digit (a / 4)
    ∷ digit (a % 4 * 16 + b / 16)
    ∷ digit (b % 16 * 4 + c / 64)
    ∷ digit (c % 64)
    ∷ encode_to_string bytes

-- GenerateRandomString, given what `rand.Read` does to the buffer: `none` for its error.
-- The result is `none` for the returned error (the string is then empty).
unfoldable pub generate_random_string : Option (List ℕ) → Option Text
generate_random_string none = none
generate_random_string (some bytes) = some (encode_to_string bytes)

-- tokenEntropy, the length of the buffer
abbrev pub token_entropy : ℕ
token_entropy = 32
