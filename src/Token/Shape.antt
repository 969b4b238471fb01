-- ===== src/Token/Shape.antt =====
-- The length and the alphabet of the tokens.
use coap_gateway.Prelude.{
  ℕ, ◌+◌, ◌*◌, ◌/◌, ◌%◌, ◌<◌, ◌≡◌, refl, List, [], ◌∷◌, ◌++◌, length, All, arith, some, Bool, true,
  ◌||◌, ◌&&◌, leb, ◌==◌,
}
use coap_gateway.Prelude.Text.{Text}
use coap_gateway.Token.{digit, encode_to_string, generate_random_string, token_entropy}

abbrev pub IsByte : ℕ → Type 0
IsByte b = b < 256

-- What may stand in a URL and in an HTTP header with no escape, and the padding.
abbrev pub is_token_char : ℕ → Bool
is_token_char c =
    (leb b'A' c && leb c b'Z')
    || (leb b'a' c && leb c b'z')
    || (leb b'0' c && leb c b'9')
    || c == b'-'
    || c == b'_'
    || c == b'='

pub length-encode_to_string :
    (bytes : List ℕ) → length (encode_to_string bytes) ≡ (length bytes + 2) / 3 * 4
unfolding encode_to_string
length-encode_to_string [] = refl
length-encode_to_string (a ∷ []) = refl
length-encode_to_string (a ∷ b ∷ []) = refl
length-encode_to_string (a ∷ b ∷ c ∷ bytes) = omega (arith, length-encode_to_string bytes)

pub digit-is_token_char : (n : ℕ) → is_token_char (digit n) ≡ true
unfolding digit
digit-is_token_char n = ground arith

pub encode_to_string_chars :
    (bytes : List ℕ) → All (λ c. is_token_char c ≡ true) (encode_to_string bytes)
unfolding encode_to_string
encode_to_string_chars [] = tt
encode_to_string_chars (a ∷ []) =
    (digit-is_token_char (a / 4), (digit-is_token_char (a % 4 * 16), (refl, (refl, tt))))
encode_to_string_chars (a ∷ b ∷ []) = (
  digit-is_token_char (a / 4),
  (digit-is_token_char (a % 4 * 16 + b / 16), (digit-is_token_char (b % 16 * 4), (refl, tt))),
)
encode_to_string_chars (a ∷ b ∷ c ∷ bytes) = (
  digit-is_token_char (a / 4),
  (
    digit-is_token_char (a % 4 * 16 + b / 16),
    (
      digit-is_token_char (b % 16 * 4 + c / 64),
      (digit-is_token_char (c % 64), encode_to_string_chars bytes),
    ),
  ),
)

pub encode_to_string_padded :
    (bytes : List ℕ)
    → 0 < length bytes % 3
    → (front : Text) × (encode_to_string bytes ≡ front ++ b'=' ∷ [])
unfolding encode_to_string
encode_to_string_padded [] h = absurd (omega arith)
encode_to_string_padded (a ∷ []) h = (digit (a / 4) ∷ digit (a % 4 * 16) ∷ b'=' ∷ [], refl)
encode_to_string_padded (a ∷ b ∷ []) h =
    (digit (a / 4) ∷ digit (a % 4 * 16 + b / 16) ∷ digit (b % 16 * 4) ∷ [], refl)
encode_to_string_padded (a ∷ b ∷ c ∷ bytes) h =
    let (front, e) = encode_to_string_padded bytes (omega arith) in
    (
      digit (a / 4)
          ∷ digit (a % 4 * 16 + b / 16)
          ∷ digit (b % 16 * 4 + c / 64)
          ∷ digit (c % 64)
          ∷ front,
      rw e,
    )

-- A token made from 32 random bytes is 44 characters long, so that it fits the varchar(45) columns
-- of the schema, holds only characters of the URL-safe alphabet and '=', and ends in '='.
pub generate_random_string_shape :
    (bytes : List ℕ) (token : Text)
    → length bytes ≡ token_entropy
    → generate_random_string (some bytes) ≡ some token
    → (length token ≡ 44)
      × All (λ c. is_token_char c ≡ true) token
      × ((front : Text) × (token ≡ front ++ b'=' ∷ []))
unfolding generate_random_string
generate_random_string_shape bytes token n e =
    let t : encode_to_string bytes ≡ token = ground arith in
    rw (← t) (
      omega (arith, length-encode_to_string bytes),
      encode_to_string_chars bytes,
      encode_to_string_padded bytes (omega arith),
    )
