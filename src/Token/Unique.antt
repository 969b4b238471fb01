-- ===== src/Token/Unique.antt =====
-- Different random bytes give different tokens.
use coap_gateway.Prelude.{
  ℕ, ◌+◌, ◌*◌, ◌/◌, ◌%◌, ◌<◌, ◌≡◌, refl, List, [], ◌∷◌, All, arith, some, ◌≢◌,
}
use coap_gateway.Token.{digit, encode_to_string, generate_random_string}
use coap_gateway.Token.Shape.{IsByte}

digit-injective : (m n : ℕ) → m < 64 → n < 64 → digit m ≡ digit n → m ≡ n
unfolding digit
digit-injective m n hm hn e = ground arith

digit-ne-pad : (n : ℕ) → digit n ≢ b'='
unfolding digit
digit-ne-pad n e = ground arith

-- The digits of a group give its bytes back.
one_byte :
    (a a' : ℕ)
    → IsByte a
    → IsByte a'
    → digit (a / 4) ≡ digit (a' / 4)
    → digit (a % 4 * 16) ≡ digit (a' % 4 * 16)
    → a ≡ a'
one_byte a a' ha ha' d e = omega (
  arith,
  digit-injective (a / 4) (a' / 4) (omega arith) (omega arith) d,
  digit-injective (a % 4 * 16) (a' % 4 * 16) (omega arith) (omega arith) e,
)

module _ (a b a' b' : ℕ) (ha : IsByte a) (hb : IsByte b) (ha' : IsByte a') (hb' : IsByte b') where
  abbrev SameHead : Type 0
  SameHead =
      (digit (a / 4) ≡ digit (a' / 4))
      × (digit (a % 4 * 16 + b / 16) ≡ digit (a' % 4 * 16 + b' / 16))

  first_byte : SameHead → (a ≡ a') × (b / 16 ≡ b' / 16)
  first_byte (d, e) = omega (
    arith,
    digit-injective (a / 4) (a' / 4) (omega arith) (omega arith) d,
    digit-injective (a % 4 * 16 + b / 16) (a' % 4 * 16 + b' / 16) (omega arith) (omega arith) e,
  )

  two_bytes : SameHead → digit (b % 16 * 4) ≡ digit (b' % 16 * 4) → (a ≡ a') × (b ≡ b')
  two_bytes h e = omega (
    arith,
    first_byte h,
    digit-injective (b % 16 * 4) (b' % 16 * 4) (omega arith) (omega arith) e,
  )

  three_bytes :
      (c c' : ℕ)
      → IsByte c
      → IsByte c'
      → SameHead
      → digit (b % 16 * 4 + c / 64) ≡ digit (b' % 16 * 4 + c' / 64)
      → digit (c % 64) ≡ digit (c' % 64)
      → (a ≡ a') × (b ≡ b') × (c ≡ c')
  three_bytes c c' hc hc' h d e = omega (
    arith,
    first_byte h,
    digit-injective (b % 16 * 4 + c / 64) (b' % 16 * 4 + c' / 64) (omega arith) (omega arith) d,
    digit-injective (c % 64) (c' % 64) (omega arith) (omega arith) e,
  )

-- The head and the tail of an equation between texts.
uncons : {x y : ℕ} {xs ys : List ℕ} → x ∷ xs ≡ y ∷ ys → (x ≡ y) × (xs ≡ ys)
uncons h = (cc, cc)

pub encode_to_string-injective :
    (xs ys : List ℕ)
    → All IsByte xs
    → All IsByte ys
    → encode_to_string xs ≡ encode_to_string ys
    → xs ≡ ys
unfolding encode_to_string
encode_to_string-injective [] [] hx hy e = refl
encode_to_string-injective [] (a ∷ []) hx hy e = cc
encode_to_string-injective [] (a ∷ b ∷ []) hx hy e = cc
encode_to_string-injective [] (a ∷ b ∷ c ∷ ys) hx hy e = cc
encode_to_string-injective (a ∷ []) [] hx hy e = cc
encode_to_string-injective (a ∷ b ∷ []) [] hx hy e = cc
encode_to_string-injective (a ∷ b ∷ c ∷ xs) [] hx hy e = cc
encode_to_string-injective (a ∷ []) (a' ∷ []) hx hy e = cc (one_byte a a' hx.0 hy.0 (cc) (cc))
encode_to_string-injective (a ∷ []) (a' ∷ b' ∷ []) hx hy e =
    absurd (digit-ne-pad (b' % 16 * 4) (cc))
encode_to_string-injective (a ∷ []) (a' ∷ b' ∷ c' ∷ ys) hx hy e =
    absurd (digit-ne-pad (c' % 64) (cc))
encode_to_string-injective (a ∷ b ∷ []) (a' ∷ []) hx hy e = absurd (digit-ne-pad (b % 16 * 4) (cc))
encode_to_string-injective (a ∷ b ∷ []) (a' ∷ b' ∷ []) hx hy e =
    let (p, q) = two_bytes a b a' b' hx.0 hx.1.0 hy.0 hy.1.0 (cc, cc) (cc) in cc
encode_to_string-injective (a ∷ b ∷ []) (a' ∷ b' ∷ c' ∷ ys) hx hy e =
    absurd (digit-ne-pad (c' % 64) (cc))
encode_to_string-injective (a ∷ b ∷ c ∷ xs) (a' ∷ []) hx hy e = absurd (digit-ne-pad (c % 64) (cc))
encode_to_string-injective (a ∷ b ∷ c ∷ xs) (a' ∷ b' ∷ []) hx hy e =
    absurd (digit-ne-pad (c % 64) (cc))
encode_to_string-injective (a ∷ b ∷ c ∷ xs) (a' ∷ b' ∷ c' ∷ ys) hx hy e =
    let (p, q, r) =
      three_bytes a b a' b' hx.0 hx.1.0 hy.0 hy.1.0 c c' hx.1.1.0 hy.1.1.0 (cc, cc) (cc) (cc) in
    let rest = encode_to_string-injective xs ys hx.1.1.1 hy.1.1.1 (cc) in cc

-- Two draws of random bytes that give the same token are the same draw.
pub generate_random_string_unique :
    (xs ys : List ℕ)
    → All IsByte xs
    → All IsByte ys
    → generate_random_string (some xs) ≡ generate_random_string (some ys)
    → xs ≡ ys
unfolding generate_random_string
generate_random_string_unique xs ys hx hy e = encode_to_string-injective xs ys hx hy (cc)
