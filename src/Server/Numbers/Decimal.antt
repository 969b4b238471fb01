-- ===== src/Server/Numbers/Decimal.antt =====
-- What Atoi reads.
use coap_gateway.Prelude.{
  ℕ, zero, suc, ◌+◌, ◌-◌, ◌*◌, ◌<◌, ◌≤◌, ◌≡◌, refl, ap, true, false, [], ◌∷◌, All, arith, length,
  ltb,
}
use native.Mathlib.Nat.{add-mul, mul_assoc}
use coap_gateway.Prelude.Int.{pos}
use coap_gateway.Prelude.Text.{Text}
use coap_gateway.Server.Numbers.{is_digit, number, parse_digits, parse_uint, atoi}

-- The number that a text of digits denotes: each digit times the power of ten of its place.
abbrev pub power_of_ten : ℕ → ℕ
power_of_ten zero = 1
power_of_ten (suc k) = 10 * power_of_ten k

abbrev pub denoted : Text → ℕ
denoted [] = 0
denoted (c ∷ s) = (c - b'0') * power_of_ten (length s) + denoted s

power_of_ten-pos : (k : ℕ) → 1 ≤ power_of_ten k
power_of_ten-pos zero = omega arith
power_of_ten-pos (suc k) = omega (arith, power_of_ten-pos k)

-- One more digit read, with the power of the places after it.
place : (n d p : ℕ) → (n * 10 + d) * p ≡ n * (10 * p) + d * p
place n d p = rw (add-mul (n * 10) d p, mul_assoc n 10 p) refl

le_mul : (m p : ℕ) → 1 ≤ p → m ≤ m * p
le_mul m zero h = absurd (omega arith)
le_mul m (suc p) h = omega arith

parse_digits-number :
    (s : Text) (n : ℕ)
    → All (λ c. is_digit c ≡ true) s
    → n * power_of_ten (length s) + denoted s < 18446744073709551616
    → parse_digits n s ≡ number (n * power_of_ten (length s) + denoted s)
unfolding parse_digits
parse_digits-number [] n h l = ground arith
parse_digits-number (c ∷ s) n h l =
    let m = n * 10 + (c - b'0') in
    let split = place n (c - b'0') (power_of_ten (length s)) in
    let small : m < 18446744073709551616 =
      omega (arith, split, le_mul m (power_of_ten (length s)) (power_of_ten-pos (length s))) in
    let below : m * power_of_ten (length s) + denoted s < 18446744073709551616 =
      omega (arith, split) in
    let yes : ltb m 18446744073709551616 ≡ true = ground arith in
    rw (parse_digits, h.0, yes, parse_digits-number s m h.1 below)
      (ap number (omega (arith, split)))

-- Atoi reads a text of digits, of one or more, as the number that it denotes, if an int64 holds that,
-- with no error, also with leading zeros.
pub atoi-denoted :
    (c : ℕ) (s : Text)
    → All (λ d. is_digit d ≡ true) (c ∷ s)
    → denoted (c ∷ s) < 9223372036854775808
    → atoi (c ∷ s) ≡ (pos (denoted (c ∷ s)), false)
unfolding atoi parse_uint
atoi-denoted c s h l = ground (arith, parse_digits-number (c ∷ s) 0 h (omega arith), h.0)
