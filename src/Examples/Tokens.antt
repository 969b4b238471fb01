-- ===== src/Examples/Tokens.antt =====
-- The theorems on tokens and on the keepalive at concrete inputs.
use coap_gateway.Prelude.{◌↔◌, ℕ, ◌≡◌, refl, List, [], ◌∷◌, ◌++◌, length, All, arith, true}
use coap_gateway.Prelude.Int.{pos, ◌≤ℤ◌}
use coap_gateway.Prelude.Text.{Text}
use coap_gateway.Token.{encode_to_string, generate_random_string}
use coap_gateway.Token.Shape.{is_token_char, generate_random_string_shape}
use coap_gateway.Token.Unique.{generate_random_string_unique}
use coap_gateway.Keepalive.{terminated, Keepalive, run, elapsed, timed_out, pong}
use coap_gateway.Keepalive.Closing.{run_closes_iff}
use coap_gateway.Examples.Sample.{repeat}

generate_random_string_shape_example :
    (length (encode_to_string (repeat 32 255)) ≡ 44)
    × All (λ c. is_token_char c ≡ true) (encode_to_string (repeat 32 255))
    × ((front : Text) × (encode_to_string (repeat 32 255) ≡ front ++ b'=' ∷ []))
unfolding generate_random_string
generate_random_string_shape_example =
    generate_random_string_shape (repeat 32 255) (encode_to_string (repeat 32 255)) refl refl

abbrev two_bytes : List ℕ
two_bytes = 1 ∷ 2 ∷ []

generate_random_string_unique_example : two_bytes ≡ two_bytes
generate_random_string_unique_example =
    generate_random_string_unique two_bytes two_bytes (omega arith) (omega arith) refl

abbrev three_retries : Keepalive
three_retries = record { time = pos 3600; interval = pos 5; retry = pos 3 }

abbrev one_retry : Keepalive
one_retry = record { time = pos 3600; interval = pos 5; retry = pos 1 }

run_closes_iff_example :
    (run one_retry (elapsed pong ∷ elapsed timed_out ∷ []) ≡ terminated)
    ↔ ((pos 1 ≤ℤ pos 1) × (true ≡ true))
run_closes_iff_example = run_closes_iff one_retry (elapsed pong ∷ elapsed timed_out ∷ [])
