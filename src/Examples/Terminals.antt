-- ===== src/Examples/Terminals.antt =====
-- The theorems on the test client at concrete inputs.
use coap_gateway.Prelude.{
  ℕ, zero, suc, ◌+◌, ◌<◌, ◌≡◌, refl, false, Option, some, List, [], ◌∷◌, arith, Bool, true, ◌++◌,
  if◌then◌else◌,
}
use coap_gateway.Prelude.Text.{Text, codes, text_eq}
use coap_gateway.Go.{panics}
use coap_gateway.Coap.Gateway as Gateway
use coap_gateway.System.{Platform, new_pod, System}
use coap_gateway.Examples.Systems.{platform, position}
use coap_gateway.TestClient.{Cloud, Message, Exchanged, answered, failed, prompt_user}
use coap_gateway.TestClient.Prompts.{Encodes, failed_exchange_panics}
use coap_gateway.TestClient.Online.{identity, idle}
use coap_gateway.Examples.Sample.{sample_codec}
use coap_gateway.Examples.Scenario.{uid, di}
use coap_gateway.Examples.Worlds.{token, device_world}

-- A cloud in which the payload of an identity is its access token.
abbrev cloud : (ℕ → Exchanged) → Cloud
cloud answer = record {
  encode_account = λ a. (a.access_token, false);
  encode_publication = λ p. (p.device_id, false);
  new_post_request = λ path body. some (record { path = path; payload = body });
  exchange = λ n m. answer n;
  undecodable = λ p. false;
  unprintable = λ p. false;
  dial_fails = λ a. false;
  write_fails = λ n. false;
}

cloud-Encodes : (answer : ℕ → Exchanged) → Encodes (cloud answer)
cloud-Encodes answer = record { posts = λ path body. refl; prints = λ p. refl }

abbrev typed : List Text
typed = codes "register" ∷ codes "publish" ∷ codes "quit" ∷ codes "session" ∷ []

abbrev message : Text → Text → Option Message
message path payload = some (record { path = path; payload = payload })

-- The second exchange fails.
abbrev breaks : ℕ → Exchanged
breaks zero = answered []
breaks (suc n) = failed

failed_exchange_panics_example : prompt_user (cloud breaks) di (token 6) uid typed idle ≡ (
  panics,
  record {
    exchanges = message (codes "oic/rd") di ∷ message (codes "oic/sec/account") (token 6) ∷ [];
    responses = [];
    calls = 2;
  },
)
unfolding text_eq
failed_exchange_panics_example =
    failed_exchange_panics (cloud breaks) di (token 6) uid (cloud-Encodes breaks) typed 1 idle
      (omega arith) (λ i m l. ([], first_answered i l)) (λ m. refl)
  where
    first_answered : (i : ℕ) → i < 1 → breaks (i + 0) ≡ answered []
    first_answered zero l = refl
    first_answered (suc i) l = absurd (omega arith)

-- A gateway that reads such payloads.
abbrev reader : Gateway.Codec
reader = record sample_codec { decode_account = λ p. (identity di p uid, false) }

abbrev pod : Text
pod = codes "10.168.42.1"

-- go-coap without the slash that a pattern starts with.
abbrev same_path : Text → Text → Bool
same_path pattern path = if text_eq pattern path then true else text_eq pattern (codes "/" ++ path)

abbrev client_platform : Platform
client_platform = record platform {
  codec = reader;
  serve_mux = λ keys path. position (λ k. same_path k path) keys;
}

abbrev device_system : System
device_system = record {
  world = device_world;
  pods = (pod, new_pod) ∷ [];
  posts = [];
  answers = [];
}
