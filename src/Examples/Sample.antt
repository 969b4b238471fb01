-- ===== src/Examples/Sample.antt =====
-- A concrete engine for the tests: texts match exactly, nothing fails, and the n-th draw of random
-- bytes is 32 times the byte n.
use coap_gateway.Prelude.{
  ℕ, zero, suc, ◌+◌, ◌%◌, ◌≡◌, refl, ap, Bool, true, false, Option, none, some, List, [], ◌∷◌, leb,
  ◌==◌, if◌then◌else◌, length, arith,
}
use coap_gateway.Prelude.Text.{Text, codes, text_eq, text_eq_refl}
use coap_gateway.Registry.Schema.{init_db}
use coap_gateway.Prelude.Int.{pos}
use coap_gateway.Registry.World.{Engine, World, CacheSet, IsCache, IsEngine, Quiet, live}
use coap_gateway.Coap.Gateway.{Account, empty_account, Codec, Gateway, Request, post, app_ocf_cbor}

abbrev pub repeat : ℕ → ℕ → List ℕ
repeat zero b = []
repeat (suc n) b = b ∷ repeat n b

abbrev pub cached_exactly : List CacheSet → ℕ → Text → Option Text
cached_exactly [] now k = none
cached_exactly (c ∷ cs) now k =
    if text_eq c.key k then (if live c now then some c.value else none) else cached_exactly cs now k

abbrev pub sample_engine : (ℕ → Bool) → Engine
sample_engine fault = record {
  collate = text_eq;
  id_matches = λ i t. text_eq t ((48 + i) ∷ []);
  fit = λ n t. if leb (length t) n then some t else none;
  fit_json = some;
  fault = fault;
  lost = λ n. false;
  tokens_first = λ id access d. false;
  random = λ n. some (repeat 32 (n % 256));
  cached = cached_exactly;
}

abbrev pub calm : Engine
calm = sample_engine (λ n. false)

abbrev pub init_world : World
init_world = record { db = init_db; cache = []; now = 1000; calls = 0 }

pub calm-IsCache : IsCache calm
calm-IsCache = record { cached-nil = λ now k. refl; cached-cons = λ c cs now k. refl }

length-repeat : (n b : ℕ) → length (repeat n b) ≡ n
length-repeat zero b = refl
length-repeat (suc n) b = ap suc (length-repeat n b)

pub sample-IsEngine : (fault : ℕ → Bool) → IsEngine (sample_engine fault)
sample-IsEngine fault = record {
  collate_refl = text_eq_refl;
  fit_short = λ n s h. ground arith;
  random_length = λ n bytes h. ground (arith, length-repeat 32 (n % 256));
}

abbrev pub calm-Quiet : Quiet calm
calm-Quiet = record {
  no_fault = λ n. refl;
  bytes = λ n. repeat 32 (n % 256);
  random_bytes = λ n. refl;
}

-- A codec that reads a login flag and a token, for one device, and refuses the empty payload.
abbrev pub sample_account : ℕ → Text → Account
sample_account flag token = record {
  device_id = codes "OCF-cloud-device-test-uuid";
  auth_provider = [];
  access_token = token;
  refresh_token = token;
  token_ttl = pos 0;
  user_id = codes "satoshi@btc.com";
  logged_in = flag == 1;
}

abbrev decode_sample : List ℕ → Account × Bool
decode_sample [] = (empty_account, true)
decode_sample (flag ∷ token) = (sample_account flag token, false)

abbrev pub sample_codec : Codec
sample_codec = record {
  decode_account = decode_sample;
  encode_account = λ a. (a.access_token, false);
  decode_publication = λ p. (record { device_id = p; links = [] }, false);
  marshal_json = λ rp. (rp.device_id, false);
  write_fails = λ n. false;
}

abbrev pub gateway_at : World → Gateway World
gateway_at w = record { store = w; devices = []; sent = []; writes = 0 }

abbrev pub post_request : List ℕ → Request
post_request payload = record {
  code = post;
  content_format = some app_ocf_cbor;
  payload = payload;
  client = 7;
}
