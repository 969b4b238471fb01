-- ===== src/Examples/Northbound.antt =====
-- The theorems on the northbound interface, on the bridge and on clients at concrete inputs.
use coap_gateway.Prelude.{◌≡◌, refl, Bool, some, none, [], ◌∷◌, true, false}
use coap_gateway.Prelude.Int.{pos}
use coap_gateway.Prelude.Text.{Text, codes}
use coap_gateway.Go.{ret, panics}
use coap_gateway.Registry.World.{World, no_rows, cache_nil}
use coap_gateway.Registry.Interface.{Registry, mysql_redis_registry}
use coap_gateway.Http.{Request, begin, status_of}
use coap_gateway.Northbound.{Account, no_account, Json, Site}
use coap_gateway.Northbound.Routing.{Network, responded, handle_client_request}
use coap_gateway.Northbound.Routing.Answers.{post_to, client_request_answers}
use coap_gateway.Examples.Sample.{calm}
use coap_gateway.Examples.Scenario.{uid, di}

abbrev pub database : Registry World
database = mysql_redis_registry calm

-- A body is the access token, and the empty one cannot be decoded.
abbrev pub decode_body : Text → Account × Bool
decode_body [] = (no_account, true)
decode_body (c ∷ t) =
    (record no_account { device_id = di; access_token = c ∷ t; user_id = uid }, false)

abbrev pub json : Json
json = record { decode = decode_body; encode = λ a. some a.access_token }

abbrev pub request : Text → Text → Request
request authorization body = record {
  authorization = authorization;
  device_uuid = di;
  href = codes "light";
  body = body;
  unreadable = false;
  malformed = false;
}

abbrev pub site : World → Site World
site w = record { store = w; posts = [] }

-- A registry that gives the same answers to every call.
abbrev canned : Registry (Unit {0})
canned = record {
  register_user = λ a b s. (ret (codes "t1", none), s);
  provision_mediator = λ a b s. (ret (codes "t2", none), s);
  provision_device = λ a b s. (ret ([], some no_rows), s);
  register_device = λ a b s. (panics, s);
  delete_device = λ a b s. (ret none, s);
  provision_client = λ a b s. (ret (codes "t3", none), s);
  register_client = λ a b c d s. (
    ret (record {
      access_token = codes "t4";
      refresh_token = codes "t5";
      redirect_uri = [];
      expires_in = 6000;
      error = none;
    }),
    s,
  );
  delete_client = λ a b s. (ret none, s);
  update_session = λ a b c d l s. (ret (pos 0, none), s);
  refresh_token = λ a b c s. (panics, s);
  lookup_private_ip = λ a s. (ret ([], some cache_nil), s);
  publish_resource = λ a b s. (ret none, s);
  find_device = λ a s. (ret ([], none), s);
}

abbrev nothing : Site (Unit {0})
nothing = record { store = tt; posts = [] }

abbrev pub pods : Network
pods n p = responded (codes "on") false

client_request_answers_example :
    let (o, y) = handle_client_request pods canned (request [] []) (begin nothing) in
    (o ≡ ret tt)
    × (y.state ≡ record { store = tt; posts = post_to [] (request [] []) ∷ [] })
    × (status_of y ≡ 404)
client_request_answers_example =
    client_request_answers pods canned (request [] []) nothing [] (some cache_nil) tt refl
