-- ===== src/TestClient/Online.antt =====
-- The test client and the gateway together: a device comes online.
use coap_gateway.Prelude.{ℕ, ◌≡◌, true, false, some, []}
use coap_gateway.Prelude.Int.{pos}
use coap_gateway.Prelude.Text.{Text}
use coap_gateway.System.{Platform, System, Happening, asks_coap}
use coap_gateway.Registry.World.{Engine, World, IsEngine, IsCache, Quiet}
use coap_gateway.Registry.Interface.{mysql_redis_registry}
use coap_gateway.Registry.Devices.Onboarding.{renewed_world, granted_now}
use coap_gateway.Coap.Gateway.{Account, post, app_ocf_cbor, Request, Codec, Gateway}
use coap_gateway.Coap.Account.Replies.{with_grant}
use coap_gateway.TestClient.{Message, Terminal}
use coap_gateway.TestClient.Prompts as Prompts

-- A message of the client as the gateway gets it, over a connection.
abbrev pub over : ℕ → Message → Request
over connection m = record {
  code = post;
  content_format = some app_ocf_cbor;
  payload = m.payload;
  client = connection;
}

-- What the gateway is to read where the client has written its identity.
abbrev pub identity : Text → Text → Text → Account
identity device_id access_token user_id = record {
  device_id = device_id;
  auth_provider = [];
  access_token = access_token;
  refresh_token = [];
  token_ttl = pos 0;
  user_id = user_id;
  logged_in = true;
}

abbrev pub idle : Terminal
idle = record { exchanges = []; responses = []; calls = 0 }

module _ (k : Codec) (e : Engine) (ok_engine : IsEngine e) (cache : IsCache e) (q : Quiet e)
    (writes : (n : ℕ) → k.write_fails n ≡ false)
    (encodes : (a : Account) → (k.encode_account a).1 ≡ false) where
  abbrev registered_gateway : ℕ → Text → Gateway World → Gateway World
  registered_gateway i name g =
      with_grant k (mysql_redis_registry e) (granted_now e ok_engine q g.store name)
        (renewed_world e ok_engine q g.store (some i)) g

module _ (t : Platform) (ok_engine : IsEngine t.engine) (cache : IsCache t.engine)
    (q : Quiet t.engine) (writes : (n : ℕ) → t.codec.write_fails n ≡ false)
    (encodes : (a : Account) → (t.codec.encode_account a).1 ≡ false) where
  -- What a message of the client is at a gateway process: a CoAP request for the message's path.
  abbrev pub arrives : Text → ℕ → Message → Happening
  arrives pod connection m = asks_coap pod m.path (over connection m)
