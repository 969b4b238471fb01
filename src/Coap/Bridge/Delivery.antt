-- ===== src/Coap/Bridge/Delivery.antt =====
-- Which connection an HTTP request reaches.
use coap_gateway.Prelude.{
  ℕ, ◌≡◌, Option, true, false, none, some, List, [], ◌∷◌, length, if◌then◌else◌, arith,
}
use coap_gateway.Prelude.Int.{ℤ}
use coap_gateway.Prelude.Text.{Text}
use coap_gateway.Go.{ret, ◌>>=◌}
use coap_gateway.Map.{lookup}
use coap_gateway.Http.{Request, begin, status_of, write_header, write}
use coap_gateway.Registry.World.{Engine, World, IsCache}
use coap_gateway.Registry.Statements.{select_time_left}
use coap_gateway.Registry.Interface.{mysql_redis_registry}
use coap_gateway.Coap.Gateway.{Account, post, Codec, Gateway}
use coap_gateway.Coap.Gateway as Gateway
use coap_gateway.Coap.Session.{handle_session_update}
use coap_gateway.Coap.Session.Routing.{session_login_routes}
use coap_gateway.Coap.Bridge.{Connections, CoapPost, Bridge, handle_client_request}

-- The status and the body for what Exchange returns.
abbrev pub client_gets : Option Text → ℕ × Text
client_gets none = (500, [])
client_gets (some payload) = (200, payload)

-- With the MySQL registry, while nothing fails, an HTTP request for a device that comes after a login
-- of the device is sent once, over the connection that the login came over, and the HTTP client
-- gets the device's payload with status 200, or 500 if there is no answer.
pub login_delivers :
    (k : Codec) (e : Engine) (c : IsCache e) (pod : Text) (req : Gateway.Request)
    (g : Gateway World) (a : Account) (left : ℤ) (l : Connections) (href body : Text)
    (exchanges : List CoapPost)
    → ((n : ℕ) → e.fault n ≡ false)
    → ((n : ℕ) → k.write_fails n ≡ false)
    → ((b : Account) → (k.encode_account b).1 ≡ false)
    → req.code ≡ post
    → k.decode_account req.payload ≡ (a, false)
    → a.logged_in ≡ true
    → select_time_left e a.device_id g.store.now g.store.db ≡ some (some left)
    → l.refused (record { client = req.client; href = href; payload = body }) ≡ false
    → let p : CoapPost = record { client = req.client; href = href; payload = body } in
      let devices = (handle_session_update k (mysql_redis_registry e) pod req g).1.devices in
      let (o, x) =
        handle_client_request l
          (record {
            authorization = [];
            device_uuid = a.device_id;
            href = href;
            body = body;
            unreadable = false;
            malformed = false;
          })
          (begin (record { devices = devices; exchanges = exchanges })) in
      (o ≡ ret tt)
      × (x.state.exchanges ≡ p ∷ exchanges)
      × (status_of x ≡ (client_gets (l.answer (length exchanges) p)).0)
      × (x.body ≡ (client_gets (l.answer (length exchanges) p)).1)
unfolding handle_client_request write_header write ◌>>=◌
login_delivers k e c pod req g a left l href body exchanges quiet nf ne p d i t r =
    let (done, sent, routed, found) =
      session_login_routes k e c pod req g a left quiet nf ne p d i t in
    ground (arith, routed, r)

-- An HTTP request for a device that is not in the container is answered by 404, or by 500 if its
-- body could not be read, and nothing is sent to any device.
pub unrouted_answer :
    (l : Connections) (r : Request) (b : Bridge)
    → lookup r.device_uuid b.devices ≡ none
    → let (o, x) = handle_client_request l r (begin b) in
      (o ≡ ret tt) × (x.state ≡ b) × (status_of x ≡ (if r.unreadable then 500 else 404))
unfolding handle_client_request write_header write ◌>>=◌
unrouted_answer l r b n = ground (arith, n)
