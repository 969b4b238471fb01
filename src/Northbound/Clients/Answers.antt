-- ===== src/Northbound/Clients/Answers.antt =====
-- How the registration of a client is answered.
use coap_gateway.Prelude.{◌≡◌, false, none, some, [], arith, if◌then◌else◌}
use coap_gateway.Prelude.Text.{Text}
use coap_gateway.Go.{ret, ◌>>=◌}
use coap_gateway.Registry.Clients.{ClientRegistration}
use coap_gateway.Registry.Interface.{Registry}
use coap_gateway.Http.{Request, begin, write_header, write, header_if}
use coap_gateway.Northbound.{Account, Json, Site, with_registry}
use coap_gateway.Northbound.Clients.{handle_register_client, registered_account, lacks_field}

-- Over any registry, a client whose request is read and decoded and whose registration the registry
-- grants is answered by the JSON of its tokens, also where a mandatory field is empty: the status
-- is then 401, and 200 otherwise.
pub register_client_answers :
    {S : Type 0} (k : Json) (db : Registry S) (r : Request) (b : Site S) (a : Account)
    (c : ClientRegistration) (s : S) (response : Text)
    → r.unreadable ≡ false
    → k.decode r.body ≡ (a, false)
    → db.register_client a.user_id a.device_id a.access_token a.auth_provider b.store ≡ (ret c, s)
    → c.error ≡ none
    → c.redirect_uri ≡ []
    → k.encode (registered_account k db a.user_id c) ≡ some response
    → handle_register_client k db r (begin b) ≡ (
      ret tt,
      record {
        state = record b { store = s };
        status = some (if lacks_field k db a then 401 else 200);
        body = response;
      },
    )
unfolding handle_register_client with_registry header_if write write_header ◌>>=◌
register_client_answers k db r b a c s response h d u x y j = ground (arith, h, d, u, x, y, j)
