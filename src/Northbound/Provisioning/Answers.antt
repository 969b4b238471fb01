-- ===== src/Northbound/Provisioning/Answers.antt =====
-- How the provisioning handlers answer.
use coap_gateway.Prelude.{◌⊎◌, ◌≡◌, Bool, false, Option, none, some, [], ◌||◌, arith, if◌then◌else◌}
use coap_gateway.Prelude.Text.{Text}
use coap_gateway.Go.{ret, ◌>>=◌}
use coap_gateway.Registry.World.{Err, has_error}
use coap_gateway.Registry.Interface.{Registry}
use coap_gateway.Http.{Request, begin, write_header, write, header_if}
use coap_gateway.Northbound.{Account, token_account, Json, Site, with_registry, mediator_token}
use coap_gateway.Northbound.Provisioning.{handle_provision_client, handle_provision_device}

module _ {S : Type 0} (k : Json) (db : Registry S) (r : Request) (b : Site S) (token : Text)
    (a : Account) (bad : Bool) where
  -- Over any registry, where the header gives a mediator token, the registry is asked to provision
  -- the device with what has been decoded of the body, whatever the body is; the response is the
  -- JSON of the token that it returns, beside an error too, and the status is 500 if the body
  -- could not be read or decoded or the registry has an error, and 201 otherwise.
  pub provision_device_answers :
      (mediated response : Text) (x : Option Err) (s : S)
      → mediator_token r.authorization (begin b) ≡ (ret token, begin b)
      → k.decode r.body ≡ (a, bad)
      → db.provision_device a.device_id token b.store ≡ (ret (mediated, x), s)
      → k.encode (token_account mediated) ≡ some response
      → handle_provision_device k db r (begin b) ≡ (
        ret tt,
        record {
          state = record b { store = s };
          status = some (if r.unreadable || (bad || has_error x) then 500 else 201);
          body = response;
        },
      )
  unfolding handle_provision_device with_registry header_if write write_header ◌>>=◌
  provision_device_answers mediated response x s t d u j = ground (arith, t, d, u, j)

  -- Over any registry, where the header gives a mediator token, a client is answered by 500 and an
  -- empty body if anything fails, and by 200 and the JSON of its token otherwise; the registry is
  -- asked for a token only if the body has been read and decoded.
  pub provision_client_answers :
      (mediated : Text) (x : Option Err) (s : S)
      → mediator_token r.authorization (begin b) ≡ (ret token, begin b)
      → k.decode r.body ≡ (a, bad)
      → db.provision_client a.device_id token b.store ≡ (ret (mediated, x), s)
      → let (o, y) = handle_provision_client k db r (begin b) in
        (o ≡ ret tt)
        × (y.state ≡ (if r.unreadable || bad then b else record b { store = s }))
        × ((y.status ≡ some 500) × (y.body ≡ [])
            ⊎ (r.unreadable ≡ false)
              × (bad ≡ false)
              × (x ≡ none)
              × (y.status ≡ some 200)
              × (k.encode (token_account mediated) ≡ some y.body))
  unfolding handle_provision_client with_registry write write_header ◌>>=◌
  provision_client_answers mediated x s t d u = ground (arith, t, d, u)
