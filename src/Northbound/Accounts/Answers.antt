-- ===== src/Northbound/Accounts/Answers.antt =====
-- How the account handlers answer.
use coap_gateway.Prelude.{◌≡◌, Bool, Option, some, ◌||◌, arith, if◌then◌else◌}
use coap_gateway.Prelude.Text.{Text}
use coap_gateway.Go.{ret, ◌>>=◌}
use coap_gateway.Registry.World.{Err, has_error}
use coap_gateway.Registry.Refresh.{Refreshed}
use coap_gateway.Registry.Interface.{Registry}
use coap_gateway.Http.{Request, begin, write, header_if}
use coap_gateway.Northbound.{Account, token_account, Json, bytes_of, Site, with_registry}
use coap_gateway.Northbound.Accounts.{
  handle_register_user, provision_mediator, token_refresh, refreshed, is_none,
}

module _ {S : Type 0} (k : Json) (db : Registry S) (r : Request) (b : Site S) (a : Account)
    (bad : Bool) where
  -- Over any registry, whatever the body is, the registry is asked to register a user with what has
  -- been decoded of it, and the response is the JSON of the token that it returns; the status is
  -- 500 if the body could not be read or decoded or the registry has an error, and 200 otherwise.
  pub register_user_answers :
      (token : Text) (x : Option Err) (s : S)
      → k.decode r.body ≡ (a, bad)
      → db.register_user a.user_id a.auth_provider b.store ≡ (ret (token, x), s)
      → handle_register_user k db r (begin b) ≡ (
        ret tt,
        record {
          state = record b { store = s };
          status = some (if r.unreadable || (bad || has_error x) then 500 else 200);
          body = bytes_of (k.encode (token_account token));
        },
      )
  unfolding handle_register_user with_registry header_if write ◌>>=◌
  register_user_answers token x s d u = ground (arith, d, u)

  -- Over any registry, whatever the body is, the registry is asked for a mediator with what has been
  -- decoded of it, and the response is the JSON of the token that it returns, beside an error too;
  -- the status is 500 if anything failed, and 200 otherwise.
  pub provision_mediator_answers :
      (token : Text) (x : Option Err) (s : S)
      → k.decode r.body ≡ (a, bad)
      → db.provision_mediator a.user_id a.access_token b.store ≡ (ret (token, x), s)
      → provision_mediator k db r (begin b) ≡ (
        ret tt,
        record {
          state = record b { store = s };
          status = some (
              if r.unreadable || (bad || (has_error x || is_none (k.encode (token_account token))))
              then 500
              else 200);
          body = bytes_of (k.encode (token_account token));
        },
      )
  unfolding provision_mediator with_registry header_if write ◌>>=◌
  provision_mediator_answers token x s d u = ground (arith, d, u)

  -- Over any registry, whatever the body is, the registry is asked for a refresh with what has been
  -- decoded of it, and the response is the JSON of the tokens that it returns; the status is 500
  -- if anything failed, and 200 otherwise, with empty tokens where no token was refreshed.
  pub token_refresh_http_answers :
      (t : Refreshed) (s : S)
      → k.decode r.body ≡ (a, bad)
      → db.refresh_token a.device_id a.user_id a.refresh_token b.store ≡ (ret t, s)
      → token_refresh k db r (begin b) ≡ (
        ret tt,
        record {
          state = record b { store = s };
          status = some (
              if r.unreadable
                || (bad || (has_error t.error || is_none (k.encode (refreshed k db t))))
              then 500
              else 200);
          body = bytes_of (k.encode (refreshed k db t));
        },
      )
  unfolding token_refresh with_registry header_if write ◌>>=◌
  token_refresh_http_answers t s d u = ground (arith, d, u)
