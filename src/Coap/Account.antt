-- ===== src/Coap/Account.antt =====
-- handleAccountUpdateOrDelete of pkg/app/coap-interface/handlers.go.
pub mod Replies
use coap_gateway.Prelude.{
  ℕ, suc, Bool, true, false, Option, none, some, List, [], ◌∷◌, ◌==◌, if◌then◌else◌, length,
}
use coap_gateway.Prelude.Int.{pos}
use coap_gateway.Go.{Go, Outcome, ret, pure, panic, fatal, ◌>>=◌, ◌>>◌}
use coap_gateway.Registry.Interface.{Registry}
use coap_gateway.Registry.Devices.{Registration}
use coap_gateway.Coap.Gateway.{
  Account, empty_account, Method, get, post, put, delete_method, other_method, MediaType,
  app_ocf_cbor, app_json, other_media, created, bad_request, unsupported_media_type,
  internal_server_error, method_not_allowed, Request, Response, plain, Codec, Gateway, with_store,
  write_msg,
}

module _ {S : Type 0} (k : Codec) (db : Registry S) where
  unfoldable pub reply : Response → Go (Gateway S) (Unit {0})
  reply r = do write_msg k r; pure tt

  -- After an error of the encoder the response is sent all the same, between two error responses.
  unfoldable pub send_body : List ℕ × Bool → Go (Gateway S) (Unit {0})
  send_body (bytes, false) =
      reply (record { code = created; format = some app_ocf_cbor; payload = bytes })
  send_body (bytes, true) = do
    reply (plain internal_server_error)
    reply (record { code = created; format = some app_ocf_cbor; payload = bytes })
    reply (plain internal_server_error)

  -- The response's body.
  abbrev pub body : Registration → Account
  body r = record {
    device_id = [];
    auth_provider = [];
    access_token = r.access_token;
    refresh_token = r.refresh_token;
    token_ttl = pos r.expires_in;
    user_id = r.user_id;
    logged_in = false;
  }

  -- log.Fatal ends the process.
  unfoldable pub answer_registration : Registration → Go (Gateway S) (Unit {0})
  answer_registration r = elim r.error [
    | some x ↦ (do reply (plain internal_server_error); fatal)
    | none ↦
        if length r.access_token == 0
        then reply (plain internal_server_error)
        else send_body (k.encode_account (body r))
  ]

  unfoldable pub register : Account × Bool → Go (Gateway S) (Unit {0})
  register (a, true) = reply (plain bad_request)
  register (a, false) =
      with_store (db.register_device a.device_id a.access_token) >>= λ r. answer_registration r

  unfoldable pub account_method : Method → List ℕ → Go (Gateway S) (Unit {0})
  account_method put payload = register (k.decode_account payload)
  account_method post payload = register (k.decode_account payload)
  account_method delete_method payload = pure tt
  account_method get payload = reply (plain method_not_allowed)
  account_method (other_method n) payload = reply (plain method_not_allowed)

  -- The type assertion on the content format panics on nil.
  unfoldable pub account_format : Option MediaType → Request → Go (Gateway S) (Unit {0})
  account_format none req = panic
  account_format (some app_ocf_cbor) req = account_method req.code req.payload
  account_format (some app_json) req = reply (plain unsupported_media_type)
  account_format (some (other_media n)) req = reply (plain unsupported_media_type)

  unfoldable pub handle_account_update_or_delete : Request → Go (Gateway S) (Unit {0})
  unfolding reply send_body answer_registration register account_method account_format
  handle_account_update_or_delete req = account_format req.content_format req
