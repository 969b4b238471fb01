-- ===== src/Coap/TokenRefresh.antt =====
-- handleTokenRefresh of pkg/app/coap-interface/handlers.go, with UnmarshalCBOR and MarshalCBOR.
pub mod Answers
use coap_gateway.Prelude.{
  Bool, true, false, ◌||◌, Option, none, some, List, [], ◌∷◌, ℕ, ◌==◌, length, if◌then◌else◌,
}
use coap_gateway.Prelude.Int.{pos}
use coap_gateway.Prelude.Text.{Text}
use coap_gateway.Go.{Go, Outcome, ret, pure, ◌>>=◌, ◌>>◌}
use coap_gateway.Registry.World.{Err, has_error}
use coap_gateway.Registry.Interface.{Registry}
use coap_gateway.Registry.Refresh.{Refreshed}
use coap_gateway.Coap.Account.{reply}
use coap_gateway.Coap.Gateway.{
  Account, empty_account, app_ocf_cbor, created, unauthorized, internal_server_error, Request,
  Response, plain, Code, Codec, Gateway, with_store, write_msg,
}

abbrev pub is_empty : Text → Bool
is_empty s = length s == 0

module _ {S : Type 0} (k : Codec) (db : Registry S) where
  -- UnmarshalCBOR drops what was filled in before an error.
  abbrev pub unmarshal_cbor : List ℕ → Account × Bool
  unmarshal_cbor b =
      let (a, bad) = k.decode_account b in if bad then (empty_account, true) else (a, false)

  abbrev pub refreshed_account : Refreshed → Account
  refreshed_account r = record empty_account {
    access_token = r.access_token;
    refresh_token = r.refresh_token;
    token_ttl = pos r.ttl;
  }

  unfoldable pub reply_if : Bool → Code → Go (Gateway S) (Unit {0})
  unfolding reply
  reply_if true c = reply k db (plain c)
  reply_if false c = pure tt

  abbrev pub missing_fields : Account → Bool
  missing_fields a = is_empty a.device_id || (is_empty a.user_id || is_empty a.refresh_token)

  -- No branch returns: each error response is followed by what comes after it.
  unfoldable pub send_refreshed : Refreshed → Go (Gateway S) (Unit {0})
  unfolding reply_if
  send_refreshed r = do
    reply_if (has_error r.error) internal_server_error
    reply_if (k.encode_account (refreshed_account r)).1 internal_server_error
    reply k db (record {
      code = created;
      payload = (k.encode_account (refreshed_account r)).0;
      format = some app_ocf_cbor;
    })

  unfoldable pub handle_token_refresh : Request → Go (Gateway S) (Unit {0})
  unfolding reply_if send_refreshed reply
  handle_token_refresh req = do
    let (a, bad) = unmarshal_cbor req.payload
    reply_if bad internal_server_error
    reply_if (missing_fields a) unauthorized
    r ← with_store (db.refresh_token a.device_id a.user_id a.refresh_token)
    send_refreshed r
