-- ===== src/Coap/Session.antt =====
-- handleSessionUpdate of pkg/app/coap-interface/handlers.go.
pub mod Routing
use coap_gateway.Prelude.{ℕ, Bool, true, false, Option, none, some, List, [], ◌∷◌, if◌then◌else◌}
use coap_gateway.Prelude.Int.{ℤ}
use coap_gateway.Prelude.Text.{Text}
use coap_gateway.Go.{Go, Outcome, ret, pure, ◌>>=◌, ◌>>◌}
use coap_gateway.Registry.World.{Err}
use coap_gateway.Registry.Interface.{Registry}
use coap_gateway.Coap.Account.{reply}
use coap_gateway.Coap.Gateway.{
  Account, empty_account, Method, get, post, put, delete_method, other_method, app_ocf_cbor,
  created, changed, bad_request, unauthorized, internal_server_error, Request, plain, Codec,
  Gateway, with_store, write_msg, add_device, remove_device,
}

-- Account{TokenTTL: expiresIn}
abbrev pub ttl_account : ℤ → Account
ttl_account n = record empty_account { token_ttl = n }

-- podAddr is a variable of the process.
module _ {S : Type 0} (k : Codec) (db : Registry S) (pod_addr : Text) where
  unfoldable pub confirm_login : Bool → Go (Gateway S) (Unit {0})
  confirm_login true = reply k db (plain internal_server_error)
  confirm_login false = pure tt

  unfoldable pub log_in : Account → ℕ → List ℕ × Bool → Go (Gateway S) (Unit {0})
  log_in a client (bytes, true) = pure tt
  log_in a client (bytes, false) = do
    failed ← write_msg k (record { code = created; payload = bytes; format = some app_ocf_cbor })
    confirm_login failed
    add_device a.device_id client

  unfoldable pub log_out : Account → Go (Gateway S) (Unit {0})
  log_out a = do remove_device a.device_id; reply k db (plain changed)

  -- An error of the registry is answered by nothing.
  unfoldable pub answer_session : Account → ℕ → ℤ × Option Err → Go (Gateway S) (Unit {0})
  answer_session a client (expires_in, some x) = pure tt
  answer_session a client (expires_in, none) =
      if a.logged_in then log_in a client (k.encode_account (ttl_account expires_in)) else log_out a

  unfoldable pub update : Account → ℕ → Go (Gateway S) (Unit {0})
  update a client =
      with_store (db.update_session a.device_id a.user_id a.access_token pod_addr a.logged_in)
      >>= λ r. answer_session a client r

  unfoldable pub unless_failed : Account → ℕ → Bool → Go (Gateway S) (Unit {0})
  unless_failed a client true = pure tt
  unless_failed a client false = update a client

  -- After a payload that cannot be decoded the handler goes on with what has been filled in, unless
  -- the error response cannot be written.
  unfoldable pub decoded : Account × Bool → ℕ → Go (Gateway S) (Unit {0})
  decoded (a, false) client = update a client
  decoded (a, true) client =
      write_msg k (plain bad_request) >>= λ failed. unless_failed a client failed

  unfoldable pub session_method : Method → Request → Go (Gateway S) (Unit {0})
  session_method post req = decoded (k.decode_account req.payload) req.client
  session_method get req = reply k db (plain unauthorized)
  session_method put req = reply k db (plain unauthorized)
  session_method delete_method req = reply k db (plain unauthorized)
  session_method (other_method n) req = reply k db (plain unauthorized)

  unfoldable pub handle_session_update : Request → Go (Gateway S) (Unit {0})
  unfolding confirm_login log_in log_out answer_session update unless_failed decoded session_method
  handle_session_update req = session_method req.code req
