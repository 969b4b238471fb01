-- ===== src/Northbound/Clients.antt =====
-- handleRegisterClient of cmd/northbound-interface/handlers.go.
pub mod Answers
use coap_gateway.Prelude.{
  ℕ, Bool, true, false, ◌||◌, Option, none, some, List, [], ◌∷◌, ◌==◌, length, if◌then◌else◌,
}
use coap_gateway.Prelude.Int.{pos}
use coap_gateway.Prelude.Text.{Text}
use coap_gateway.Go.{Go, Outcome, ret, pure, panic, ◌>>=◌, ◌>>◌}
use coap_gateway.Registry.World.{Err}
use coap_gateway.Registry.Interface.{Registry}
use coap_gateway.Registry.Clients.{ClientRegistration}
use coap_gateway.Http.{
  Request, Exchange, write_header, write, header_if, internal_server_error, unauthorized,
}
use coap_gateway.Northbound.{Account, no_account, Json, bytes_of, Site, with_registry}
use coap_gateway.Northbound.Accounts.{is_none}

module _ {S : Type 0} (k : Json) (db : Registry S) where
  -- Account{UserID: …, AccessToken: …, RefreshToken: …, TokenTTL: …}
  abbrev pub registered_account : Text → ClientRegistration → Account
  registered_account user_id c = record no_account {
    user_id = user_id;
    access_token = c.access_token;
    refresh_token = c.refresh_token;
    token_ttl = pos c.expires_in;
  }

  abbrev pub lacks_field : Account → Bool
  lacks_field a = length a.user_id == 0 || length a.device_id == 0 || length a.access_token == 0

  unfoldable pub write_registered : Option Text → Go (Exchange (Site S)) (Unit {0})
  write_registered response = do
    header_if (is_none response) internal_server_error
    write (bytes_of response)

  -- log.Panic, for a redirect URI
  unfoldable pub unless_redirected :
      Text → Text → ClientRegistration → Go (Exchange (Site S)) (Unit {0})
  unless_redirected [] user_id c = write_registered (k.encode (registered_account user_id c))
  unless_redirected (u ∷ uri) user_id c = panic

  unfoldable pub answer_registered :
      Option Err → Text → ClientRegistration → Go (Exchange (Site S)) (Unit {0})
  answer_registered (some x) user_id c = write_header internal_server_error
  answer_registered none user_id c = unless_redirected c.redirect_uri user_id c

  -- After the answer to a missing field the registration goes on.
  unfoldable pub register_read : Bool → Account × Bool → Go (Exchange (Site S)) (Unit {0})
  register_read true p = write_header internal_server_error
  register_read false (a, true) = write_header internal_server_error
  register_read false (a, false) = do
    header_if (lacks_field a) unauthorized
    c ← with_registry (db.register_client a.user_id a.device_id a.access_token a.auth_provider)
    answer_registered c.error a.user_id c

  unfoldable pub handle_register_client : Request → Go (Exchange (Site S)) (Unit {0})
  unfolding write_registered unless_redirected answer_registered register_read
  handle_register_client r = register_read r.unreadable (k.decode r.body)
