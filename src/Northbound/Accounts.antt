-- ===== src/Northbound/Accounts.antt =====
-- handleRegisterUser, provisionMediator and tokenRefresh of cmd/northbound-interface/handlers.go. No
-- branch of them returns early.
pub mod Answers
use coap_gateway.Prelude.{Bool, true, false, Option, none, some}
use coap_gateway.Prelude.Int.{pos}
use coap_gateway.Go.{Go, Outcome, ret, pure, ◌>>=◌, ◌>>◌}
use coap_gateway.Registry.World.{has_error}
use coap_gateway.Registry.Interface.{Registry}
use coap_gateway.Registry.Refresh.{Refreshed}
use coap_gateway.Http.{Request, Exchange, write_header, write, header_if, internal_server_error}
use coap_gateway.Northbound.{
  Account, no_account, token_account, Json, bytes_of, Site, with_registry,
}

abbrev pub is_none {ℓ} : {A : Type ℓ} → Option A → Bool
is_none none = true
is_none (some a) = false

module _ {S : Type 0} (k : Json) (db : Registry S) where
  unfoldable pub handle_register_user : Request → Go (Exchange (Site S)) (Unit {0})
  handle_register_user r = do
    header_if r.unreadable internal_server_error
    let (account, bad) = k.decode r.body
    header_if bad internal_server_error
    (user_token, x) ← with_registry (db.register_user account.user_id account.auth_provider)
    header_if (has_error x) internal_server_error
    write (bytes_of (k.encode (token_account user_token)))

  unfoldable pub provision_mediator : Request → Go (Exchange (Site S)) (Unit {0})
  provision_mediator r = do
    header_if r.unreadable internal_server_error
    let (account, bad) = k.decode r.body
    header_if bad internal_server_error
    (mediator_token, x) ← with_registry (db.provision_mediator account.user_id account.access_token)
    header_if (has_error x) internal_server_error
    header_if (is_none (k.encode (token_account mediator_token))) internal_server_error
    write (bytes_of (k.encode (token_account mediator_token)))

  abbrev pub refreshed : Refreshed → Account
  refreshed r = record no_account {
    access_token = r.access_token;
    refresh_token = r.refresh_token;
    token_ttl = pos r.ttl;
  }

  unfoldable pub token_refresh : Request → Go (Exchange (Site S)) (Unit {0})
  token_refresh r = do
    header_if r.unreadable internal_server_error
    let (account, bad) = k.decode r.body
    header_if bad internal_server_error
    t ← with_registry (db.refresh_token account.device_id account.user_id account.refresh_token)
    header_if (has_error t.error) internal_server_error
    header_if (is_none (k.encode (refreshed t))) internal_server_error
    write (bytes_of (k.encode (refreshed t)))
