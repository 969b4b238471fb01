-- ===== src/Northbound/Provisioning.antt =====
-- handleProvisionClient and handleProvisionDevice of cmd/northbound-interface/handlers.go.
pub mod Answers
pub mod Onboarding
use coap_gateway.Prelude.{Bool, true, false, Option, none, some}
use coap_gateway.Prelude.Text.{Text}
use coap_gateway.Go.{Go, Outcome, ret, pure, ◌>>=◌, ◌>>◌}
use coap_gateway.Registry.World.{Err, has_error}
use coap_gateway.Registry.Interface.{Registry}
use coap_gateway.Http.{
  Request, Exchange, write_header, write, header_if, internal_server_error, created,
}
use coap_gateway.Northbound.{Account, token_account, Json, Site, with_registry, mediator_token}

module _ {S : Type 0} (k : Json) (db : Registry S) where
  unfoldable pub write_encoded : Option Text → Go (Exchange (Site S)) (Unit {0})
  write_encoded none = write_header internal_server_error
  write_encoded (some response) = write response

  unfoldable pub answer_client : Text × Option Err → Go (Exchange (Site S)) (Unit {0})
  answer_client (mediated, some x) = write_header internal_server_error
  answer_client (mediated, none) = write_encoded (k.encode (token_account mediated))

  unfoldable pub provision_read : Text → Bool → Account × Bool → Go (Exchange (Site S)) (Unit {0})
  provision_read token true p = write_header internal_server_error
  provision_read token false (account, true) = write_header internal_server_error
  provision_read token false (account, false) =
      with_registry (db.provision_client account.device_id token) >>= λ r. answer_client r

  -- Every error is answered by a return.
  unfoldable pub handle_provision_client : Request → Go (Exchange (Site S)) (Unit {0})
  unfolding write_encoded answer_client provision_read
  handle_provision_client r = mediator_token r.authorization >>= λ token.
      provision_read token r.unreadable (k.decode r.body)

  unfoldable pub write_created : Option Text → Go (Exchange (Site S)) (Unit {0})
  write_created none = write_header internal_server_error
  write_created (some response) = do write_header created; write response

  -- Only an error of json.Marshal is answered by a return.
  unfoldable pub handle_provision_device : Request → Go (Exchange (Site S)) (Unit {0})
  unfolding write_created
  handle_provision_device r = do
    token ← mediator_token r.authorization
    header_if r.unreadable internal_server_error
    let (account, bad) = k.decode r.body
    header_if bad internal_server_error
    (mediated, x) ← with_registry (db.provision_device account.device_id token)
    header_if (has_error x) internal_server_error
    write_created (k.encode (token_account mediated))
