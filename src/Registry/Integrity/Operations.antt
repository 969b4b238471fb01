-- ===== src/Registry/Integrity/Operations.antt =====
-- Every operation of the registry keeps the constraints of the schema.
use coap_gateway.Prelude.{Option, none, some, ℕ}
use coap_gateway.Prelude.Text.{Text}
use coap_gateway.Registry.World.{Engine, Result, ok, err, ExecResult}
use coap_gateway.Registry.Preserves.{Preserves, Preserves-exec, steps}
use coap_gateway.Registry.Statements.{DeviceToken}
use coap_gateway.Registry.Schema.{Database}
use coap_gateway.Registry.Conserved.{Conserved}
use coap_gateway.Registry.Accounts.{
  register_user, registered, store_mediator, provision_with, provision_mediator,
}
use coap_gateway.Registry.Devices.{
  provision_for, provision_device, renew_registered, draw_registered, register_admitted,
  register_found, register_device, delete_device_row, admitted,
}

module _ (e : Engine) {P : Database → Type 0} (law : Conserved e P) where
  registered-kept :
      (token : Result Text) (r : Result ExecResult) → Preserves P (registered e token r)
  unfolding registered
  registered-kept token (ok r) = search steps
  registered-kept token (err x) = search steps

  pub register_user-kept :
      (username provider : Text) → Preserves P (register_user e username provider)
  unfolding register_user
  register_user-kept username provider =
      search (steps, Preserves-exec, law.insert_user, registered-kept)

  store_mediator-kept :
      (token : Text) (found : Result (Option ℕ)) → Preserves P (store_mediator e token found)
  unfolding store_mediator
  store_mediator-kept token (ok u) = search (steps, Preserves-exec, law.insert_mediator)
  store_mediator-kept token (err x) = search steps

  provision_with-kept :
      (username user_token : Text) (token : Result Text)
      → Preserves P (provision_with e username user_token token)
  unfolding provision_with
  provision_with-kept username user_token (ok t) = search (steps, store_mediator-kept)
  provision_with-kept username user_token (err x) = search steps

  pub provision_mediator-kept :
      (username user_token : Text) → Preserves P (provision_mediator e username user_token)
  unfolding provision_mediator
  provision_mediator-kept username user_token = search (steps, provision_with-kept)

  provision_for-kept :
      (uuid : Text) (found : Result (Option ℕ × Option ℕ))
      → Preserves P (provision_for e uuid found)
  unfolding provision_for
  provision_for-kept uuid (ok (none, u)) = search steps
  provision_for-kept uuid (ok (some m, u)) = search (steps, law.provisioned_device)
  provision_for-kept uuid (err x) = search steps

  pub provision_device-kept :
      (uuid mediator_token : Text) → Preserves P (provision_device e uuid mediator_token)
  unfolding provision_device
  provision_device-kept uuid mediator_token = search (steps, provision_for-kept)

  renew_registered-kept :
      (i : Option ℕ) (username : Text) (access refresh : Result Text)
      → Preserves P (renew_registered e i username access refresh)
  unfolding renew_registered
  renew_registered-kept i username (ok a) (ok r) =
      search (steps, Preserves-exec, law.renew_token) depth 8
  renew_registered-kept i username (ok a) (err x) = search steps
  renew_registered-kept i username (err x) refresh = search steps

  draw_registered-kept :
      (i : Option ℕ) (username : Text) (access : Result Text)
      → Preserves P (draw_registered e i username access)
  unfolding draw_registered
  draw_registered-kept i username (ok a) = search (steps, renew_registered-kept)
  draw_registered-kept i username (err x) = search steps

  register_admitted-kept :
      (i : Option ℕ) (username : Option Text) → Preserves P (register_admitted e i username)
  unfolding register_admitted
  register_admitted-kept i none = search steps
  register_admitted-kept i (some username) = search (steps, draw_registered-kept)

  register_found-kept :
      (mediated : Text) (found : Result DeviceToken) → Preserves P (register_found e mediated found)
  unfolding register_found
  register_found-kept mediated (ok r) = register_admitted-kept r.token_id (admitted mediated r)
  register_found-kept mediated (err x) = search steps

  pub register_device-kept : (uuid mediated : Text) → Preserves P (register_device e uuid mediated)
  unfolding register_device
  register_device-kept uuid mediated = search (steps, register_found-kept)

  pub delete_device_row-kept : (id access : Text) → Preserves P (delete_device_row e id access)
  unfolding delete_device_row
  delete_device_row-kept id access = search (steps, Preserves-exec, law.delete_device) depth 8
