-- ===== src/Registry/Integrity/Histories.antt =====
-- The registry's interface (pkg/registry/registry.go) as one type of calls, and its histories.
use coap_gateway.Prelude.{ℕ, ◌+◌, Bool, List, [], ◌∷◌}
use coap_gateway.Prelude.Text.{Text}
use coap_gateway.Registry.World.{Engine, World}
use coap_gateway.Registry.Accounts.{register_user, provision_mediator}
use coap_gateway.Registry.Devices.{provision_device, register_device, delete_device_row}
use coap_gateway.Registry.Clients.{provision_client, register_client, delete_client_row}
use coap_gateway.Registry.Presence.{update_session, lookup_private_ip}
use coap_gateway.Registry.Refresh.{refresh_token}
use coap_gateway.Registry.Resources.{publish_resource, find_device}
use coap_gateway.Registry.Schema.{Database}
use coap_gateway.Registry.Integrity.{WellFormed}
use coap_gateway.Registry.Integrity.Statements.{WellFormed-Durable}
use coap_gateway.Registry.Conserved.{Conserved, Durable-Conserved}
use coap_gateway.Registry.Integrity.Operations.{
  register_user-kept, provision_mediator-kept, provision_device-kept, register_device-kept,
  delete_device_row-kept,
}
use coap_gateway.Registry.Integrity.Services.{
  provision_client-kept, register_client-kept, delete_client_row-kept, update_session-kept,
  lookup_private_ip-kept, refresh_token-kept, publish_resource-kept, find_device-kept,
}

-- A method of the interface with its arguments, or seconds that pass.
pub data Call : Type 0 where
  registers_user provisions_mediator provisions_device registers_device : Text → Text → Call
  deletes_device provisions_client deletes_client publishes : Text → Text → Call
  registers_client : Text → Text → Text → Text → Call
  updates_session : Text → Text → Text → Text → Bool → Call
  refreshes : Text → Text → Text → Call
  looks_up finds : Text → Call
  passes : ℕ → Call

module _ (e : Engine) where
  -- The world after a call, however the call ends.
  unfoldable pub perform : Call → World → World
  perform (registers_user a b) w = (register_user e a b w).1
  perform (provisions_mediator a b) w = (provision_mediator e a b w).1
  perform (provisions_device a b) w = (provision_device e a b w).1
  perform (registers_device a b) w = (register_device e a b w).1
  perform (deletes_device a b) w = (delete_device_row e a b w).1
  perform (provisions_client a b) w = (provision_client e a b w).1
  perform (deletes_client a b) w = (delete_client_row e a b w).1
  perform (publishes a b) w = (publish_resource e a b w).1
  perform (registers_client a b c d) w = (register_client e a b c d w).1
  perform (updates_session a b c d l) w = (update_session e a b c d l w).1
  perform (refreshes a b c) w = (refresh_token e a b c w).1
  perform (looks_up a) w = (lookup_private_ip e a w).1
  perform (finds a) w = (find_device e a w).1
  perform (passes n) w = record w { now = w.now + n }

  perform-Conserved :
      (P : Database → Type 0) (law : Conserved e P) (c : Call) (w : World)
      → P w.db
      → P (perform c w).db
  unfolding perform
  perform-Conserved P law (registers_user a b) w h = (register_user-kept e law a b).after w h
  perform-Conserved P law (provisions_mediator a b) w h =
      (provision_mediator-kept e law a b).after w h
  perform-Conserved P law (provisions_device a b) w h = (provision_device-kept e law a b).after w h
  perform-Conserved P law (registers_device a b) w h = (register_device-kept e law a b).after w h
  perform-Conserved P law (deletes_device a b) w h = (delete_device_row-kept e law a b).after w h
  perform-Conserved P law (provisions_client a b) w h = (provision_client-kept e law a b).after w h
  perform-Conserved P law (deletes_client a b) w h = (delete_client_row-kept e law a b).after w h
  perform-Conserved P law (publishes a b) w h = (publish_resource-kept e law a b).after w h
  perform-Conserved P law (registers_client a b c d) w h =
      (register_client-kept e law a b c d).after w h
  perform-Conserved P law (updates_session a b c d l) w h =
      (update_session-kept e law a b c d l).after w h
  perform-Conserved P law (refreshes a b c) w h = (refresh_token-kept e law a b c).after w h
  perform-Conserved P law (looks_up a) w h = (lookup_private_ip-kept e law a).after w h
  perform-Conserved P law (finds a) w h = (find_device-kept e law a).after w h
  perform-Conserved P law (passes n) w h = h

  unfoldable pub perform_all : List Call → World → World
  perform_all [] w = w
  perform_all (c ∷ cs) w = perform_all cs (perform c w)

  pub perform_all-Conserved :
      (P : Database → Type 0) (law : Conserved e P) (cs : List Call) (w : World)
      → P w.db
      → P (perform_all cs w).db
  unfolding perform_all
  perform_all-Conserved P law [] w h = h
  perform_all-Conserved P law (c ∷ cs) w h =
      perform_all-Conserved P law cs (perform c w) (perform-Conserved P law c w h)

  -- From a database that satisfies the constraints of the schema, every sequence of calls of the
  -- registry, with any failures of the servers in between and also where a call panics, leaves one
  -- that satisfies them: keys are distinct and below the next key, user names and mediator tokens
  -- are unique under the collation, and every reference of a mediator, a client or a device exists.
  pub perform_all-WellFormed :
      (cs : List Call) (w : World) → WellFormed e w.db → WellFormed e (perform_all cs w).db
  perform_all-WellFormed cs w h =
      perform_all-Conserved (WellFormed e) (Durable-Conserved e (WellFormed-Durable e)) cs w h
