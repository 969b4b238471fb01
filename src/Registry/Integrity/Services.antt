-- ===== src/Registry/Integrity/Services.antt =====
-- The operations on clients, sessions, tokens and resources keep whatever their statements keep.
use coap_gateway.Prelude.{Bool, true, false, Option, none, some, List, [], ◌∷◌, ℕ}
use coap_gateway.Prelude.Int.{ℤ}
use coap_gateway.Prelude.Text.{Text, codes}
use coap_gateway.Go.{Go, Outcome, ret}
use coap_gateway.Registry.World.{Engine, World, Err, Result, ok, err}
use coap_gateway.Registry.Preserves.{Preserves, Preserves-exec, steps}
use coap_gateway.Registry.Schema.{Database}
use coap_gateway.Registry.Conserved.{Conserved}
use coap_gateway.Registry.Clients.{
  provision_client_for, provision_client, renew_client, draw_client, register_client_found,
  register_client, delete_client_row,
}
use coap_gateway.Registry.Presence.{
  log_out, log_in, log_in_found, logged_in_at, update_session, looked_up, lookup_private_ip,
}
use coap_gateway.Registry.Refresh.{reissue, refresh_token}
use coap_gateway.Registry.Resources.{
  publish_resource, splice, next_row, join_rows, find_rows, find_device,
}

module _ (e : Engine) {P : Database → Type 0} (law : Conserved e P) where
  provision_client_for-kept :
      (uuid : Text) (found : Result (Option ℕ × Option ℕ))
      → Preserves P (provision_client_for e uuid found)
  unfolding provision_client_for
  provision_client_for-kept uuid (ok (none, u)) = search steps
  provision_client_for-kept uuid (ok (some m, u)) = search (steps, law.provisioned_client)
  provision_client_for-kept uuid (err x) = search steps

  pub provision_client-kept :
      (uuid mediator_token : Text) → Preserves P (provision_client e uuid mediator_token)
  unfolding provision_client
  provision_client-kept uuid mediator_token = search (steps, provision_client_for-kept)

  renew_client-kept :
      (i : Option ℕ) (access refresh : Result Text) → Preserves P (renew_client e i access refresh)
  unfolding renew_client
  renew_client-kept i (ok a) (ok r) = search (steps, Preserves-exec, law.renew_token) depth 8
  renew_client-kept i (ok a) (err x) = search steps
  renew_client-kept i (err x) refresh = search steps

  draw_client-kept : (i : Option ℕ) (access : Result Text) → Preserves P (draw_client e i access)
  unfolding draw_client
  draw_client-kept i (ok a) = search (steps, renew_client-kept)
  draw_client-kept i (err x) = search steps

  register_client_found-kept :
      (found : Result (Option ℕ × Option ℕ)) → Preserves P (register_client_found e found)
  unfolding register_client_found
  register_client_found-kept (ok (i, u)) = search (steps, draw_client-kept)
  register_client_found-kept (err x) = search steps

  pub register_client-kept :
      (user_id uuid mediated provider : Text)
      → Preserves P (register_client e user_id uuid mediated provider)
  unfolding register_client
  register_client-kept user_id uuid mediated provider = search (steps, register_client_found-kept)

  pub delete_client_row-kept : (id access : Text) → Preserves P (delete_client_row e id access)
  unfolding delete_client_row
  delete_client_row-kept id access = search (steps, Preserves-exec, law.delete_client) depth 8

  logged_in_at-kept : (left : ℤ) (failed : Option Err) → Preserves P (logged_in_at e left failed)
  unfolding logged_in_at
  logged_in_at-kept left none = search steps
  logged_in_at-kept left (some x) = search steps

  log_in_found-kept :
      (id pod : Text) (found : Result (Option ℤ)) → Preserves P (log_in_found e id pod found)
  unfolding log_in_found
  log_in_found-kept id pod (ok none) = search steps
  log_in_found-kept id pod (ok (some left)) = search (steps, logged_in_at-kept)
  log_in_found-kept id pod (err x) = search steps

  log_in-kept : (id pod : Text) → Preserves P (log_in e id pod)
  unfolding log_in
  log_in-kept id pod = search (steps, log_in_found-kept)

  log_out-kept : (id : Text) → Preserves P (log_out e id)
  unfolding log_out
  log_out-kept id = search steps

  pub update_session-kept :
      (id user_id access pod : Text) (logged_in : Bool)
      → Preserves P (update_session e id user_id access pod logged_in)
  unfolding update_session
  update_session-kept id user_id access pod true = log_in-kept id pod
  update_session-kept id user_id access pod false = log_out-kept id

  looked_up-kept : (found : Result Text) → Preserves P (looked_up e found)
  unfolding looked_up
  looked_up-kept (ok ip) = search steps
  looked_up-kept (err x) = search steps

  pub lookup_private_ip-kept : (id : Text) → Preserves P (lookup_private_ip e id)
  unfolding lookup_private_ip
  lookup_private_ip-kept id = search (steps, looked_up-kept)

  reissue-kept : (refresh : Text) (access : Result Text) → Preserves P (reissue e refresh access)
  unfolding reissue
  reissue-kept refresh (ok a) = search (steps, Preserves-exec, law.reissue_token) depth 9
  reissue-kept refresh (err x) = search steps

  pub refresh_token-kept :
      (id user_id refresh : Text) → Preserves P (refresh_token e id user_id refresh)
  unfolding refresh_token
  refresh_token-kept id user_id refresh = search (steps, reissue-kept)

  pub publish_resource-kept : (json id : Text) → Preserves P (publish_resource e json id)
  unfolding publish_resource
  publish_resource-kept json id = search (steps, Preserves-exec, law.publish) depth 8

  next_row-kept :
      (o : Outcome Text) (k : Text → Go World (Text × Option Err))
      → ((links : Text) → Preserves P (k links))
      → Preserves P (next_row e o k)
  next_row-kept (ret links) k h = h links
  next_row-kept _ k h = record { after = λ w i. i; ends = λ w. tt }

  join_rows-kept :
      (rows : List (Option Text)) (links temp : Text) → Preserves P (join_rows e rows links temp)
  unfolding join_rows
  join_rows-kept [] links temp = search steps
  join_rows-kept (none ∷ rows) links temp = next_row-kept (splice links temp) _ (λ l. search steps)
  join_rows-kept (some row ∷ rows) links temp =
      next_row-kept (splice links row) _ (λ l. join_rows-kept rows l row)

  find_rows-kept : (found : Result (List (Option Text))) → Preserves P (find_rows e found)
  unfolding find_rows
  find_rows-kept (ok rows) = join_rows-kept rows (codes "[]") []
  find_rows-kept (err x) = search steps

  pub find_device-kept : (user_id : Text) → Preserves P (find_device e user_id)
  unfolding find_device
  find_device-kept user_id = search (steps, find_rows-kept)
