-- ===== src/Registry/Conserved.antt =====
-- What the registry's calls keep if their statements do, where the two insertions of a provision, of
-- which the second refers to the key that the first has made, count as one.
use coap_gateway.Prelude.{ℕ, Option}
use coap_gateway.Prelude.Text.{Text}
use coap_gateway.Registry.Schema.{Database}
use coap_gateway.Registry.World.{Engine, Result, ok, err}
use coap_gateway.Registry.Statements.{
  insert_user, insert_mediator, renew_token, reissue_token, publish, delete_device, delete_client,
}
use coap_gateway.Registry.Devices.{insert_provisioned}
use coap_gateway.Registry.Clients.{insert_provisioned_client}
use coap_gateway.Registry.Integrity.{Leaves}
use coap_gateway.Registry.Preserves.{Preserves, Preserves-exec, steps}
use coap_gateway.Registry.Writes.{Durable}

pub record Conserved (e : Engine) (P : Database → Type 0) : Type 0 where
  pub insert_user : (a b c : Text) (d : Database) → P d → Leaves P (insert_user e a b c d)
  pub insert_mediator :
      (u : Option ℕ) (t : Text) (d : Database) → P d → Leaves P (insert_mediator e u t d)
  pub renew_token :
      (r a : Text) (now ttl : ℕ) (i : Option ℕ) (d : Database)
      → P d
      → Leaves P (renew_token e r a now ttl i d)
  pub reissue_token :
      (a : Text) (now ttl : ℕ) (r : Text) (d : Database)
      → P d
      → Leaves P (reissue_token e a now ttl r d)
  pub publish : (json id : Text) (d : Database) → P d → Leaves P (publish e json id d)
  pub delete_device :
      (id access : Text) (d : Database) → P d → Leaves P (delete_device e id access d)
  pub delete_client :
      (id access : Text) (d : Database) → P d → Leaves P (delete_client e id access d)
  pub provisioned_device :
      (uuid : Text) (m u : Option ℕ) (token : Result Text)
      → Preserves P (insert_provisioned e uuid m u token)
  pub provisioned_client :
      (uuid : Text) (m u : Option ℕ) (token : Result Text)
      → Preserves P (insert_provisioned_client e uuid m u token)

module _ (e : Engine) {P : Database → Type 0} (law : Durable e P) where
  insert_provisioned-kept :
      (uuid : Text) (m u : Option ℕ) (token : Result Text)
      → Preserves P (insert_provisioned e uuid m u token)
  unfolding insert_provisioned
  insert_provisioned-kept uuid m u (ok token) =
      search (steps, Preserves-exec, law.insert_token, law.insert_device) depth 8
  insert_provisioned-kept uuid m u (err x) = search steps

  insert_provisioned_client-kept :
      (uuid : Text) (m u : Option ℕ) (token : Result Text)
      → Preserves P (insert_provisioned_client e uuid m u token)
  unfolding insert_provisioned_client
  insert_provisioned_client-kept uuid m u (ok token) =
      search (steps, Preserves-exec, law.insert_token, law.insert_client) depth 8
  insert_provisioned_client-kept uuid m u (err x) = search steps

  -- What every statement keeps is kept by every call.
  pub Durable-Conserved : Conserved e P
  Durable-Conserved = record {
    insert_user = law.insert_user;
    insert_mediator = law.insert_mediator;
    renew_token = law.renew_token;
    reissue_token = law.reissue_token;
    publish = law.publish;
    delete_device = law.delete_device;
    delete_client = law.delete_client;
    provisioned_device = insert_provisioned-kept;
    provisioned_client = insert_provisioned_client-kept;
  }
