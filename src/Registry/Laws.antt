-- ===== src/Registry/Laws.antt =====
-- What the handlers may rely on of a registry: each method keeps a property of its state and comes
-- to an end, by a return or a panic. The MySQL registry does so for what its calls conserve.
use coap_gateway.Prelude.{Bool, false}
use coap_gateway.Prelude.Text.{Text}
use coap_gateway.Go.Kept.{Keeps}
use coap_gateway.Registry.World.{Engine}
use coap_gateway.Registry.Interface.{Registry, mysql_redis_registry}
use coap_gateway.Registry.Preserves.{InTables}
use coap_gateway.Registry.Schema.{Database}
use coap_gateway.Registry.Conserved.{Conserved}
use coap_gateway.Registry.Integrity.Operations.{
  register_user-kept, provision_mediator-kept, provision_device-kept, register_device-kept,
  delete_device_row-kept,
}
use coap_gateway.Registry.Integrity.Services.{
  provision_client-kept, register_client-kept, delete_client_row-kept, update_session-kept,
  lookup_private_ip-kept, refresh_token-kept, publish_resource-kept, find_device-kept,
}

pub record Lawful {S : Type 0} (P : S → Type 0) (db : Registry S) : Type 0 where
  pub register_user : (a b : Text) → Keeps false P (db.register_user a b)
  pub provision_mediator : (a b : Text) → Keeps false P (db.provision_mediator a b)
  pub provision_device : (a b : Text) → Keeps false P (db.provision_device a b)
  pub register_device : (a b : Text) → Keeps false P (db.register_device a b)
  pub delete_device : (a b : Text) → Keeps false P (db.delete_device a b)
  pub provision_client : (a b : Text) → Keeps false P (db.provision_client a b)
  pub register_client : (a b c d : Text) → Keeps false P (db.register_client a b c d)
  pub delete_client : (a b : Text) → Keeps false P (db.delete_client a b)
  pub update_session : (a b c d : Text) (l : Bool) → Keeps false P (db.update_session a b c d l)
  pub refresh_token : (a b c : Text) → Keeps false P (db.refresh_token a b c)
  pub lookup_private_ip : (a : Text) → Keeps false P (db.lookup_private_ip a)
  pub publish_resource : (a b : Text) → Keeps false P (db.publish_resource a b)
  pub find_device : (a : Text) → Keeps false P (db.find_device a)

module _ (e : Engine) (P : Database → Type 0) (law : Conserved e P) where
  pub mysql_redis_registry-Lawful : Lawful (InTables P) (mysql_redis_registry e)
  mysql_redis_registry-Lawful = record {
    register_user = λ a b. register_user-kept e law a b;
    provision_mediator = λ a b. provision_mediator-kept e law a b;
    provision_device = λ a b. provision_device-kept e law a b;
    register_device = λ a b. register_device-kept e law a b;
    delete_device = λ a b. delete_device_row-kept e law a b;
    provision_client = λ a b. provision_client-kept e law a b;
    register_client = λ a b c d. register_client-kept e law a b c d;
    delete_client = λ a b. delete_client_row-kept e law a b;
    update_session = λ a b c d l. update_session-kept e law a b c d l;
    refresh_token = λ a b c. refresh_token-kept e law a b c;
    lookup_private_ip = λ a. lookup_private_ip-kept e law a;
    publish_resource = λ a b. publish_resource-kept e law a b;
    find_device = λ a. find_device-kept e law a;
  }
