-- ===== src/Registry/Interface.antt =====
-- The interface of pkg/registry/registry.go, that the handlers are written against, and its
-- implementation MysqlRedisRegistry.
use coap_gateway.Prelude.{Bool, Option}
use coap_gateway.Prelude.Int.{ℤ}
use coap_gateway.Prelude.Text.{Text}
use coap_gateway.Go.{Go}
use coap_gateway.Registry.World.{Engine, World, Err}
use coap_gateway.Registry.Accounts.{register_user, provision_mediator}
use coap_gateway.Registry.Devices.{
  Registration, provision_device, register_device, delete_device_row,
}
use coap_gateway.Registry.Clients.{
  ClientRegistration, provision_client, register_client, delete_client_row,
}
use coap_gateway.Registry.Presence.{update_session, lookup_private_ip}
use coap_gateway.Registry.Refresh.{Refreshed, refresh_token}
use coap_gateway.Registry.Resources.{publish_resource, find_device}

-- Over the state that an implementation keeps.
pub record Registry (S : Type 0) : Type 0 where
  pub register_user : Text → Text → Go S (Text × Option Err)
  pub provision_mediator : Text → Text → Go S (Text × Option Err)
  pub provision_device : Text → Text → Go S (Text × Option Err)
  pub register_device : Text → Text → Go S Registration
  pub delete_device : Text → Text → Go S (Option Err)
  pub provision_client : Text → Text → Go S (Text × Option Err)
  pub register_client : Text → Text → Text → Text → Go S ClientRegistration
  pub delete_client : Text → Text → Go S (Option Err)
  pub update_session : Text → Text → Text → Text → Bool → Go S (ℤ × Option Err)
  pub refresh_token : Text → Text → Text → Go S Refreshed
  pub lookup_private_ip : Text → Go S (Text × Option Err)
  pub publish_resource : Text → Text → Go S (Option Err)
  pub find_device : Text → Go S (Text × Option Err)

abbrev pub mysql_redis_registry : Engine → Registry World
mysql_redis_registry e = record {
  register_user = register_user e;
  provision_mediator = provision_mediator e;
  provision_device = provision_device e;
  register_device = register_device e;
  delete_device = delete_device_row e;
  provision_client = provision_client e;
  register_client = register_client e;
  delete_client = delete_client_row e;
  update_session = update_session e;
  refresh_token = refresh_token e;
  lookup_private_ip = lookup_private_ip e;
  publish_resource = publish_resource e;
  find_device = find_device e;
}
