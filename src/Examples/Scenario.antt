-- ===== src/Examples/Scenario.antt =====
-- The README's walk through the system: a user, a mediator, a device, and a session.
use coap_gateway.Prelude.{true}
use coap_gateway.Prelude.Text.{Text, codes}
use coap_gateway.Go.{Go, Outcome, pure, ◌>>=◌}
use coap_gateway.Registry.World.{World}
use coap_gateway.Registry.Accounts.{register_user, provision_mediator}
use coap_gateway.Registry.Devices.{provision_device, register_device}
use coap_gateway.Registry.Presence.{update_session, lookup_private_ip}
use coap_gateway.Examples.Sample.{calm, init_world}

abbrev pub uid : Text
uid = codes "satoshi@btc.com"

abbrev pub di : Text
di = codes "OCF-cloud-device-test-uuid"

-- The mediated token of the device.
abbrev pub onboard : Go World Text
onboard = do
  (user_token, x) ← register_user calm uid (codes "stub")
  (mediator_token, y) ← provision_mediator calm uid user_token
  (mediated, z) ← provision_device calm di mediator_token
  pure mediated

abbrev walk : Go World Text
walk = do
  mediated ← onboard
  r ← register_device calm di mediated
  left ← update_session calm di uid r.access_token (codes "10.168.42.1") true
  (ip, x) ← lookup_private_ip calm di
  pure ip

ip : Outcome Text
ip = (walk init_world).0
