-- ===== src/Northbound/Provisioning/Onboarding.antt =====
-- From a mediator's HTTP request to a device's registration over CoAP.
use coap_gateway.Prelude.Text.{Text}
use coap_gateway.Registry.World.{World}
use coap_gateway.Northbound.{Account}
use coap_gateway.Coap.Gateway.{Gateway, with_store, write_msg}
use coap_gateway.Coap.Gateway as Gateway
