-- ===== src/System/Owned.antt =====
-- Which devices and clients share a token: none, whatever happens.
use coap_gateway.Registry.Owned.{Owned}
use coap_gateway.System.{System}
