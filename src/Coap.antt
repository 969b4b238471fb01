-- ===== src/Coap.antt =====
-- pkg/app/coap-interface: the CoAP side of the gateway.
pub mod Gateway
pub mod Kept
pub mod Account
pub mod Session
pub mod Publication
pub mod TokenRefresh
pub mod Bridge
pub mod Routes
pub mod Default
