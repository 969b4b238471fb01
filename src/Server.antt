-- ===== src/Server.antt =====
-- NewServer of pkg/app/coap-interface/server.go: the configuration that the environment gives.
pub mod Numbers
pub mod Tls
pub mod Variables
pub mod Startup
pub mod Defaults
pub mod Trust
pub mod Ending
pub mod Errors
