-- ===== src/Examples.antt =====
-- Tests, and each theorem at a concrete input.
pub mod Sample
mod Scenario
mod Worlds
mod Presence
mod Connections
mod Gateways
mod Servers
mod Northbound
mod Journeys
mod Tokens
mod Devices
mod Systems
mod Terminals
mod Boots
mod Statements
