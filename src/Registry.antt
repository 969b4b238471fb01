-- ===== src/Registry.antt =====
-- pkg/registry: the registry over MySQL and Redis.
pub mod Schema
pub mod World
pub mod Statements
pub mod Accounts
pub mod Devices
pub mod Clients
pub mod Presence
pub mod Refresh
pub mod Resources
pub mod Rows
pub mod Lookup
pub mod Integrity
pub mod Writes
pub mod Preserves
pub mod Conserved
pub mod Owned
pub mod Interface
pub mod Laws
pub mod Catalog
