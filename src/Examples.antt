-- ===== src/Examples.antt =====
-- Concrete inputs at which the theorems are applied.
pub mod Servers
pub mod Stores
pub mod Keys
pub mod Leases
pub mod Storage
pub mod Logs
