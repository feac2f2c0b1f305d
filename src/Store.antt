-- ===== src/Store.antt =====
-- The in-memory metadata store: src/in_memory_metadata_store.cpp.
pub mod Types
pub mod Watch
pub mod Keys
pub mod Lease
pub mod Transaction
pub mod Snapshot
pub mod Puts
pub mod Writes
pub mod Revokes
pub mod Fencing
