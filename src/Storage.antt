-- ===== src/Storage.antt =====
-- Durable storage: src/durable_storage.cpp and src/raft_hard_state_store.cpp.
pub mod Codec
pub mod Fields
pub mod Names
pub mod HardState
pub mod Wal
pub mod Snapshots
