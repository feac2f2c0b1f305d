-- ===== src/Store/Lease.antt =====
-- Leases in src/in_memory_metadata_store.cpp: `grant_lease`, `keep_alive`, `time_to_live`,
-- `revoke_lease`, `expire_leases`, and the helpers that they share.
mod Grant
mod Cleanup
unfoldable pub use Grant.*
unfoldable pub use Cleanup.*
