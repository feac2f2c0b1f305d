-- ===== src/Store/Watch.antt =====
-- Watches in src/in_memory_metadata_store.cpp: the publication of a mutation's events, and
-- `create_watch`, `poll_watch`, `request_watch_progress` and `cancel_watch`.
mod Publish
mod Serve
unfoldable pub use Publish.*
unfoldable pub use Serve.*
