-- ===== src/Store/Transaction.antt =====
-- `transaction` of src/in_memory_metadata_store.cpp: the comparisons, the checks of the chosen
-- branch, and its application to working copies that are installed at the end.
mod Types
mod Checks
mod Apply
pub use Types.*
unfoldable pub use Checks.*
unfoldable pub use Apply.*
