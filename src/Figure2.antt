-- ===== src/Figure2.antt =====
-- The executable Raft Figure 2 specification: include/kura/metadata/raft/figure2_spec.hpp and
-- src/figure2_spec.cpp. `Types` holds the types, `Log` the reads of the log, `Outcome` what a
-- step builds up, `Catalog` the table of rules, and `Validate`, `Leader`, `Vote` and `Append` one group
-- of functions each; `Step` puts them together. The other children are about all of these.
pub mod Types
pub mod Log
pub mod Catalog
pub mod Validate
pub mod Outcome
pub mod Leader
pub mod Vote
pub mod Append
pub mod Step
pub mod Advances
pub mod Commit
pub mod Gate
pub mod Votes
