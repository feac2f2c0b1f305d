-- ===== src/Storage/Wal.antt =====
-- The write-ahead log of src/durable_storage.cpp. Format, Scan and Recover hold its recovery, and
-- Append its `append`. The others are about these: Fuel and Ends about the end of the loop over a
-- segment, Records, Torn, Scans, RoundTrip and Logs about what was written, Sorted and Named about
-- the names and the order of the segments, Recovered about a directory that holds a log, and Extend,
-- Kept, Creates, Appends, Writes, Validated, Loop and Appended about `append`.
pub mod Format
pub mod Scan
pub mod Records
pub mod Torn
pub mod Scans
pub mod Recover
pub mod RoundTrip
pub mod Fuel
pub mod Ends
pub mod Sorted
pub mod Named
pub mod Logs
pub mod Recovered
pub mod Append
pub mod Extend
pub mod Kept
pub mod Creates
pub mod Appends
pub mod Writes
pub mod Validated
pub mod Loop
pub mod Appended
