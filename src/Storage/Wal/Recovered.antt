-- ===== src/Storage/Wal/Recovered.antt =====
-- `recover_locked` of src/durable_storage.cpp on a directory that holds a log.
use kura_metadata_store.Prelude.{ℕ, ◌≡◌, List}
use kura_metadata_store.Prelude.Exception.{ok}
use kura_metadata_store.Storage.Codec.{StorageLimits}
use kura_metadata_store.Storage.Wal.Scan.{Recovery}
use kura_metadata_store.Storage.Wal.Recover.{SegmentInfo, recover_locked}
use kura_metadata_store.Storage.Wal.RoundTrip.{Written}
use kura_metadata_store.Storage.Wal.Logs.{log_entries, log_sizes, sizes_of}
use kura_metadata_store.Storage.Wal.Named.{named}

-- What the recovery of the directory `dir` of a log with these records comes to.
pub record RecoversLog (limits : StorageLimits) (ws : List Written) (dir : List (ℕ × List ℕ))
    : Type 0 where
  pub recovery : Recovery
  pub segments : List SegmentInfo
  pub recovers : recover_locked limits (named dir) ≡ ok (recovery, segments)
  pub entries : recovery.entries ≡ log_entries ws
  pub sizes : sizes_of segments ≡ log_sizes ws
