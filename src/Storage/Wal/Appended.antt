-- ===== src/Storage/Wal/Appended.antt =====
-- `append` of src/durable_storage.cpp and the recovery after it.
use kura_metadata_store.Prelude.{ℕ, ◌≡◌, false, ◌⊎◌, List, [], ◌++◌}
use kura_metadata_store.Prelude.Exception.{ok}
use kura_metadata_store.Storage.Codec.{StorageLimits}
use kura_metadata_store.Storage.HardState.Files.{Outcome, done, failed}
use kura_metadata_store.Storage.Wal.Format.{WalEntry}
use kura_metadata_store.Storage.Wal.Scan.{Recovery}
use kura_metadata_store.Storage.Wal.Recover.{SegmentInfo, recover_locked}
use kura_metadata_store.Storage.Wal.Named.{named}
use kura_metadata_store.Storage.Wal.Append.{WriteAheadLog}
use kura_metadata_store.Storage.Wal.Kept.{IsEmpty}
use kura_metadata_store.Storage.Wal.Loop.{OpenWith}

-- A log that holds these records: without segments, or open.
pub data Keeps (limits : StorageLimits) (entries : List WalEntry) (w : WriteAheadLog) : Type 0 where
  keeps_none : IsEmpty limits w → entries ≡ [] → Keeps limits entries w
  keeps_open : OpenWith limits entries w → Keeps limits entries w

-- How the directory lists its files: in some order.
abbrev pub Listing : Type 0
Listing = List (ℕ × List ℕ) → List (ℕ × List ℕ)

-- Files that `recover_locked` reads in the order in which the directory lists them, with the entries
-- that it returns.
pub record Reads (list : Listing) (limits : StorageLimits) (files : List (ℕ × List ℕ))
    (entries : List WalEntry) : Type 0 where
  pub recovery : Recovery
  pub segments : List SegmentInfo
  pub recovers : recover_locked limits (named (list files)) ≡ ok (recovery, segments)
  pub returned : recovery.entries ≡ entries

-- How `append` ends: the log keeps the records and the new ones, and the recovery reads them back;
-- or it threw, the recovery reads the records and the first of the new ones, and the log is as it
-- was or unhealthy.
abbrev pub Appended :
    Listing
    → StorageLimits
    → List WalEntry
    → List WalEntry
    → WriteAheadLog
    → WriteAheadLog × Outcome
    → Type 0
Appended list limits entries more w (w', done) =
    Keeps limits (entries ++ more) w' × Reads list limits w'.files (entries ++ more)
Appended list limits entries more w (w', failed e) =
    (written : List WalEntry) × (unwritten : List WalEntry) × (more ≡ written ++ unwritten)
    × Reads list limits w'.files (entries ++ written)
    × ((w' ≡ w) ⊎ (w'.healthy ≡ false))
