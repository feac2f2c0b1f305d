-- ===== src/Examples/Logs.antt =====
-- Concrete write-ahead logs, and the theorems about them.
use kura_metadata_store.Prelude.{
  ◌≢◌, ◌≡◌, false, if◌then◌else◌, ◌==◌, ℕ, true, none, some, List, [], ◌∷◌, arith,
}
use kura_metadata_store.Prelude.Exception.{err, logic_error, storage_error}
use kura_metadata_store.Storage.HardState.Files.{done}
use kura_metadata_store.Storage.Wal.Format.{WalEntry}
use kura_metadata_store.Storage.Wal.Scan.{scan_records}
use kura_metadata_store.Storage.Wal.Ends.{scan_records-ends}
use kura_metadata_store.Storage.Wal.Recover.{start_scan, no_recovery}
use kura_metadata_store.Storage.Wal.RoundTrip.{Written, contents}
use kura_metadata_store.Storage.Wal.Append.{WriteAheadLog, Device, created}
use kura_metadata_store.Storage.Wal.Appended.{Appended}
use kura_metadata_store.Examples.Storage.{disk_limits}

abbrev command : ℕ → List ℕ → WalEntry
command index payload = record { type = 1; term = 1; index = index; payload = payload }

abbrev first_segment : Written
first_segment = record { sequence = 1; first_index = 1; entries = command 1 (7 ∷ 8 ∷ []) ∷ [] }

abbrev last_segment : Written
last_segment = record { sequence = 2; first_index = 2; entries = command 2 [] ∷ [] }

-- The first four bytes of a third record.
abbrev torn_record : List ℕ
torn_record = 75 ∷ 82 ∷ 69 ∷ 67 ∷ []

-- The directory lists the second segment first.
abbrev last_first : List (ℕ × List ℕ)
last_first = (2, contents last_segment torn_record) ∷ (1, contents first_segment []) ∷ []

-- A new log, and a disk that takes five bytes of the second record only.
abbrev new_log : WriteAheadLog
new_log = record {
  limits = disk_limits;
  files = [];
  segments = [];
  is_open = false;
  last_index = none;
  expected_append = none;
  active_size = 0;
  count = 0;
  healthy = true;
}

abbrev full_disk : Device
full_disk = record {
  thrown = storage_error "no space left";
  creates = λ sequence. created;
  synchronizes = λ index. done;
  stops = λ index. if index == 2 then some 5 else none;
  last_synchronizes = done;
}

-- A directory that lists its first two files in turn.
abbrev in_turn_listed : List (ℕ × List ℕ) → List (ℕ × List ℕ)
in_turn_listed [] = []
in_turn_listed (f ∷ []) = f ∷ []
in_turn_listed (f ∷ g ∷ fs) = g ∷ f ∷ fs

scan_records-ends_example :
    (scan_records 4 disk_limits true 1 (start_scan no_recovery 1) torn_record
      ≢ err (logic_error "out of fuel"))
    × (scan_records 10 disk_limits true 1 (start_scan no_recovery 1) torn_record
        ≡ scan_records 4 disk_limits true 1 (start_scan no_recovery 1) torn_record)
scan_records-ends_example =
    scan_records-ends 10 disk_limits true 1 (start_scan no_recovery 1) torn_record (omega arith)
