-- ===== src/Storage/Wal/Append.antt =====
-- `append` of src/durable_storage.cpp, with `validate_append`, `ensure_segment` and `create_segment`.
-- The system calls are a parameter: whether each works, and how far a write gets that does not.
use Prim.Native.Nat.{min}
use kura_metadata_store.Prelude.{
  ℕ, ◌+◌, ◌-◌, Bool, true, false, ◌||◌, not, Option, none, some, List, [], ◌∷◌, ◌++◌, ltb, leb,
  ◌==◌, if◌then◌else◌, length, take, u64_max,
}
use kura_metadata_store.Prelude.Exception.{
  Exception, Result, ok, err, ◌>>=◌, ◌>>◌, throw_if, storage_error,
}
use kura_metadata_store.Storage.Codec.{StorageLimits, fail}
use kura_metadata_store.Storage.HardState.Files.{Outcome, done, failed}
use kura_metadata_store.Storage.HardState.Persist.{◌and_then◌}
use kura_metadata_store.Storage.Wal.Format.{
  WalEntry, wal_segment_header_size, wal_record_header_size, command_record_type,
  make_segment_header, encode_record,
}
use kura_metadata_store.Storage.Wal.Scan.{index_after}
use kura_metadata_store.Storage.Wal.Recover.{SegmentInfo}

-- How the calls of one `create_segment` end: all work, one throws before the segment has its name,
-- or the synchronisation of the directory does after that, or the opening of the segment.
pub data Creation : Type 0 where
  created not_created left_behind not_opened : Creation

-- The system calls during one `append`: what they throw, the creation of a segment by its sequence,
-- the synchronisation of the segment before it, the write of a record by its index, with the number
-- of its bytes that reach the file where it throws, and the last synchronisation.
pub record Device : Type 0 where
  pub thrown : Exception
  pub creates : ℕ → Creation
  pub synchronizes : ℕ → Outcome
  pub stops : ℕ → Option ℕ
  pub last_synchronizes : Outcome

-- The members of `Impl`, but for its mutex, and the log's files by sequence. `is_open` is whether
-- there is an `active_file_`.
pub record WriteAheadLog : Type 0 where
  pub limits : StorageLimits
  pub files : List (ℕ × List ℕ)
  pub segments : List SegmentInfo
  pub is_open : Bool
  pub last_index : Option ℕ
  pub expected_append : Option ℕ
  pub active_size : ℕ
  pub count : ℕ
  pub healthy : Bool

-- The loop of `validate_append`.
unfoldable pub validate_entries : StorageLimits → Option ℕ → List WalEntry → Result (Unit {0})
validate_entries limits expected [] = ok tt
validate_entries limits none (e ∷ es) = fail "WAL index would overflow"
validate_entries limits (some expected) (e ∷ es) = do
  throw_if (not (e.type == command_record_type)) (storage_error "unsupported WAL record type")
  throw_if (e.index == 0 || not (e.index == expected))
      (storage_error "WAL append index is not the expected next index")
  throw_if
      (ltb limits.max_wal_payload_bytes (length e.payload)
        || ltb (limits.wal_segment_bytes - wal_segment_header_size)
            (wal_record_header_size + length e.payload))
      (storage_error "WAL payload exceeds configured limit")
  validate_entries limits (index_after e.index) es

-- `expected` before the loop.
abbrev pub first_expected : Option ℕ → Option ℕ → WalEntry → Result (Option ℕ)
first_expected (some expected) last_index e = ok (some expected)
first_expected none (some last) e = fail "WAL index would overflow"
first_expected none none e = ok (some e.index)

-- `validate_append` of at least one entry.
unfoldable pub validate_append : WriteAheadLog → WalEntry → List WalEntry → Result (Unit {0})
validate_append w e es = do
  throw_if
      (ltb (w.limits.max_recovery_records - min w.limits.max_recovery_records w.count)
        (length (e ∷ es)))
      (storage_error "WAL record count exceeds configured limit")
  expected ← first_expected w.expected_append w.last_index e
  validate_entries w.limits expected (e ∷ es)

-- `std::filesystem::exists`, among the log's files.
unfoldable pub has_segment : List (ℕ × List ℕ) → ℕ → Bool
has_segment [] sequence = false
has_segment ((s, contents) ∷ files) sequence =
    if s == sequence then true else has_segment files sequence

-- A new segment that has its file, before and after its opening.
abbrev pub list_segment : WriteAheadLog → ℕ → ℕ → WriteAheadLog
list_segment w sequence first_index = record w {
  files = w.files ++ (sequence, make_segment_header sequence first_index) ∷ [];
  segments =
      w.segments
      ++ record {
        sequence = sequence;
        first_index = first_index;
        maximum_index = none;
        size = wal_segment_header_size;
      }
        ∷ [];
}

abbrev pub add_segment : WriteAheadLog → ℕ → ℕ → WriteAheadLog
add_segment w sequence first_index = record (list_segment w sequence first_index) {
  is_open = true;
  expected_append = some first_index;
  active_size = wal_segment_header_size;
}

abbrev pub finish_creation : Device → WriteAheadLog → ℕ → ℕ → Creation → WriteAheadLog × Outcome
finish_creation device w sequence first_index created = (add_segment w sequence first_index, done)
finish_creation device w sequence first_index not_created = (w, failed device.thrown)
finish_creation device w sequence first_index left_behind = (
  record w { files = w.files ++ (sequence, make_segment_header sequence first_index) ∷ [] },
  failed device.thrown,
)
finish_creation device w sequence first_index not_opened =
    (list_segment w sequence first_index, failed device.thrown)

unfoldable pub create_segment : Device → ℕ → ℕ → WriteAheadLog → WriteAheadLog × Outcome
create_segment device sequence first_index w =
    if sequence == 0 || first_index == 0
    then (w, failed (storage_error "WAL segment sequence and first index must be nonzero"))
    else if has_segment w.files sequence
    then (w, failed (storage_error "refusing to overwrite existing WAL segment"))
    else finish_creation device w sequence first_index (device.creates sequence)

-- `segments_.back()`, where there is one.
abbrev pub last_sequence : List SegmentInfo → Option ℕ
last_sequence [] = none
last_sequence (s ∷ []) = some s.sequence
last_sequence (s ∷ t ∷ ss) = last_sequence (t ∷ ss)

-- The creation of the segment after the last one.
abbrev pub next_segment : Device → ℕ → Option ℕ → WriteAheadLog → WriteAheadLog × Outcome
next_segment device first_index none w = create_segment device 1 first_index w
next_segment device first_index (some sequence) w =
    if sequence == u64_max
    then (w, failed (storage_error "WAL segment sequence would overflow"))
    else create_segment device (sequence + 1) first_index w

unfoldable pub ensure_segment : Device → ℕ → ℕ → WriteAheadLog → WriteAheadLog × Outcome
ensure_segment device first_index record_size w =
    if not w.is_open
    then next_segment device first_index (last_sequence w.segments) w
    else if leb record_size (w.limits.wal_segment_bytes - w.active_size)
    then (w, done)
    else (w, device.synchronizes first_index) and_then (λ v.
        next_segment device first_index (last_sequence v.segments) (record v { is_open = false }))

-- Bytes at the end of the last file.
abbrev pub write_last : List ℕ → List (ℕ × List ℕ) → List (ℕ × List ℕ)
write_last bytes [] = []
write_last bytes ((s, contents) ∷ []) = (s, contents ++ bytes) ∷ []
write_last bytes (f ∷ g ∷ files) = f ∷ write_last bytes (g ∷ files)

-- The writes to `segments_.back()`.
abbrev pub update_last : ℕ → ℕ → List SegmentInfo → List SegmentInfo
update_last size index [] = []
update_last size index (s ∷ []) = record s { maximum_index = some index; size = size } ∷ []
update_last size index (s ∷ t ∷ ss) = s ∷ update_last size index (t ∷ ss)

-- `write_all` of a record, and the statements after it.
abbrev pub write_entry : Device → WalEntry → Option ℕ → WriteAheadLog → WriteAheadLog × Outcome
write_entry device e (some n) w =
    (record w { files = write_last (take n (encode_record e)) w.files }, failed device.thrown)
write_entry device e none w = (
  record w {
    files = write_last (encode_record e) w.files;
    active_size = w.active_size + length (encode_record e);
    segments = update_last (w.active_size + length (encode_record e)) e.index w.segments;
    last_index = some e.index;
    count = w.count + 1;
    expected_append = index_after e.index;
  },
  done,
)

unfoldable pub append_entry : Device → WalEntry → WriteAheadLog → WriteAheadLog × Outcome
append_entry device e w =
    ensure_segment device e.index (length (encode_record e)) w
    and_then write_entry device e (device.stops e.index)

-- The loop of `append`.
unfoldable pub append_entries : Device → List WalEntry → WriteAheadLog → WriteAheadLog × Outcome
append_entries device [] w = (w, done)
append_entries device (e ∷ es) w = append_entry device e w and_then append_entries device es

-- The last synchronisation, where `durability` asks for it.
abbrev pub synchronize_active : Device → Bool → WriteAheadLog → WriteAheadLog × Outcome
synchronize_active device false w = (w, done)
synchronize_active device true w = (w, device.last_synchronizes)

-- The `catch` block.
abbrev pub close_failed : WriteAheadLog × Outcome → WriteAheadLog × Outcome
close_failed (w, done) = (w, done)
close_failed (w, failed e) = (record w { healthy = false; is_open = false }, failed e)

abbrev pub append_valid :
    Device → Bool → List WalEntry → WriteAheadLog → Result (Unit {0}) → WriteAheadLog × Outcome
append_valid device synchronize entries w (err thrown) = (w, failed thrown)
append_valid device synchronize entries w (ok u) =
    close_failed (append_entries device entries w and_then synchronize_active device synchronize)

unfoldable pub append : Device → Bool → List WalEntry → WriteAheadLog → WriteAheadLog × Outcome
append device synchronize [] w =
    if w.healthy
    then (w, done)
    else (w, failed (storage_error "WAL requires recover() after a previous append failure"))
append device synchronize (e ∷ es) w =
    if w.healthy
    then append_valid device synchronize (e ∷ es) w (validate_append w e es)
    else (w, failed (storage_error "WAL requires recover() after a previous append failure"))
