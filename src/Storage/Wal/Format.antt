-- ===== src/Storage/Wal/Format.antt =====
-- Segment headers and records of src/durable_storage.cpp: `make_segment_header`, `encode_record`, and
-- the checks of a record by `recover_locked`. Messages stand without the path that some end with.
use kura_metadata_store.Prelude.{
  ℕ, ◌+◌, ◌-◌, Bool, ◌||◌, ◌&&◌, not, Option, none, some, List, [], ◌∷◌, ◌++◌, ltb, leb, ◌==◌,
  if◌then◌else◌, length, take, drop,
}
use kura_metadata_store.Prelude.Exception.{
  Exception, Result, ok, err, undefined_behaviour, ◌>>=◌, ◌>>◌, throw_if, storage_error,
}
use kura_metadata_store.Raft.{Term, LogIndex}
use kura_metadata_store.Bytes.Prefix.{starts_with}
use kura_metadata_store.Storage.Codec.{
  StorageLimits, le_bytes, read_le, crc32c, crc_update, crc_finish, add_fits,
}

-- An enumeration over `std::uint16_t` whose one named value is `command`.
abbrev pub WalRecordType : Type 0
WalRecordType = ℕ

abbrev pub command_record_type : WalRecordType
command_record_type = 1

pub record WalEntry : Type 0 where
  pub type : WalRecordType
  pub term : Term
  pub index : LogIndex
  pub payload : List ℕ

-- "KURAWAL1" and "KREC".
abbrev pub wal_magic : List ℕ
wal_magic = 75 ∷ 85 ∷ 82 ∷ 65 ∷ 87 ∷ 65 ∷ 76 ∷ 49 ∷ []

abbrev pub record_magic : List ℕ
record_magic = 75 ∷ 82 ∷ 69 ∷ 67 ∷ []

abbrev pub wal_segment_header_size : ℕ
wal_segment_header_size = 40

abbrev pub wal_record_header_size : ℕ
wal_record_header_size = 40

abbrev pub storage_format_version : ℕ
storage_format_version = 1

-- The bytes of a segment header before its checksum.
unfoldable pub segment_fields : ℕ → ℕ → List ℕ
segment_fields sequence first_index =
    wal_magic
    ++ (le_bytes 2 storage_format_version
        ++ (le_bytes 2 wal_segment_header_size
            ++ (le_bytes 4 0 ++ (le_bytes 8 sequence ++ le_bytes 8 first_index))))

unfoldable pub make_segment_header : ℕ → ℕ → List ℕ
make_segment_header sequence first_index =
    segment_fields sequence first_index
    ++ (le_bytes 4 (crc32c (segment_fields sequence first_index)) ++ le_bytes 4 0)

-- The bytes of a record before its checksum.
unfoldable pub record_fields : WalEntry → List ℕ
record_fields entry =
    record_magic
    ++ (le_bytes 2 storage_format_version
        ++ (le_bytes 2 entry.type
            ++ (le_bytes 4 wal_record_header_size
                ++ (le_bytes 8 entry.term
                    ++ (le_bytes 8 entry.index ++ le_bytes 8 (length entry.payload))))))

-- A checksum over two spans.
unfoldable pub crc_of_two : List ℕ → List ℕ → ℕ
crc_of_two first second = crc_finish (crc_update (crc_update 0xffffffff first) second)

unfoldable pub encode_record : WalEntry → List ℕ
encode_record entry =
    record_fields entry
    ++ (le_bytes 4 (crc_of_two (record_fields entry) entry.payload) ++ entry.payload)

unfoldable pub read_durable : ℕ → List ℕ → ℕ → Result ℕ
read_durable width view offset =
    read_le "durable format field extends past end of file" width view offset

pub record RecordHeader : Type 0 where
  pub term : ℕ
  pub index : ℕ
  pub payload_length : ℕ
  pub stored_checksum : ℕ

-- The header of a record, checked for its form.
unfoldable pub read_header : List ℕ → Result RecordHeader
read_header header = do
  version ← read_durable 2 header 4
  type ← read_durable 2 header 6
  size ← read_durable 4 header 8
  throw_if
      (not (starts_with record_magic header)
        || (not (version == storage_format_version)
            || (not (type == command_record_type) || not (size == wal_record_header_size))))
      (storage_error "WAL record header is malformed")
  term ← read_durable 8 header 12
  index ← read_durable 8 header 20
  payload_length ← read_durable 8 header 28
  stored_checksum ← read_durable 4 header 36
  ok (record {
    term = term;
    index = index;
    payload_length = payload_length;
    stored_checksum = stored_checksum;
  })

-- Where a record stands: the index that is expected, whether it is the first of its segment, the
-- segment's first index, and how many records were recovered before.
pub record Place : Type 0 where
  pub expected : Option ℕ
  pub first_record : Bool
  pub first_index : ℕ
  pub count : ℕ

-- `*expected`.
abbrev pub expected_index : Option ℕ → Result ℕ
expected_index none = err undefined_behaviour
expected_index (some n) = ok n

-- The tests of a header between its reading and the look at the payload.
unfoldable pub check_header : StorageLimits → Place → RecordHeader → Result (Unit {0})
check_header limits place h = do
  throw_if (h.index == 0) (storage_error "WAL record index has a gap or regression")
  expected ← expected_index place.expected
  throw_if (not (h.index == expected)) (storage_error "WAL record index has a gap or regression")
  throw_if (place.first_record && not (h.index == place.first_index))
      (storage_error "WAL segment first record does not match its header")
  throw_if
      (ltb limits.max_wal_payload_bytes h.payload_length
        || ltb (limits.wal_segment_bytes - wal_record_header_size) h.payload_length)
      (storage_error "WAL record payload length exceeds configured limit")
  throw_if (not (add_fits wal_record_header_size h.payload_length))
      (storage_error "WAL record length overflows")

-- What is at the start of the bytes that remain: a torn record, or a record and its size.
pub data Scanned : Type 0 where
  torn : Scanned
  scanned : WalEntry → ℕ → Scanned

-- A record whose payload is there.
unfoldable pub check_payload : StorageLimits → Place → RecordHeader → List ℕ → Result Scanned
check_payload limits place h remaining = do
  let payload = take h.payload_length (drop wal_record_header_size remaining)
  throw_if (not (crc_of_two (take 36 remaining) payload == h.stored_checksum))
      (storage_error "WAL record checksum mismatch")
  throw_if (leb limits.max_recovery_records place.count)
      (storage_error "WAL record count exceeds configured limit")
  ok (
      scanned
        (record { type = command_record_type; term = h.term; index = h.index; payload = payload })
        (wal_record_header_size + h.payload_length))

-- A record that is cut off: it ends the final segment, and no other.
abbrev pub torn_end : Bool → Exception → Result Scanned
torn_end is_final thrown = if is_final then ok torn else err thrown

-- The test of the record's size, and what follows it.
unfoldable pub sized_record : StorageLimits → Bool → Place → RecordHeader → List ℕ → Result Scanned
sized_record limits is_final place h remaining =
    if ltb (length remaining) (wal_record_header_size + h.payload_length)
    then torn_end is_final (storage_error "truncated WAL record payload in interior segment")
    else check_payload limits place h remaining

-- One round of the loop over a segment, on the bytes from `offset` on.
unfoldable pub next_record : StorageLimits → Bool → Place → List ℕ → Result Scanned
next_record limits is_final place remaining =
    if ltb (length remaining) wal_record_header_size
    then torn_end is_final (storage_error "truncated WAL record header in interior segment")
    else do
      h ← read_header (take wal_record_header_size remaining)
      check_header limits place h
      sized_record limits is_final place h remaining
