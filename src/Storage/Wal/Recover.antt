-- ===== src/Storage/Wal/Recover.antt =====
-- `segment_paths` and `recover_locked` of src/durable_storage.cpp, on the regular files of the log's
-- directory: their names and contents. Reading a file and cutting off a torn end are taken to work.
use kura_metadata_store.Prelude.{
  ℕ, ◌+◌, Bool, true, false, ◌||◌, ◌&&◌, not, Option, none, some, List, [], ◌∷◌, ◌++◌, ltb, leb,
  ◌==◌, if◌then◌else◌, length, take, drop, u64_max,
}
use kura_metadata_store.Prelude.Exception.{Result, ok, ◌>>=◌, ◌>>◌, throw_if, storage_error}
use kura_metadata_store.Bytes.Prefix.{starts_with}
use kura_metadata_store.Storage.Codec.{StorageLimits, fail, crc32c}
use kura_metadata_store.Storage.Names.{parse_decimal_name, ends_with}
use kura_metadata_store.Storage.Wal.Format.{
  wal_magic, wal_segment_header_size, storage_format_version, read_durable,
}
use kura_metadata_store.Storage.Wal.Scan.{Recovery, SegmentScan, scan_records, is_none}

-- "wal-" and ".kwal".
abbrev pub wal_prefix : List ℕ
wal_prefix = 119 ∷ 97 ∷ 108 ∷ 45 ∷ []

abbrev pub wal_suffix : List ℕ
wal_suffix = 46 ∷ 107 ∷ 119 ∷ 97 ∷ 108 ∷ []

pub record SegmentInfo : Type 0 where
  pub sequence : ℕ
  pub first_index : ℕ
  pub maximum_index : Option ℕ
  pub size : ℕ

-- One file of the directory: a segment, a file of another kind, or a bad name.
unfoldable pub segment_of : List ℕ → List ℕ → Option ℕ → Result (List (ℕ × List ℕ))
segment_of name contents (some sequence) =
    if sequence == 0
    then fail "WAL segment sequence zero is invalid"
    else ok ((sequence, contents) ∷ [])
segment_of name contents none =
    if starts_with wal_prefix name && ends_with wal_suffix name
    then fail "malformed WAL segment filename"
    else ok []

unfoldable pub find_segments : List (List ℕ × List ℕ) → Result (List (ℕ × List ℕ))
find_segments [] = ok []
find_segments ((name, contents) ∷ files) = do
  here ← segment_of name contents (parse_decimal_name name wal_prefix wal_suffix)
  rest ← find_segments files
  ok (here ++ rest)

-- `std::sort` by the sequence.
unfoldable pub insert_segment : ℕ × List ℕ → List (ℕ × List ℕ) → List (ℕ × List ℕ)
insert_segment s [] = s ∷ []
insert_segment s (t ∷ ts) = if leb s.0 t.0 then s ∷ t ∷ ts else t ∷ insert_segment s ts

unfoldable pub sort_segments : List (ℕ × List ℕ) → List (ℕ × List ℕ)
sort_segments [] = []
sort_segments (s ∷ ss) = insert_segment s (sort_segments ss)

unfoldable pub check_sequence : ℕ → List (ℕ × List ℕ) → Result (Unit {0})
check_sequence before [] = ok tt
check_sequence before ((s, contents) ∷ ss) = do
  throw_if (before == u64_max || not (s == before + 1))
      (storage_error "WAL segment sequence gap or regression")
  check_sequence s ss

unfoldable pub check_sequences : List (ℕ × List ℕ) → Result (Unit {0})
check_sequences [] = ok tt
check_sequences ((s, contents) ∷ ss) = check_sequence s ss

unfoldable pub segment_paths : List (List ℕ × List ℕ) → Result (List (ℕ × List ℕ))
segment_paths files = do
  found ← find_segments files
  check_sequences (sort_segments found)
  ok (sort_segments found)

-- The checks of a segment's header; they give the first index.
unfoldable pub read_segment_header : StorageLimits → ℕ → List ℕ → Result ℕ
read_segment_header limits name_sequence view = do
  throw_if (ltb limits.wal_segment_bytes (length view))
      (storage_error "file exceeds configured size limit")
  throw_if (ltb (length view) wal_segment_header_size)
      (storage_error "WAL segment header is truncated")
  version ← read_durable 2 view 8
  size ← read_durable 2 view 10
  flags ← read_durable 4 view 12
  reserved ← read_durable 4 view 36
  throw_if
      (not (starts_with wal_magic view)
        || (not (version == storage_format_version)
            || (not (size == wal_segment_header_size)
                || (not (flags == 0) || not (reserved == 0)))))
      (storage_error "WAL segment header is malformed")
  sequence ← read_durable 8 view 16
  first_index ← read_durable 8 view 24
  checksum ← read_durable 4 view 32
  throw_if
      (sequence == 0
        || (first_index == 0
            || (not (sequence == name_sequence) || not (checksum == crc32c (take 32 view)))))
      (storage_error "WAL segment header checksum or identity is invalid")
  ok first_index

-- `expected && first_index != *expected`.
abbrev pub misses : Option ℕ → ℕ → Bool
misses none first_index = false
misses (some n) first_index = not (first_index == n)

-- The start of a segment: `expected` is set, if it was not.
abbrev pub start_scan : Recovery → ℕ → SegmentScan
start_scan r first_index = record {
  recovery = record r { expected = some first_index };
  maximum_index = none;
  offset = wal_segment_header_size;
}

-- One round of the loop over the segments.
unfoldable pub recover_segment :
    StorageLimits → Bool → Recovery → ℕ × List ℕ → Result (Recovery × SegmentInfo)
recover_segment limits is_final r (sequence, contents) = do
  first_index ← read_segment_header limits sequence contents
  throw_if (misses r.expected first_index)
      (storage_error "WAL segment first index has a gap or regression")
  let records = drop wal_segment_header_size contents
  scan ←
      scan_records (length records) limits is_final first_index (start_scan r first_index) records
  throw_if (is_none scan.maximum_index && not is_final)
      (storage_error "empty WAL segment is not the final segment")
  ok (
    scan.recovery,
    record {
      sequence = sequence;
      first_index = first_index;
      maximum_index = scan.maximum_index;
      size = scan.offset;
    },
  )

abbrev pub is_last : List (ℕ × List ℕ) → Bool
is_last [] = true
is_last (s ∷ ss) = false

unfoldable pub recover_segments :
    StorageLimits → Recovery → List (ℕ × List ℕ) → Result (Recovery × List SegmentInfo)
recover_segments limits r [] = ok (r, [])
recover_segments limits r (s ∷ ss) = do
  here ← recover_segment limits (is_last ss) r s
  rest ← recover_segments limits here.0 ss
  ok (rest.0, here.1 ∷ rest.1)

abbrev pub no_recovery : Recovery
no_recovery = record { entries = []; expected = none; count = 0; last_index = none }

-- What `recover_locked` sets and returns: `segments_`, and the recovery, whose `expected` becomes
-- `expected_append_` where there is a segment.
unfoldable pub recover_locked :
    StorageLimits → List (List ℕ × List ℕ) → Result (Recovery × List SegmentInfo)
recover_locked limits files = do
  paths ← segment_paths files
  recover_segments limits no_recovery paths
