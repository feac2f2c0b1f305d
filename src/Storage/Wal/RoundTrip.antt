-- ===== src/Storage/Wal/RoundTrip.antt =====
-- What the write-ahead log of src/durable_storage.cpp wrote, its recovery reads back.
use kura_metadata_store.Prelude.{
  ℕ, zero, suc, ◌+◌, ◌-◌, ◌^◌, ◌<◌, ◌≤◌, ◌≡◌, refl, sym, ◌∙◌, subst, Bool, true, false, ◌&&◌, not,
  List, [], ◌∷◌, ◌++◌, length, length-append, take, drop, arith,
}
use kura_metadata_store.Prelude.Exception.{ok}
use kura_metadata_store.Bytes.Prefix.{starts_with}
use kura_metadata_store.Storage.Codec.{StorageLimits, le_bytes, from_le, read_le, crc32c}
use kura_metadata_store.Storage.Fields.{from_le-le_bytes, crc32c-lt}
use kura_metadata_store.Storage.Wal.Format.{
  WalEntry, segment_fields, make_segment_header, read_durable, wal_magic, encode_record,
}
use kura_metadata_store.Storage.Wal.Scan.{Recovery, SegmentScan, scan_records, is_none, place_of}
use kura_metadata_store.Storage.Wal.Records.{FitsAt}
use kura_metadata_store.Storage.Wal.Scans.{
  encode_all, taken, AllFit, scan_records-encode_all, scan_records_torn, length-encode_all-ge,
}
use kura_metadata_store.Storage.Wal.Recover.{
  SegmentInfo, read_segment_header, misses, start_scan, recover_segment,
}

-- A segment as it was written: its numbers and its records.
pub record Written : Type 0 where
  pub sequence : ℕ
  pub first_index : ℕ
  pub entries : List WalEntry

abbrev pub contents : Written → List ℕ → List ℕ
contents w tail = make_segment_header w.sequence w.first_index ++ (encode_all w.entries ++ tail)

record SegmentParts (w : Written) (more : List ℕ) : Type 0 where
  size : length (make_segment_header w.sequence w.first_index ++ more) ≡ 40 + length more
  magic : starts_with wal_magic (make_segment_header w.sequence w.first_index ++ more) ≡ true
  version : read_durable 2 (make_segment_header w.sequence w.first_index ++ more) 8 ≡ ok 1
  header_size : read_durable 2 (make_segment_header w.sequence w.first_index ++ more) 10 ≡ ok 40
  flags : read_durable 4 (make_segment_header w.sequence w.first_index ++ more) 12 ≡ ok 0
  reserved : read_durable 4 (make_segment_header w.sequence w.first_index ++ more) 36 ≡ ok 0
  sequence :
      read_durable 8 (make_segment_header w.sequence w.first_index ++ more) 16 ≡ ok w.sequence
  first_index :
      read_durable 8 (make_segment_header w.sequence w.first_index ++ more) 24 ≡ ok w.first_index
  checksum :
      read_durable 4 (make_segment_header w.sequence w.first_index ++ more) 32
      ≡ ok (crc32c (segment_fields w.sequence w.first_index))
  covered :
      take 32 (make_segment_header w.sequence w.first_index ++ more)
      ≡ segment_fields w.sequence w.first_index
  records : drop 40 (make_segment_header w.sequence w.first_index ++ more) ≡ more

-- The numbers of a header.
pub record Numbered (w : Written) : Type 0 where
  pub sequence_positive : 0 < w.sequence
  pub sequence_fits : w.sequence < 2 ^ 64
  pub first_positive : 0 < w.first_index
  pub first_fits : w.first_index < 2 ^ 64

segment_parts : (w : Written) (more : List ℕ) → Numbered w → SegmentParts w more
unfolding make_segment_header segment_fields le_bytes read_durable read_le from_le starts_with
segment_parts w more n = record {
  size = omega arith;
  magic = refl;
  version = ground arith;
  header_size = ground arith;
  flags = ground arith;
  reserved = ground arith;
  sequence = ground (arith, from_le-le_bytes 8 w.sequence n.sequence_fits);
  first_index = ground (arith, from_le-le_bytes 8 w.first_index n.first_fits);
  checksum = ground (
    arith,
    from_le-le_bytes 4 (crc32c (segment_fields w.sequence w.first_index))
        (crc32c-lt (segment_fields w.sequence w.first_index)),
  );
  covered = refl;
  records = refl;
}

read_segment_header-written :
    (limits : StorageLimits) (w : Written) (more : List ℕ)
    → Numbered w
    → 40 + length more ≤ limits.wal_segment_bytes
    → read_segment_header limits w.sequence (make_segment_header w.sequence w.first_index ++ more)
      ≡ ok w.first_index
unfolding read_segment_header
read_segment_header-written limits w more n room =
    let p = segment_parts w more n in
    rw
      (
        p.size, p.magic, p.version, p.header_size, p.flags, p.reserved, p.sequence, p.first_index,
        p.checksum, p.covered,
      )
      (ground (arith, n.sequence_positive, n.first_positive))

-- What stands behind the records of the final segment: nothing, or a record cut off.
pub data IsTail (limits : StorageLimits) (first_index : ℕ) (scan : SegmentScan) (tail : List ℕ)
    : Type 0 where
  whole : tail ≡ [] → IsTail limits first_index scan tail
  cut :
      (e : WalEntry) (x : ℕ) (back : List ℕ)
      → FitsAt limits (place_of first_index scan) e
      → encode_record e ≡ tail ++ (x ∷ back)
      → IsTail limits first_index scan tail

pub scan_nothing :
    (k : ℕ) (limits : StorageLimits) (is_final : Bool) (first_index : ℕ) (scan : SegmentScan)
    → scan_records k limits is_final first_index scan [] ≡ ok scan
unfolding scan_records
scan_nothing zero limits is_final first_index scan = refl
scan_nothing (suc k) limits is_final first_index scan = refl

pub scan_tail :
    (k : ℕ) (limits : StorageLimits) (first_index : ℕ) (scan : SegmentScan) (tail : List ℕ)
    → IsTail limits first_index scan tail
    → length tail ≤ k
    → scan_records k limits true first_index scan tail ≡ ok scan
scan_tail k limits first_index scan tail (whole none_left) long =
    subst (λ t. scan_records k limits true first_index scan t ≡ ok scan) (sym none_left)
      (scan_nothing k limits true first_index scan)
scan_tail k limits first_index scan tail (cut e x back fits h) long =
    scan_records_torn k limits first_index scan e x tail back fits h long

-- The scan of a segment with enough fuel, whatever its records are.
scan_segment :
    (limits : StorageLimits) (is_final : Bool) (first_index : ℕ) (scan : SegmentScan)
    (es : List WalEntry) (tail : List ℕ)
    → AllFit limits first_index scan es
    → ((k : ℕ)
        → length tail ≤ k
        → scan_records k limits is_final first_index (taken scan es) tail ≡ ok (taken scan es))
    → scan_records
        (length (encode_all es ++ tail))
        limits
        is_final
        first_index
        scan
        (encode_all es ++ tail)
      ≡ ok (taken scan es)
scan_segment limits is_final first_index scan es tail fit ends =
    let size : length (encode_all es ++ tail) ≡ length (encode_all es) + length tail =
      length-append (encode_all es) tail in
    let k : ℕ = length (encode_all es) + length tail - length es in
    scan_records-encode_all (length (encode_all es ++ tail)) k limits is_final first_index scan es
      tail (omega (arith, size, length-encode_all-ge es)) fit
    ∙ ends k (omega (arith, length-encode_all-ge es))

-- A segment that continues a recovery.
pub record SegmentFits (limits : StorageLimits) (r : Recovery) (w : Written) (tail : List ℕ)
    : Type 0 where
  pub numbered : Numbered w
  pub continues : misses r.expected w.first_index ≡ false
  pub fit : AllFit limits w.first_index (start_scan r w.first_index) w.entries
  pub room : 40 + length (encode_all w.entries ++ tail) ≤ limits.wal_segment_bytes

abbrev pub scan_of : Recovery → Written → SegmentScan
scan_of r w = taken (start_scan r w.first_index) w.entries

abbrev pub info_of : Recovery → Written → SegmentInfo
info_of r w = record {
  sequence = w.sequence;
  first_index = w.first_index;
  maximum_index = (scan_of r w).maximum_index;
  size = (scan_of r w).offset;
}

pub recover_segment-written :
    (limits : StorageLimits) (is_final : Bool) (r : Recovery) (w : Written) (tail : List ℕ)
    → SegmentFits limits r w tail
    → ((k : ℕ)
        → length tail ≤ k
        → scan_records k limits is_final w.first_index (scan_of r w) tail ≡ ok (scan_of r w))
    → (is_none (scan_of r w).maximum_index && not is_final) ≡ false
    → recover_segment limits is_final r (w.sequence, contents w tail)
      ≡ ok ((scan_of r w).recovery, info_of r w)
unfolding recover_segment
recover_segment-written limits is_final r w tail s ends full =
    let more : List ℕ = encode_all w.entries ++ tail in
    let p = segment_parts w more s.numbered in
    rw
      (
        read_segment_header-written limits w more s.numbered s.room,
        s.continues,
        p.records,
        scan_segment limits is_final w.first_index (start_scan r w.first_index) w.entries tail s.fit
            ends,
        full,
      )
      refl
