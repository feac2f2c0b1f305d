-- ===== src/Storage/Wal/Records.antt =====
-- The loop of `recover_locked` in src/durable_storage.cpp on what `encode_record` wrote.
use kura_metadata_store.Prelude.{
  ℕ, zero, suc, ◌+◌, ◌^◌, ◌<◌, ◌≤◌, ◌≡◌, refl, ap, ◌∙◌, Bool, true, false, some, List, [], ◌∷◌,
  ◌++◌, ltb, length, length-append, take, drop, arith,
}
use kura_metadata_store.Prelude.Exception.{ok}
use kura_metadata_store.Bytes.Prefix.{starts_with}
use kura_metadata_store.Storage.Codec.{StorageLimits, le_bytes, from_le, read_le, crc_finish}
use kura_metadata_store.Storage.Fields.{from_le-le_bytes, take-append, drop-append}
use kura_metadata_store.Storage.Wal.Format.{
  WalEntry, record_fields, crc_of_two, encode_record, read_durable, RecordHeader, read_header,
  Place, check_header, check_payload, sized_record, next_record, scanned, record_magic,
}

-- The 40 bytes before the payload.
abbrev pub record_header : WalEntry → List ℕ
record_header e = record_fields e ++ le_bytes 4 (crc_of_two (record_fields e) e.payload)

unfoldable pub header_of : WalEntry → RecordHeader
header_of e = record {
  term = e.term;
  index = e.index;
  payload_length = length e.payload;
  stored_checksum = crc_of_two (record_fields e) e.payload;
}

-- An entry that `validate_append` lets through at a place of a log, and whose numbers fit their
-- fields.
pub record FitsAt (limits : StorageLimits) (place : Place) (e : WalEntry) : Type 0 where
  pub type : e.type ≡ 1
  pub index : place.expected ≡ some e.index
  pub positive : 0 < e.index
  pub first : place.first_record ≡ true → e.index ≡ place.first_index
  pub term_fits : e.term < 2 ^ 64
  pub index_fits : e.index < 2 ^ 64
  pub payload : length e.payload ≤ limits.max_wal_payload_bytes
  pub segment : 40 + length e.payload ≤ limits.wal_segment_bytes
  pub segment_fits : limits.wal_segment_bytes < 2 ^ 64
  pub count : place.count < limits.max_recovery_records

pub crc_of_two-lt : (a b : List ℕ) → crc_of_two a b < 2 ^ 32
unfolding crc_of_two crc_finish
crc_of_two-lt a b = omega arith

pub record HeaderParts (e : WalEntry) : Type 0 where
  pub magic : starts_with record_magic (record_header e) ≡ true
  pub version : read_durable 2 (record_header e) 4 ≡ ok 1
  pub type : read_durable 2 (record_header e) 6 ≡ ok 1
  pub size : read_durable 4 (record_header e) 8 ≡ ok 40
  pub term : read_durable 8 (record_header e) 12 ≡ ok e.term
  pub index : read_durable 8 (record_header e) 20 ≡ ok e.index
  pub payload_length : read_durable 8 (record_header e) 28 ≡ ok (length e.payload)
  pub checksum : read_durable 4 (record_header e) 36 ≡ ok (crc_of_two (record_fields e) e.payload)

pub header_parts :
    (limits : StorageLimits) (place : Place) (e : WalEntry) → FitsAt limits place e → HeaderParts e
unfolding record_fields le_bytes read_durable read_le from_le starts_with
header_parts limits place e fits = record {
  magic = refl;
  version = refl;
  type = ap ok (from_le-le_bytes 2 e.type (omega (arith, fits.type)) ∙ fits.type);
  size = refl;
  term = ap ok (from_le-le_bytes 8 e.term fits.term_fits);
  index = ap ok (from_le-le_bytes 8 e.index fits.index_fits);
  payload_length =
      ap ok
        (from_le-le_bytes 8 (length e.payload) (omega (arith, fits.segment, fits.segment_fits)));
  checksum = ap ok (
      from_le-le_bytes 4 (crc_of_two (record_fields e) e.payload)
        (crc_of_two-lt (record_fields e) e.payload));
}

pub read_header-header :
    (e : WalEntry) → HeaderParts e → read_header (record_header e) ≡ ok (header_of e)
unfolding read_header header_of
read_header-header e p =
    rw (p.magic, p.version, p.type, p.size, p.term, p.index, p.payload_length, p.checksum) refl

pub check_header-fits :
    (limits : StorageLimits) (place : Place) (e : WalEntry)
    → FitsAt limits place e
    → check_header limits place (header_of e) ≡ ok tt
unfolding check_header header_of
check_header-fits limits place e fits =
    rw fits.index
      (ground (arith, fits.positive, fits.first, fits.payload, fits.segment, fits.segment_fits))

-- The parts of a record followed by `more`.
pub record Cuts (e : WalEntry) (more : List ℕ) : Type 0 where
  pub header : take 40 (encode_record e ++ more) ≡ record_header e
  pub covered : take 36 (encode_record e ++ more) ≡ record_fields e
  pub payload : take (length e.payload) (drop 40 (encode_record e ++ more)) ≡ e.payload
  pub size : length (encode_record e ++ more) ≡ 40 + length e.payload + length more
  pub rest : drop (40 + length e.payload) (encode_record e ++ more) ≡ more

drop-more :
    (n : ℕ) (xs ys more : List ℕ) → n ≡ length xs + length ys → drop n (xs ++ (ys ++ more)) ≡ more
drop-more n [] ys more h = let same : n ≡ length ys = omega arith in rw same (drop-append ys more)
drop-more zero (x ∷ xs) ys more h = absurd (omega arith)
drop-more (suc n) (x ∷ xs) ys more h = drop-more n xs ys more (omega arith)

pub cuts : (e : WalEntry) (more : List ℕ) → Cuts e more
unfolding encode_record record_fields le_bytes
cuts e more = record {
  header = refl;
  covered = refl;
  payload = take-append e.payload more;
  size = omega (arith, length-append e.payload more);
  rest = drop-more (40 + length e.payload) (record_header e) e.payload more (omega arith);
}

sized_record-encode_record :
    (limits : StorageLimits) (is_final : Bool) (place : Place) (e : WalEntry) (more : List ℕ)
    → FitsAt limits place e
    → sized_record limits is_final place (header_of e) (encode_record e ++ more)
      ≡ ok (scanned (record e { type = 1 }) (40 + length e.payload))
unfolding sized_record check_payload header_of
sized_record-encode_record limits is_final place e more fits =
    let c = cuts e more in rw (c.size, c.covered, c.payload) (ground (arith, fits.count))

-- One round of the loop on a record that stands at its place, whatever follows it.
pub next_record-encode_record :
    (limits : StorageLimits) (is_final : Bool) (place : Place) (e : WalEntry) (more : List ℕ)
    → FitsAt limits place e
    → next_record limits is_final place (encode_record e ++ more)
      ≡ ok (scanned (record e { type = 1 }) (40 + length e.payload))
unfolding next_record
next_record-encode_record limits is_final place e more fits =
    let c = cuts e more in
    let whole : ltb (40 + length e.payload + length more) 40 ≡ false = ground arith in
    rw
      (
        c.size,
        whole,
        c.header,
        read_header-header e (header_parts limits place e fits),
        check_header-fits limits place e fits,
      )
      (sized_record-encode_record limits is_final place e more fits)
