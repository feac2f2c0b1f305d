-- ===== src/Storage/Wal/Fuel.antt =====
-- The loop of `recover_locked` in src/durable_storage.cpp over a segment ends.
use kura_metadata_store.Prelude.{
  ℕ, zero, suc, ◌+◌, ◌≤◌, ◌≡◌, refl, subst, Bool, true, false, not, ◌==◌, List, [], ◌∷◌, ltb, leb,
  if◌then◌else◌, length, length-drop, take, drop, arith,
}
use kura_metadata_store.Prelude.Exception.{
  Exception, Result, ok, err, throw_if, storage_error, >>=-eq-ok, ok-injective,
}
use kura_metadata_store.Storage.Codec.{StorageLimits}
use kura_metadata_store.Storage.Wal.Format.{
  WalEntry, RecordHeader, Place, Scanned, torn, scanned, crc_of_two, read_header, check_header,
  check_payload, torn_end, sized_record, next_record, wal_record_header_size,
}
use kura_metadata_store.Storage.Wal.Scan.{SegmentScan, place_of, take_record, scan_records}

either :
    (P : Result Scanned → Type 0) (test : Bool) (x y : Result Scanned)
    → P x
    → P y
    → P (if test then x else y)
either P true x y h k = h
either P false x y h k = k

-- A record takes its header at least.
abbrev Advances : Scanned → Type 0
Advances torn = Unit {0}
Advances (scanned e size) = 40 ≤ size

torn_end-Advances :
    (is_final : Bool) (thrown : Exception) (found : Scanned)
    → torn_end is_final thrown ≡ ok found
    → Advances found
torn_end-Advances true thrown torn h = tt
torn_end-Advances true thrown (scanned e size) h = cc
torn_end-Advances false thrown found h = cc

scanned-Advances :
    (e : WalEntry) (size : ℕ) (found : Scanned) → scanned e (40 + size) ≡ found → Advances found
scanned-Advances e size found h = subst Advances h (omega arith)

check_payload-Advances :
    (limits : StorageLimits) (place : Place) (header : RecordHeader) (remaining : List ℕ)
    (found : Scanned)
    → check_payload limits place header remaining ≡ ok found
    → Advances found
unfolding check_payload
check_payload-Advances limits place header remaining found h =
    let (_, _, h1) =
      >>=-eq-ok
        (throw_if
          (not (
            crc_of_two (take 36 remaining)
              (take header.payload_length (drop wal_record_header_size remaining))
            == header.stored_checksum))
          (storage_error "WAL record checksum mismatch"))
        _ h in
    let (_, _, h2) =
      >>=-eq-ok
        (throw_if (leb limits.max_recovery_records place.count)
          (storage_error "WAL record count exceeds configured limit"))
        _ h1 in
    scanned-Advances _ header.payload_length found (ok-injective h2)

sized_record-Advances :
    (limits : StorageLimits) (is_final : Bool) (place : Place) (header : RecordHeader)
    (remaining : List ℕ) (found : Scanned)
    → sized_record limits is_final place header remaining ≡ ok found
    → Advances found
unfolding sized_record
sized_record-Advances limits is_final place header remaining found h =
    either (λ r. r ≡ ok found → Advances found)
      (ltb (length remaining) (wal_record_header_size + header.payload_length)) _ _
      (torn_end-Advances is_final _ found)
      (check_payload-Advances limits place header remaining found) h

pub next_record-Advances :
    (limits : StorageLimits) (is_final : Bool) (place : Place) (remaining : List ℕ)
    (found : Scanned)
    → next_record limits is_final place remaining ≡ ok found
    → Advances found
unfolding next_record
next_record-Advances limits is_final place remaining found h =
    either (λ r. r ≡ ok found → Advances found) (ltb (length remaining) wal_record_header_size) _ _
      (torn_end-Advances is_final _ found)
      (λ read.
        let (header, _, h1) =
          >>=-eq-ok (read_header (take wal_record_header_size remaining)) _ read in
        let (_, _, h2) = >>=-eq-ok (check_header limits place header) _ h1 in
        sized_record-Advances limits is_final place header remaining found h2)
      h

-- What is left after a record is shorter.
pub shorter :
    (k size : ℕ) (b : ℕ) (bs : List ℕ)
    → 40 ≤ size
    → length (b ∷ bs) ≤ suc k
    → length (drop size (b ∷ bs)) ≤ k
shorter k size b bs more h = omega (arith, more, h, length-drop size (b ∷ bs))

scan_found :
    (limits : StorageLimits) (is_final : Bool) (first_index : ℕ) (scan : SegmentScan) (k m : ℕ)
    (b : ℕ) (bs : List ℕ)
    → ((next : SegmentScan) (rest : List ℕ)
        → length rest ≤ k
        → length rest ≤ m
        → scan_records k limits is_final first_index next rest
          ≡ scan_records m limits is_final first_index next rest)
    → length (b ∷ bs) ≤ suc k
    → length (b ∷ bs) ≤ suc m
    → (r : Result Scanned) → next_record limits is_final (place_of first_index scan) (b ∷ bs) ≡ r
    → scan_records (suc k) limits is_final first_index scan (b ∷ bs)
      ≡ scan_records (suc m) limits is_final first_index scan (b ∷ bs)
unfolding scan_records
scan_found limits is_final first_index scan k m b bs same long_k long_m (err x) h = rw h refl
scan_found limits is_final first_index scan k m b bs same long_k long_m (ok torn) h = rw h refl
scan_found limits is_final first_index scan k m b bs same long_k long_m (ok (scanned e size)) h =
    let more : 40 ≤ size =
      next_record-Advances limits is_final (place_of first_index scan) (b ∷ bs) (scanned e size)
        h in
    rw
      (
        h,
        same (take_record scan e size) (drop size (b ∷ bs)) (shorter k size b bs more long_k)
            (shorter m size b bs more long_m),
      )
      refl

-- Once the fuel is the number of the bytes, more of it changes nothing: the loop over the records of
-- a segment ends within that many rounds, whatever the bytes are.
pub scan_records-enough :
    (k m : ℕ) (limits : StorageLimits) (is_final : Bool) (first_index : ℕ) (scan : SegmentScan)
    (bytes : List ℕ)
    → length bytes ≤ k
    → length bytes ≤ m
    → scan_records k limits is_final first_index scan bytes
      ≡ scan_records m limits is_final first_index scan bytes
unfolding scan_records
scan_records-enough zero zero limits is_final first_index scan bytes h i = refl
scan_records-enough zero (suc m) limits is_final first_index scan [] h i = refl
scan_records-enough zero (suc m) limits is_final first_index scan (b ∷ bs) h i = ground (arith, h)
scan_records-enough (suc k) zero limits is_final first_index scan [] h i = refl
scan_records-enough (suc k) zero limits is_final first_index scan (b ∷ bs) h i = ground (arith, i)
scan_records-enough (suc k) (suc m) limits is_final first_index scan [] h i = refl
scan_records-enough (suc k) (suc m) limits is_final first_index scan (b ∷ bs) h i =
    scan_found limits is_final first_index scan k m b bs
      (λ next rest long_k long_m.
        scan_records-enough k m limits is_final first_index next rest long_k long_m)
      h i _ refl
