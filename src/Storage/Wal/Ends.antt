-- ===== src/Storage/Wal/Ends.antt =====
-- The loop of `recover_locked` in src/durable_storage.cpp over a segment does not run out of fuel.
use kura_metadata_store.Prelude.{
  ℕ, zero, suc, ◌-◌, ◌≤◌, ◌≡◌, ◌≢◌, subst, refl, Bool, true, false, ◌||◌, Option, none, some, List,
  [], ◌∷◌, ltb, if◌then◌else◌, String, length, drop, arith,
}
use kura_metadata_store.Prelude.Exception.{
  Exception, Result, ok, err, ◌>>=◌, ◌>>◌, throw_if, storage_error, logic_error,
}
use kura_metadata_store.Storage.Codec.{StorageLimits, read_le}
use kura_metadata_store.Storage.Wal.Format.{
  RecordHeader, Place, Scanned, torn, scanned, read_durable, read_header, check_header,
  expected_index, check_payload, torn_end, sized_record, next_record,
}
use kura_metadata_store.Storage.Wal.Scan.{SegmentScan, place_of, take_record, scan_records}
use kura_metadata_store.Storage.Wal.Fuel.{next_record-Advances, shorter, scan_records-enough}

-- A result that is not the end of the fuel: no other failure is a `std::logic_error` there.
abbrev IsThrown : Exception → Type 0
IsThrown (logic_error message) = ⊥
IsThrown _ = Unit {0}

abbrev pub IsResult {ℓ} : {A : Type ℓ} → Result A → Type 0
IsResult (ok a) = Unit {0}
IsResult (err e) = IsThrown e

>>=-IsResult {ℓ κ} :
    {A : Type ℓ} {B : Type κ} (r : Result A) (rest : A → Result B)
    → IsResult r
    → ((a : A) → IsResult (rest a))
    → IsResult (r >>= rest)
>>=-IsResult (err e) rest h go = h
>>=-IsResult (ok a) rest h go = go a

throw_if-IsResult :
    (test : Bool) (message : String) → IsResult (throw_if test (storage_error message))
throw_if-IsResult true message = tt
throw_if-IsResult false message = tt

-- A throw of a storage error, and the rest.
throws_or {κ} :
    {B : Type κ} (test : Bool) (message : String) (rest : Result B)
    → IsResult rest
    → IsResult (throw_if test (storage_error message) >> rest)
throws_or true message rest h = tt
throws_or false message rest h = h

either-IsResult {κ} :
    {B : Type κ} (test : Bool) (x y : Result B)
    → IsResult x
    → IsResult y
    → IsResult (if test then x else y)
either-IsResult true x y h k = h
either-IsResult false x y h k = k

read_durable-IsResult :
    (width : ℕ) (view : List ℕ) (offset : ℕ) → IsResult (read_durable width view offset)
unfolding read_durable read_le
read_durable-IsResult width view offset =
    either-IsResult (ltb (length view) offset || ltb (length view - offset) width) _ _ tt tt

-- A field, and the rest.
reads {κ} :
    {B : Type κ} (width : ℕ) (view : List ℕ) (offset : ℕ) (rest : ℕ → Result B)
    → ((n : ℕ) → IsResult (rest n))
    → IsResult (read_durable width view offset >>= rest)
reads width view offset rest go =
    >>=-IsResult (read_durable width view offset) rest (read_durable-IsResult width view offset) go

read_header-IsResult : (header : List ℕ) → IsResult (read_header header)
unfolding read_header
read_header-IsResult header = search (reads, throws_or) depth 14

expected_index-IsResult : (expected : Option ℕ) → IsResult (expected_index expected)
expected_index-IsResult none = tt
expected_index-IsResult (some n) = tt

check_header-IsResult :
    (limits : StorageLimits) (place : Place) (h : RecordHeader)
    → IsResult (check_header limits place h)
unfolding check_header
check_header-IsResult limits place h =
    search (throws_or, >>=-IsResult, expected_index-IsResult, throw_if-IsResult) depth 10

torn_end-IsResult :
    (is_final : Bool) (message : String) → IsResult (torn_end is_final (storage_error message))
torn_end-IsResult true message = tt
torn_end-IsResult false message = tt

next_record-IsResult :
    (limits : StorageLimits) (is_final : Bool) (place : Place) (remaining : List ℕ)
    → IsResult (next_record limits is_final place remaining)
unfolding next_record sized_record check_payload
next_record-IsResult limits is_final place remaining =
    search
      (
        either-IsResult, torn_end-IsResult, >>=-IsResult, read_header-IsResult,
        check_header-IsResult, throws_or,
      )
      depth 10

found-IsResult :
    (limits : StorageLimits) (is_final : Bool) (first_index : ℕ) (scan : SegmentScan) (k : ℕ)
    (b : ℕ) (bs : List ℕ)
    → ((next : SegmentScan) (rest : List ℕ)
        → length rest ≤ k
        → IsResult (scan_records k limits is_final first_index next rest))
    → length (b ∷ bs) ≤ suc k
    → (r : Result Scanned) → next_record limits is_final (place_of first_index scan) (b ∷ bs) ≡ r
    → IsResult r
    → IsResult (scan_records (suc k) limits is_final first_index scan (b ∷ bs))
unfolding scan_records
found-IsResult limits is_final first_index scan k b bs go long (err x) h fine = rw h fine
found-IsResult limits is_final first_index scan k b bs go long (ok torn) h fine = rw h tt
found-IsResult limits is_final first_index scan k b bs go long (ok (scanned e size)) h fine =
    let more : 40 ≤ size =
      next_record-Advances limits is_final (place_of first_index scan) (b ∷ bs) (scanned e size)
        h in
    rw h (
      throws_or _ _ _
        (go (take_record scan e size) (drop size (b ∷ bs)) (shorter k size b bs more long)))

scan_records-IsResult :
    (k : ℕ) (limits : StorageLimits) (is_final : Bool) (first_index : ℕ) (scan : SegmentScan)
    (bytes : List ℕ)
    → length bytes ≤ k
    → IsResult (scan_records k limits is_final first_index scan bytes)
unfolding scan_records
scan_records-IsResult zero limits is_final first_index scan [] h = tt
scan_records-IsResult zero limits is_final first_index scan (b ∷ bs) h = ground (arith, h)
scan_records-IsResult (suc k) limits is_final first_index scan [] h = tt
scan_records-IsResult (suc k) limits is_final first_index scan (b ∷ bs) h =
    found-IsResult limits is_final first_index scan k b bs
      (λ next rest long. scan_records-IsResult k limits is_final first_index next rest long) h _
      refl (next_record-IsResult limits is_final (place_of first_index scan) (b ∷ bs))

-- With the number of the bytes as its fuel the loop over the records of a segment does not run out of
-- it, whatever the bytes are, and with more fuel it gives the same.
pub scan_records-ends :
    (k : ℕ) (limits : StorageLimits) (is_final : Bool) (first_index : ℕ) (scan : SegmentScan)
    (bytes : List ℕ)
    → length bytes ≤ k
    → (scan_records (length bytes) limits is_final first_index scan bytes
        ≢ err (logic_error "out of fuel"))
      × (scan_records k limits is_final first_index scan bytes
          ≡ scan_records (length bytes) limits is_final first_index scan bytes)
scan_records-ends k limits is_final first_index scan bytes h = (
  λ out.
      subst IsResult out
        (scan_records-IsResult (length bytes) limits is_final first_index scan bytes (omega arith)),
  scan_records-enough k (length bytes) limits is_final first_index scan bytes h (omega arith),
)
