-- ===== src/Storage/Wal/Scans.antt =====
-- The loop of `recover_locked` in src/durable_storage.cpp over a whole segment.
use kura_metadata_store.Prelude.{
  ℕ, zero, suc, ◌+◌, ◌^◌, ◌<◌, ◌≤◌, ◌≡◌, refl, sym, ap, ◌∙◌, Bool, true, false, List, [], ◌∷◌, ◌++◌,
  ◌==◌, length, drop, u64_max, arith,
}
use mathlib.Core.List.{append_assoc, append-nil}
use kura_metadata_store.Prelude.Exception.{ok}
use kura_metadata_store.Storage.Codec.{StorageLimits}
use kura_metadata_store.Storage.Wal.Format.{
  WalEntry, encode_record, record_fields, next_record, scanned,
}
use kura_metadata_store.Storage.Wal.Scan.{SegmentScan, place_of, take_record, scan_records}
use kura_metadata_store.Storage.Wal.Records.{FitsAt, next_record-encode_record, cuts}
use kura_metadata_store.Storage.Wal.Torn.{next_record_torn}

-- The bytes of records in a row.
unfoldable pub encode_all : List WalEntry → List ℕ
encode_all [] = []
encode_all (e ∷ es) = encode_record e ++ encode_all es

-- The scan after some records.
abbrev pub taken : SegmentScan → List WalEntry → SegmentScan
taken scan [] = scan
taken scan (e ∷ es) = taken (take_record scan e (40 + length e.payload)) es

-- Each entry fits the place that those before it leave, and none has the greatest index.
abbrev pub AllFit : StorageLimits → ℕ → SegmentScan → List WalEntry → Type 0
AllFit limits first_index scan [] = Unit {0}
AllFit limits first_index scan (e ∷ es) =
    FitsAt limits (place_of first_index scan) e
    × (e.index + 1 < 2 ^ 64)
    × AllFit limits first_index (take_record scan e (40 + length e.payload)) es

typed : (e : WalEntry) → e.type ≡ 1 → record e { type = 1 } ≡ e
typed e h = ground arith

-- One round of `scan_records` on a record of known contents.
scan_step :
    (n : ℕ) (limits : StorageLimits) (is_final : Bool) (first_index : ℕ) (scan : SegmentScan)
    (b : ℕ) (bs : List ℕ) (e : WalEntry) (size : ℕ)
    → next_record limits is_final (place_of first_index scan) (b ∷ bs) ≡ ok (scanned e size)
    → e.index + 1 < 2 ^ 64
    → scan_records (suc n) limits is_final first_index scan (b ∷ bs)
      ≡ scan_records n limits is_final first_index (take_record scan e size) (drop size (b ∷ bs))
unfolding scan_records
scan_step n limits is_final first_index scan b bs e size h below =
    let inside : (e.index == u64_max) ≡ false = ground arith in rw (h, inside) refl

scan_one :
    (n : ℕ) (limits : StorageLimits) (is_final : Bool) (first_index : ℕ) (scan : SegmentScan)
    (e : WalEntry) (more : List ℕ)
    → FitsAt limits (place_of first_index scan) e
    → e.index + 1 < 2 ^ 64
    → scan_records (suc n) limits is_final first_index scan (encode_record e ++ more)
      ≡ scan_records n limits is_final first_index (take_record scan e (40 + length e.payload)) more
unfolding encode_record record_fields
scan_one n limits is_final first_index scan e more fits below =
    scan_step n limits is_final first_index scan _ _ e (40 + length e.payload)
      (next_record-encode_record limits is_final (place_of first_index scan) e more fits
        ∙ ap (λ (x : WalEntry). ok (scanned x (40 + length e.payload))) (typed e fits.type))
      below
    ∙ ap
        (λ (t : List ℕ).
          scan_records n limits is_final first_index (take_record scan e (40 + length e.payload)) t)
        (cuts e more).rest

-- The scan reads back records that stand one after another, and goes on behind them.
pub scan_records-encode_all :
    (n k : ℕ) (limits : StorageLimits) (is_final : Bool) (first_index : ℕ) (scan : SegmentScan)
    (es : List WalEntry) (tail : List ℕ)
    → n ≡ length es + k
    → AllFit limits first_index scan es
    → scan_records n limits is_final first_index scan (encode_all es ++ tail)
      ≡ scan_records k limits is_final first_index (taken scan es) tail
unfolding encode_all
scan_records-encode_all n k limits is_final first_index scan [] tail h fit =
    let same : n ≡ k = omega arith in rw same refl
scan_records-encode_all zero k limits is_final first_index scan (e ∷ es) tail h fit =
    absurd (omega arith)
scan_records-encode_all (suc n) k limits is_final first_index scan (e ∷ es) tail h
      (fits, below, fit) =
    ap (λ (t : List ℕ). scan_records (suc n) limits is_final first_index scan t)
      (append_assoc (encode_record e) (encode_all es) tail)
    ∙ scan_one n limits is_final first_index scan e (encode_all es ++ tail) fits below
    ∙ scan_records-encode_all n k limits is_final first_index
        (take_record scan e (40 + length e.payload)) es tail (omega arith) fit

pub scan_records_torn :
    (k : ℕ) (limits : StorageLimits) (first_index : ℕ) (scan : SegmentScan) (e : WalEntry) (x : ℕ)
    (front back : List ℕ)
    → FitsAt limits (place_of first_index scan) e
    → encode_record e ≡ front ++ (x ∷ back)
    → length front ≤ k
    → scan_records k limits true first_index scan front ≡ ok scan
unfolding scan_records
scan_records_torn k limits first_index scan e x [] back fits h long = refl
scan_records_torn zero limits first_index scan e x (b ∷ bs) back fits h long = absurd (omega arith)
scan_records_torn (suc k) limits first_index scan e x (b ∷ bs) back fits h long =
    rw (next_record_torn limits (place_of first_index scan) e x (b ∷ bs) back fits h) refl

pub taken-entries :
    (scan : SegmentScan) (es : List WalEntry)
    → (taken scan es).recovery.entries ≡ scan.recovery.entries ++ es
taken-entries scan [] = sym (append-nil scan.recovery.entries)
taken-entries scan (e ∷ es) =
    taken-entries (take_record scan e (40 + length e.payload)) es
    ∙ append_assoc scan.recovery.entries (e ∷ []) es

pub taken-offset :
    (scan : SegmentScan) (es : List WalEntry)
    → (taken scan es).offset ≡ scan.offset + length (encode_all es)
unfolding encode_all
taken-offset scan [] = omega arith
taken-offset scan (e ∷ es) =
    taken-offset (take_record scan e (40 + length e.payload)) es
    ∙ omega (arith, (cuts e (encode_all es)).size)

pub length-encode_all-ge : (es : List WalEntry) → length es ≤ length (encode_all es)
unfolding encode_all
length-encode_all-ge [] = omega arith
length-encode_all-ge (e ∷ es) =
    omega (arith, (cuts e (encode_all es)).size, length-encode_all-ge es)
