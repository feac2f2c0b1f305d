-- ===== src/Storage/Wal/Scan.antt =====
-- The loop over the records of a segment in `recover_locked` of src/durable_storage.cpp.
use kura_metadata_store.Prelude.{
  ℕ, zero, suc, ◌+◌, Bool, true, false, ◌||◌, ◌&&◌, not, Option, none, some, List, [], ◌∷◌, ◌++◌,
  ◌==◌, if◌then◌else◌, drop, u64_max,
}
use kura_metadata_store.Prelude.Exception.{
  Result, ok, err, ◌>>=◌, ◌>>◌, throw_if, storage_error, logic_error,
}
use kura_metadata_store.Storage.Codec.{StorageLimits}
use kura_metadata_store.Storage.Wal.Format.{WalEntry, Place, torn, scanned, next_record}

-- What the recovery has found so far: `entries`, `expected`, `recovered_record_count_` and
-- `last_index_`.
pub record Recovery : Type 0 where
  pub entries : List WalEntry
  pub expected : Option ℕ
  pub count : ℕ
  pub last_index : Option ℕ

-- The same within a segment, with `segment.maximum_index`, and `offset`, which ends as
-- `segment.size`.
pub record SegmentScan : Type 0 where
  pub recovery : Recovery
  pub maximum_index : Option ℕ
  pub offset : ℕ

abbrev pub is_none : Option ℕ → Bool
is_none none = true
is_none (some n) = false

abbrev pub no_bytes : List ℕ → Bool
no_bytes [] = true
no_bytes (b ∷ bs) = false

abbrev pub place_of : ℕ → SegmentScan → Place
place_of first_index scan = record {
  expected = scan.recovery.expected;
  first_record = is_none scan.maximum_index;
  first_index = first_index;
  count = scan.recovery.count;
}

-- `index + 1U`, but for the greatest index.
abbrev pub index_after : ℕ → Option ℕ
index_after index = if index == u64_max then none else some (index + 1)

-- The writes of a round that has read a record.
abbrev pub take_record : SegmentScan → WalEntry → ℕ → SegmentScan
take_record scan entry size = record {
  recovery = record {
    entries = scan.recovery.entries ++ entry ∷ [];
    expected = index_after entry.index;
    count = scan.recovery.count + 1;
    last_index = some entry.index;
  };
  maximum_index = some entry.index;
  offset = scan.offset + size;
}

-- `fuel` bounds the rounds; each takes 40 bytes at least, so the length of the bytes is enough.
unfoldable pub scan_records :
    ℕ → StorageLimits → Bool → ℕ → SegmentScan → List ℕ → Result SegmentScan
scan_records fuel limits is_final first_index scan [] = ok scan
scan_records zero limits is_final first_index scan (b ∷ bs) = err (logic_error "out of fuel")
scan_records (suc fuel) limits is_final first_index scan (b ∷ bs) =
    next_record limits is_final (place_of first_index scan) (b ∷ bs) >>= λ found. elim found [
      | torn ↦ ok scan
      | scanned entry size ↦
          throw_if (entry.index == u64_max && (not (no_bytes (drop size (b ∷ bs))) || not is_final))
            (storage_error "WAL contains records after maximum index")
          >> scan_records fuel limits is_final first_index (take_record scan entry size)
              (drop size (b ∷ bs))
    ]
