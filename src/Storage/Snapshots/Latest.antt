-- ===== src/Storage/Snapshots/Latest.antt =====
-- `FileSnapshotStore::Impl` of src/durable_storage.cpp on the regular files of its directory: the
-- newest snapshot that reads well, `publish`, and `validate` of one file.
use kura_metadata_store.Prelude.{
  ℕ, Bool, true, false, not, Option, none, some, List, [], ◌∷◌, leb, ◌==◌, if◌then◌else◌,
}
use kura_metadata_store.Prelude.Exception.{Result, ok, err, ◌>>=◌, ◌>>◌, throw_if, storage_error}
use kura_metadata_store.Bytes.{key_is}
use kura_metadata_store.Storage.Codec.{StorageLimits, fail}
use kura_metadata_store.Storage.Names.{decimal_name, parse_decimal_name}
use kura_metadata_store.Storage.Snapshots.{Snapshot, decode_snapshot, encode_snapshot}

-- "snapshot-" and ".ksnap".
abbrev pub snapshot_prefix : List ℕ
snapshot_prefix = 115 ∷ 110 ∷ 97 ∷ 112 ∷ 115 ∷ 104 ∷ 111 ∷ 116 ∷ 45 ∷ []

abbrev pub snapshot_suffix : List ℕ
snapshot_suffix = 46 ∷ 107 ∷ 115 ∷ 110 ∷ 97 ∷ 112 ∷ []

-- `index && *index != 0`.
abbrev pub candidate_of : List ℕ → Option ℕ → List (ℕ × List ℕ) → List (ℕ × List ℕ)
candidate_of contents none rest = rest
candidate_of contents (some index) rest = if index == 0 then rest else (index, contents) ∷ rest

unfoldable pub candidates : List (List ℕ × List ℕ) → List (ℕ × List ℕ)
candidates [] = []
candidates ((name, contents) ∷ files) =
    candidate_of contents (parse_decimal_name name snapshot_prefix snapshot_suffix)
      (candidates files)

-- `std::sort`, the greatest index first.
unfoldable pub insert_candidate : ℕ × List ℕ → List (ℕ × List ℕ) → List (ℕ × List ℕ)
insert_candidate c [] = c ∷ []
insert_candidate c (d ∷ ds) = if leb d.0 c.0 then c ∷ d ∷ ds else d ∷ insert_candidate c ds

unfoldable pub sort_candidates : List (ℕ × List ℕ) → List (ℕ × List ℕ)
sort_candidates [] = []
sort_candidates (c ∷ cs) = insert_candidate c (sort_candidates cs)

-- The body of the loop: a candidate that decodes to its own index; else the rest of the loop. A
-- `StorageError` is caught, and `decode_snapshot` throws no other.
abbrev pub first_valid : ℕ → Result Snapshot → Option Snapshot → Option Snapshot
first_valid index (err e) rest = rest
first_valid index (ok s) rest = if s.metadata.last_included_index == index then some s else rest

unfoldable pub choose_latest : StorageLimits → List (ℕ × List ℕ) → Option Snapshot
choose_latest limits [] = none
choose_latest limits ((index, contents) ∷ cs) =
    first_valid index (decode_snapshot contents limits) (choose_latest limits cs)

unfoldable pub latest_locked : StorageLimits → List (List ℕ × List ℕ) → Option Snapshot
latest_locked limits files = choose_latest limits (sort_candidates (candidates files))

abbrev pub covers : Option Snapshot → Snapshot → Bool
covers none snapshot = false
covers (some current) snapshot =
    leb snapshot.metadata.last_included_index current.metadata.last_included_index

abbrev pub snapshot_name : Snapshot → List ℕ
snapshot_name snapshot =
    decimal_name snapshot_prefix snapshot.metadata.last_included_index snapshot_suffix

-- `std::filesystem::exists`, among the regular files.
unfoldable pub exists_file : List (List ℕ × List ℕ) → List ℕ → Bool
exists_file [] name = false
exists_file ((n, contents) ∷ files) name = if key_is n name then true else exists_file files name

-- `publish`: the files after it. The writing of the temporary file and its renaming are taken to
-- work.
unfoldable pub publish :
    StorageLimits → List (List ℕ × List ℕ) → Snapshot → Result (List (List ℕ × List ℕ))
publish limits files snapshot = do
  throw_if (covers (latest_locked limits files) snapshot)
      (storage_error "snapshot publication must advance the snapshot index")
  bytes ← encode_snapshot snapshot limits
  throw_if (exists_file files (snapshot_name snapshot))
      (storage_error "refusing to replace an existing snapshot")
  ok ((snapshot_name snapshot, bytes) ∷ files)

-- `validate` of a file in the store's directory.
unfoldable pub validate_file : StorageLimits → List ℕ → List ℕ → Result Snapshot
validate_file limits name contents =
    elim (parse_decimal_name name snapshot_prefix snapshot_suffix) [
      | none ↦ fail "snapshot validation path is outside the owned directory"
      | some name_index ↦ decode_snapshot contents limits >>= λ snapshot.
          throw_if (not (snapshot.metadata.last_included_index == name_index))
            (storage_error "snapshot filename and content index differ")
          >> ok snapshot
    ]
