-- ===== src/Storage/Snapshots/Published.antt =====
-- What `FileSnapshotStore` of src/durable_storage.cpp publishes is its latest snapshot.
use kura_metadata_store.Prelude.{
  String, ℕ, ◌<◌, ◌≡◌, refl, sym, ap, ◌∙◌, Bool, true, false, Bool-cases, inl, inr, Option, none,
  some, List, [], ◌∷◌, leb, ◌==◌, arith,
}
use kura_metadata_store.Prelude.Exception.{
  Result, ok, err, throw_if, storage_error, >>=-eq-ok, ok-injective,
}
use kura_metadata_store.Storage.Codec.{StorageLimits}
use kura_metadata_store.Storage.Names.{parse_decimal_name-decimal_name}
use kura_metadata_store.Storage.Snapshots.{
  Snapshot, decode_snapshot, encode_snapshot, snapshot_checksum, validate_snapshot_value,
}
use kura_metadata_store.Storage.Snapshots.Members.{FitsSnapshot}
use kura_metadata_store.Storage.Snapshots.Valid.{valid}
use kura_metadata_store.Storage.Snapshots.RoundTrip.{decode_snapshot-encode_snapshot}
use kura_metadata_store.Storage.Snapshots.Latest.{
  snapshot_prefix, snapshot_suffix, snapshot_name, candidate_of, candidates, insert_candidate,
  sort_candidates, first_valid, choose_latest, latest_locked, covers, exists_file, publish,
}

-- A candidate of its own index in front of the others.
first_valid-own :
    (index : ℕ) (s : Snapshot) (rest : Option Snapshot)
    → s.metadata.last_included_index ≡ index
    → first_valid index (ok s) rest ≡ some s
first_valid-own index s rest h = ground arith

-- A candidate above a new snapshot is no valid one, where the latest does not cover the new one.
passed_over :
    (index : ℕ) (r : Result Snapshot) (rest : Option Snapshot) (s : Snapshot)
    → s.metadata.last_included_index < index
    → covers (first_valid index r rest) s ≡ false
    → (first_valid index r rest ≡ rest)
      × ((other : Option Snapshot) → first_valid index r other ≡ other)
passed_over index (err e) rest s above new = (refl, λ other. refl)
passed_over index (ok t) rest s above new =
    elim (Bool-cases (t.metadata.last_included_index == index)) [
      | inl own ↦ ground (arith, own)
      | inr another ↦ (rw another refl, λ other. rw another refl)
    ]

choose_latest-insert :
    (limits : StorageLimits) (s : Snapshot) (bytes : List ℕ) (cs : List (ℕ × List ℕ))
    → decode_snapshot bytes limits ≡ ok s
    → covers (choose_latest limits cs) s ≡ false
    → choose_latest limits (insert_candidate (s.metadata.last_included_index, bytes) cs) ≡ some s
unfolding choose_latest insert_candidate
choose_latest-insert limits s bytes [] reads new =
    rw reads (first_valid-own s.metadata.last_included_index s none refl)
choose_latest-insert limits s bytes ((index, contents) ∷ cs) reads new =
    elim (Bool-cases (leb index s.metadata.last_included_index)) [
      | inl first ↦ rw (first, reads) (first_valid-own s.metadata.last_included_index s _ refl)
      | inr behind ↦
          let (same, skip) =
            passed_over index (decode_snapshot contents limits) (choose_latest limits cs) s
              (ground (arith, behind)) new in
          rw behind (
            skip
              (choose_latest limits (insert_candidate (s.metadata.last_included_index, bytes) cs))
            ∙ choose_latest-insert limits s bytes cs reads
                (sym (ap (λ (o : Option Snapshot). covers o s) same) ∙ new))
    ]

-- What `publish` that succeeds did.
record Publishes (limits : StorageLimits) (files files' : List (List ℕ × List ℕ)) (s : Snapshot)
    : Type 0 where
  bytes : List ℕ
  newest : covers (latest_locked limits files) s ≡ false
  encoded : encode_snapshot s limits ≡ ok bytes
  written : files' ≡ (snapshot_name s, bytes) ∷ files

not_thrown :
    (test : Bool) (message : String) (u : Unit {0})
    → throw_if test (storage_error message) ≡ ok u
    → test ≡ false
not_thrown true message u h = cc
not_thrown false message u h = refl

publishes :
    (limits : StorageLimits) (files files' : List (List ℕ × List ℕ)) (s : Snapshot)
    → publish limits files s ≡ ok files'
    → Publishes limits files files' s
unfolding publish
publishes limits files files' s h =
    let (u, newest, h1) =
      >>=-eq-ok
        (throw_if (covers (latest_locked limits files) s)
          (storage_error "snapshot publication must advance the snapshot index"))
        _ h in
    let (bytes, encoded, h2) = >>=-eq-ok (encode_snapshot s limits) _ h1 in
    let (_, _, written) =
      >>=-eq-ok
        (throw_if (exists_file files (snapshot_name s))
          (storage_error "refusing to replace an existing snapshot"))
        _ h2 in
    record {
      bytes = bytes;
      newest = not_thrown (covers (latest_locked limits files) s) _ u newest;
      encoded = encoded;
      written = sym (ok-injective written);
    }

nonzero_index :
    (s : Snapshot) (limits : StorageLimits) (bytes : List ℕ)
    → encode_snapshot s limits ≡ ok bytes
    → (s.metadata.last_included_index == 0) ≡ false
unfolding encode_snapshot
nonzero_index s limits bytes h =
    let (u, valid_s, _) = >>=-eq-ok (validate_snapshot_value s limits) _ h in
    (valid s limits u valid_s).index

candidate_nonzero :
    (index : ℕ) (contents : List ℕ) (rest : List (ℕ × List ℕ))
    → (index == 0) ≡ false
    → candidate_of contents (some index) rest ≡ (index, contents) ∷ rest
candidate_nonzero index contents rest h = rw h refl

covers_checksum :
    (latest : Option Snapshot) (s : Snapshot) (n : ℕ)
    → covers latest (record s { checksum = n }) ≡ covers latest s
covers_checksum none s n = refl
covers_checksum (some t) s n = refl

-- A snapshot that `publish` accepts is from then on what `latest` gives, with the checksum that was
-- written, where its numbers fit their fields: whatever files the directory holds, broken ones too.
pub publish-latest_locked :
    (limits : StorageLimits) (files files' : List (List ℕ × List ℕ)) (s : Snapshot)
    → FitsSnapshot s limits
    → publish limits files s ≡ ok files'
    → latest_locked limits files' ≡ some (record s { checksum = snapshot_checksum s })
unfolding latest_locked candidates sort_candidates
publish-latest_locked limits files files' s fits h =
    let p = publishes limits files files' s h in
    rw
      (
        p.written,
        parse_decimal_name-decimal_name snapshot_prefix snapshot_suffix
            s.metadata.last_included_index fits.index,
        candidate_nonzero s.metadata.last_included_index p.bytes (candidates files)
            (nonzero_index s limits p.bytes p.encoded),
      )
      (choose_latest-insert limits (record s { checksum = snapshot_checksum s }) p.bytes
        (sort_candidates (candidates files))
        (decode_snapshot-encode_snapshot s limits p.bytes fits p.encoded)
        (covers_checksum (latest_locked limits files) s _ ∙ p.newest))
