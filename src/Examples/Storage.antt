-- ===== src/Examples/Storage.antt =====
-- Concrete hard states and snapshots, a concrete file system, and the theorems about them.
use kura_metadata_store.Prelude.{
  ℕ, sym, ◌≡◌, ◌⊎◌, inl, inr, take, refl, true, Option, none, some, List, [], ◌∷◌, ◌++◌, arith,
}
use kura_metadata_store.Prelude.Int.{pos}
use kura_metadata_store.Prelude.Exception.{ok, storage_error}
use kura_metadata_store.Raft.{RaftHardState, PersistRaftHardState}
use kura_metadata_store.Bytes.{cmp_bytes}
use kura_metadata_store.Bytes.Prefix.{starts_with}
use kura_metadata_store.Storage.Codec.{StorageLimits, le_bytes, crc32c}
use kura_metadata_store.Storage.Names.{
  decimal_digits, decimal_name, ends_with, parse_digits, parse_decimal_name,
  parse_decimal_name-decimal_name,
}
use kura_metadata_store.Storage.HardState.{hard_state_fields, encode, decode, validate_transition}
use kura_metadata_store.Storage.HardState.RoundTrip.{decode-encode}
use kura_metadata_store.Storage.HardState.Files.{
  Outcome, done, failed, wrote, synchronized, FileSystem, IsFileSystem,
}
use kura_metadata_store.Storage.HardState.Persist.{
  RaftHardStateWriteBoundary, final_replaced, HardStateStore, persist, after_checks, check_persist,
  persist_checked, persist_change, after_write, write_record, write_all, write_temporary, reached,
}
use kura_metadata_store.Storage.HardState.Atomic.{Persisted, persist-Persisted}
use kura_metadata_store.Storage.Wal.Recover.{wal_prefix, wal_suffix}
use kura_metadata_store.Storage.Snapshots.{
  Snapshot, check_members, validate_snapshot_value, snapshot_checksum, snapshot_bytes,
  encode_snapshot, decode_snapshot, read_snapshot_header,
}
use kura_metadata_store.Storage.Snapshots.Members.{FitsSnapshot}
use kura_metadata_store.Storage.Snapshots.RoundTrip.{decode_snapshot-encode_snapshot}
use kura_metadata_store.Storage.Snapshots.Latest.{
  snapshot_name, candidates, insert_candidate, sort_candidates, choose_latest, latest_locked,
  exists_file, publish,
}
use kura_metadata_store.Storage.Snapshots.Published.{publish-latest_locked}

abbrev pub disk_limits : StorageLimits
disk_limits = record {
  wal_segment_bytes = 1000;
  max_wal_payload_bytes = 100;
  max_recovery_records = 10;
  max_snapshot_bytes = 1000;
  max_raft_hard_state_bytes = 4096;
  max_snapshot_members = 10;
  snapshot_interval_entries = 10;
  backend_quota_bytes = 1000;
}

abbrev voted : RaftHardState
voted = record { current_term = 3; voted_for = some 2 }

abbrev voted_bytes : List ℕ
voted_bytes =
    hard_state_fields 7 voted ++ (le_bytes 4 (crc32c (hard_state_fields 7 voted)) ++ le_bytes 4 0)

decode-encode_example :
    decode disk_limits voted_bytes ≡ ok (record { generation = 7; state = voted })
unfolding encode
decode-encode_example =
    decode-encode disk_limits 7 voted voted_bytes (omega arith)
      (record { generation_fits = omega arith; term_fits = omega arith; vote_fits = omega arith })
      refl

-- A disk whose medium may lag behind what a program reads.
record Disk : Type 0 where
  final_file : Option (List ℕ)
  temporary_file : Option (List ℕ)
  final_on_medium : Option (List ℕ)

abbrev more_bytes : List ℕ → Option (List ℕ) → Option (List ℕ)
more_bytes bytes none = none
more_bytes bytes (some before) = some (before ++ bytes)

abbrev rename_file : Option (List ℕ) → Disk → Disk × Outcome
rename_file none d = (d, failed (storage_error "no such file"))
rename_file (some t) d = (record d { final_file = some t; temporary_file = none }, done)

-- It takes one byte at a time. What a restart finds is the final file, or what the medium has of it;
-- without a power failure in between, what the medium has of the temporary file is the file.
abbrev slow_disk : FileSystem Disk
slow_disk = record {
  final = λ d. d.final_file;
  temporary = λ d. d.temporary_file;
  found = λ d c. (c ≡ d.final_file) ⊎ (c ≡ d.final_on_medium);
  staged = λ d t. d.temporary_file ≡ some t;
  create_directories = λ d. (d, done);
  inspect = λ d. done;
  read = λ d. done;
  create_new = λ d. (record d { temporary_file = some [] }, done);
  write = λ bytes d.
      (record d { temporary_file = more_bytes (take 1 bytes) d.temporary_file }, wrote 1);
  fsync = λ d. (d, done);
  close = λ d. (d, done);
  rename = λ d. rename_file d.temporary_file d;
  fsync_directory = λ d. (record d { final_on_medium = d.final_file }, synchronized);
  remove_temporary = λ d. record d { temporary_file = none };
}

appends :
    (bytes before : List ℕ) (t : Option (List ℕ)) (count : ℕ)
    → t ≡ some before
    → wrote 1 ≡ wrote count
    → more_bytes (take 1 bytes) t ≡ some (before ++ take count bytes)
appends bytes before t count h k = let e : 1 ≡ count = cc in rw (h, sym e) refl

staged_once : (bytes t : List ℕ) (o : Option (List ℕ)) → o ≡ some bytes → o ≡ some t → t ≡ bytes
staged_once bytes t o h k = cc

renames :
    (d : Disk) (c o : Option (List ℕ))
    → d.temporary_file ≡ o
    → slow_disk.found (rename_file o d).0 c
    → slow_disk.found d c ⊎ ((t : List ℕ) × (d.temporary_file ≡ some t) × (c ≡ some t))
renames d c none h found = inl found
renames d c (some t) h (inl new) = inr (t, h, new)
renames d c (some t) h (inr old) = inl (inr old)

renames_final :
    (d : Disk) (o : Option (List ℕ))
    → (rename_file o d).1 ≡ done
    → (rename_file o d).0.final_file ≡ o
renames_final d none h = cc
renames_final d (some t) h = refl

either_way : (c f : Option (List ℕ)) → (c ≡ f) ⊎ (c ≡ f) → c ≡ f
either_way c f (inl h) = h
either_way c f (inr h) = h

slow_disk-IsFileSystem : IsFileSystem slow_disk
slow_disk-IsFileSystem = record {
  final-found = λ d. inl refl;
  create_new-found = λ d c h. h;
  create_new-empty = λ d h. refl;
  write-found = λ bytes d c h. h;
  write-appends = λ bytes before d count h k. appends bytes before d.temporary_file count h k;
  fsync-found = λ d c h. h;
  fsync-temporary = λ d. refl;
  fsync-staged = λ d bytes t h good staged. staged_once bytes t d.temporary_file h staged;
  close-found = λ d c h. h;
  close-temporary = λ d. refl;
  close-staged = λ d t h. h;
  rename-found = λ d c h. renames d c d.temporary_file refl h;
  rename-final = λ d h. renames_final d d.temporary_file h;
  fsync_directory-found = λ d c h. inl (either_way c d.final_file h);
  fsync_directory-names = λ d c good h. either_way c d.final_file h;
  remove_temporary-found = λ d c h. h;
}

abbrev new_disk : Disk
new_disk = record { final_file = none; temporary_file = none; final_on_medium = none }

abbrev new_store : HardStateStore Disk
new_store = record {
  disk = new_disk;
  limits = disk_limits;
  state = record { current_term = 0; voted_for = none };
  generation = 0;
  healthy = true;
}

-- A hook that throws once the file is in its place.
abbrev late_fault : RaftHardStateWriteBoundary → Outcome
late_fault final_replaced = failed (storage_error "injected")
late_fault _ = done

abbrev voted_request : PersistRaftHardState
voted_request = record { request_id = 1; state = voted }

-- The power fails before the new name is on the medium: a restart finds no file.
persist-Persisted_example :
    Persisted slow_disk new_store voted_request none
      (persist slow_disk late_fault new_store voted_request)
unfolding persist after_checks check_persist validate_transition persist_checked persist_change
    encode after_write write_record write_all write_temporary reached hard_state_fields le_bytes
persist-Persisted_example =
    persist-Persisted slow_disk slow_disk-IsFileSystem (λ d e. cc) late_fault new_store
      voted_request none (λ c h. rw (either_way c none h) refl) (omega arith) (omega arith)
      (omega arith, omega arith) (inr refl)

parse_decimal_name-decimal_name_example :
    parse_decimal_name (decimal_name wal_prefix 42 wal_suffix) wal_prefix wal_suffix ≡ some 42
parse_decimal_name-decimal_name_example =
    parse_decimal_name-decimal_name wal_prefix wal_suffix 42 (omega arith)

abbrev two_nodes : Snapshot
two_nodes = record {
  metadata = record {
    last_included_index = 5;
    last_included_term = 2;
    store_revision = pos 9;
    compaction_revision = pos 4;
    membership = record { voters = 1 ∷ []; learners = 2 ∷ [] };
    format_version = 1;
  };
  state = 10 ∷ 20 ∷ 30 ∷ [];
  checksum = 0;
}

two_nodes-FitsSnapshot : FitsSnapshot two_nodes disk_limits
two_nodes-FitsSnapshot = record {
  index = omega arith;
  term = omega arith;
  store_revision = omega arith;
  compaction_revision = omega arith;
  voters = (omega arith, tt);
  learners = (omega arith, tt);
  members = omega arith;
  bytes = omega arith;
}

decode_snapshot-encode_snapshot_example :
    decode_snapshot (snapshot_bytes two_nodes) disk_limits
    ≡ ok (record two_nodes { checksum = snapshot_checksum two_nodes })
unfolding encode_snapshot validate_snapshot_value check_members
decode_snapshot-encode_snapshot_example =
    decode_snapshot-encode_snapshot two_nodes disk_limits (snapshot_bytes two_nodes)
      two_nodes-FitsSnapshot refl

-- A file of the snapshot directory that is no snapshot.
abbrev junk : List ℕ × List ℕ
junk = (
  snapshot_name
      (record two_nodes { metadata = record two_nodes.metadata { last_included_index = 6 } }),
  1 ∷ 2 ∷ [],
)

publish-latest_locked_example :
    latest_locked disk_limits ((snapshot_name two_nodes, snapshot_bytes two_nodes) ∷ junk ∷ [])
    ≡ some (record two_nodes { checksum = snapshot_checksum two_nodes })
unfolding publish encode_snapshot validate_snapshot_value check_members latest_locked choose_latest
    sort_candidates candidates parse_decimal_name decimal_name decimal_digits starts_with ends_with
    parse_digits insert_candidate decode_snapshot read_snapshot_header exists_file cmp_bytes
publish-latest_locked_example =
    publish-latest_locked disk_limits (junk ∷ [])
      ((snapshot_name two_nodes, snapshot_bytes two_nodes) ∷ junk ∷ []) two_nodes
      two_nodes-FitsSnapshot refl
