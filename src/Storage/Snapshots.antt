-- ===== src/Storage/Snapshots.antt =====
-- Snapshot files of src/durable_storage.cpp: `validate_snapshot_value`, `encode_snapshot`,
-- `decode_snapshot`, and `Snapshot` of include/kura/metadata/storage/snapshot.hpp. Messages stand
-- without the path that some end with.
pub mod Members
pub mod Valid
pub mod RoundTrip
pub mod Latest
pub mod Published
use kura_metadata_store.Prelude.{
  ℕ, zero, suc, ◌+◌, ◌-◌, ◌*◌, ◌/◌, ◌%◌, ◌^◌, Bool, true, false, ◌||◌, ◌&&◌, not, List, [], ◌∷◌,
  ◌++◌, ltb, leb, ◌==◌, if◌then◌else◌, length, take, drop, contains,
}
use kura_metadata_store.Prelude.Int.{ℤ, pos, negsuc, ltb_ℤ}
use kura_metadata_store.Prelude.Exception.{Result, ok, ◌>>=◌, ◌>>◌, throw_if, storage_error}
use kura_metadata_store.Raft.{SnapshotMetadata, NodeId}
use kura_metadata_store.Bytes.Prefix.{starts_with}
use kura_metadata_store.Storage.Codec.{StorageLimits, le_bytes, crc32c, add_fits, multiply_fits}
use kura_metadata_store.Storage.Wal.Format.{crc_of_two, read_durable, storage_format_version}

pub record Snapshot : Type 0 where
  pub metadata : SnapshotMetadata
  pub state : List ℕ
  pub checksum : ℕ

-- "KURASNP1".
abbrev pub snapshot_magic : List ℕ
snapshot_magic = 75 ∷ 85 ∷ 82 ∷ 65 ∷ 83 ∷ 78 ∷ 80 ∷ 49 ∷ []

abbrev pub snapshot_header_size : ℕ
snapshot_header_size = 68

-- The loops over the members; `members` is the set that they fill.
unfoldable pub check_members : List NodeId → List NodeId → Result (List NodeId)
check_members members [] = ok members
check_members members (n ∷ ns) = do
  throw_if (n == 0 || contains members n)
      (storage_error "snapshot membership contains zero or duplicate node ID")
  check_members (n ∷ members) ns

abbrev pub too_many : StorageLimits → ℕ → ℕ → Bool
too_many limits voters learners =
    ltb limits.max_snapshot_members voters
    || (ltb limits.max_snapshot_members learners
        || ltb (limits.max_snapshot_members - learners) voters)

-- Whether the sum of the sizes fits, and its value.
abbrev pub size_fits : ℕ → ℕ → Bool
size_fits members state =
    multiply_fits members 8
    && (add_fits snapshot_header_size (members * 8)
        && add_fits (snapshot_header_size + members * 8) state)

abbrev pub total_size : ℕ → ℕ → ℕ
total_size members state = snapshot_header_size + members * 8 + state

unfoldable pub validate_snapshot_value : Snapshot → StorageLimits → Result (Unit {0})
validate_snapshot_value snapshot limits = do
  let m = snapshot.metadata
  throw_if (not (m.format_version == storage_format_version))
      (storage_error "snapshot format_version must be 1")
  throw_if (m.last_included_index == 0)
      (storage_error "snapshot last-included index must be nonzero")
  throw_if
      (ltb_ℤ m.store_revision (pos 0)
        || (ltb_ℤ m.compaction_revision (pos 0) || ltb_ℤ m.store_revision m.compaction_revision))
      (storage_error "snapshot revisions are invalid")
  throw_if (too_many limits (length m.membership.voters) (length m.membership.learners))
      (storage_error "snapshot membership exceeds configured limit")
  voters ← check_members [] m.membership.voters
  members ← check_members voters m.membership.learners
  throw_if
      (not (size_fits (length members) (length snapshot.state))
        || ltb limits.max_snapshot_bytes (total_size (length members) (length snapshot.state)))
      (storage_error "snapshot exceeds configured size limit")

-- The bits of a `std::int64_t`.
abbrev pub int64_bits : ℤ → ℕ
int64_bits (pos n) = n
int64_bits (negsuc n) = 2 ^ 64 - suc n

unfoldable pub node_bytes : List NodeId → List ℕ
node_bytes [] = []
node_bytes (n ∷ ns) = le_bytes 8 n ++ node_bytes ns

unfoldable pub snapshot_body : Snapshot → List ℕ
snapshot_body s =
    node_bytes s.metadata.membership.voters
    ++ (node_bytes s.metadata.membership.learners ++ s.state)

-- The bytes before the checksum.
unfoldable pub snapshot_fields : Snapshot → List ℕ
snapshot_fields s =
    snapshot_magic
    ++ (le_bytes 2 storage_format_version
        ++ (le_bytes 2 snapshot_header_size
            ++ (le_bytes 4 0
                ++ (le_bytes 8 s.metadata.last_included_index
                    ++ (le_bytes 8 s.metadata.last_included_term
                        ++ (le_bytes 8 (int64_bits s.metadata.store_revision)
                            ++ (le_bytes 8 (int64_bits s.metadata.compaction_revision)
                                ++ (le_bytes 4 (length s.metadata.membership.voters)
                                    ++ (le_bytes 4 (length s.metadata.membership.learners)
                                        ++ le_bytes 8 (length s.state))))))))))

abbrev pub snapshot_checksum : Snapshot → ℕ
snapshot_checksum s = crc_of_two (snapshot_fields s) (snapshot_body s)

abbrev pub snapshot_bytes : Snapshot → List ℕ
snapshot_bytes s = snapshot_fields s ++ (le_bytes 4 (snapshot_checksum s) ++ snapshot_body s)

unfoldable pub encode_snapshot : Snapshot → StorageLimits → Result (List ℕ)
encode_snapshot snapshot limits = do
  validate_snapshot_value snapshot limits
  ok (snapshot_bytes snapshot)

-- One of the loops that read the members; the nodes, and the set so far.
unfoldable pub read_members : ℕ → List ℕ → ℕ → List NodeId → Result (List NodeId × List NodeId)
read_members zero view offset members = ok ([], members)
read_members (suc count) view offset members = do
  node ← read_durable 8 view offset
  throw_if (node == 0 || contains members node)
      (storage_error "snapshot membership contains zero or duplicate node ID")
  rest ← read_members count view (offset + 8) (node ∷ members)
  ok (node ∷ rest.0, rest.1)

pub record SnapshotHeader : Type 0 where
  pub index : ℕ
  pub term : ℕ
  pub store_revision_bits : ℕ
  pub compaction_revision_bits : ℕ
  pub voter_count : ℕ
  pub learner_count : ℕ
  pub state_length : ℕ
  pub stored_checksum : ℕ

-- The reads of the header, with the tests among them.
unfoldable pub read_snapshot_header : List ℕ → Result SnapshotHeader
read_snapshot_header view = do
  throw_if (ltb (length view) snapshot_header_size) (storage_error "snapshot header is truncated")
  throw_if (not (starts_with snapshot_magic view)) (storage_error "snapshot magic is invalid")
  version ← read_durable 2 view 8
  size ← read_durable 2 view 10
  flags ← read_durable 4 view 12
  throw_if
      (not (version == storage_format_version)
        || (not (size == snapshot_header_size) || not (flags == 0)))
      (storage_error "snapshot version, header size, or flags are unsupported")
  index ← read_durable 8 view 16
  term ← read_durable 8 view 24
  store_revision_bits ← read_durable 8 view 32
  compaction_revision_bits ← read_durable 8 view 40
  voter_count ← read_durable 4 view 48
  learner_count ← read_durable 4 view 52
  state_length ← read_durable 8 view 56
  stored_checksum ← read_durable 4 view 64
  ok (record {
    index = index;
    term = term;
    store_revision_bits = store_revision_bits;
    compaction_revision_bits = compaction_revision_bits;
    voter_count = voter_count;
    learner_count = learner_count;
    state_length = state_length;
    stored_checksum = stored_checksum;
  })

-- The tests on the header and the sizes.
unfoldable pub check_snapshot_header : StorageLimits → SnapshotHeader → List ℕ → Result (Unit {0})
check_snapshot_header limits h view = do
  throw_if
      (not (h.store_revision_bits / 2 ^ 63 == 0) || not (h.compaction_revision_bits / 2 ^ 63 == 0))
      (storage_error "snapshot revision is negative")
  throw_if (too_many limits h.voter_count h.learner_count)
      (storage_error "snapshot membership exceeds configured limit")
  throw_if
      (not (
          add_fits h.voter_count h.learner_count
          && size_fits (h.voter_count + h.learner_count) h.state_length)
        || not (total_size (h.voter_count + h.learner_count) h.state_length == length view))
      (storage_error "snapshot body length is invalid")
  throw_if (not (crc_of_two (take 64 view) (drop snapshot_header_size view) == h.stored_checksum))
      (storage_error "snapshot checksum mismatch")

abbrev pub snapshot_of : SnapshotHeader → List NodeId → List NodeId → List ℕ → Snapshot
snapshot_of h voters learners state = record {
  metadata = record {
    last_included_index = h.index;
    last_included_term = h.term;
    store_revision = pos h.store_revision_bits;
    compaction_revision = pos h.compaction_revision_bits;
    membership = record { voters = voters; learners = learners };
    format_version = storage_format_version;
  };
  state = state;
  checksum = h.stored_checksum;
}

-- `decode_snapshot` on the contents of the file.
unfoldable pub decode_snapshot : List ℕ → StorageLimits → Result Snapshot
decode_snapshot view limits = do
  throw_if (ltb limits.max_snapshot_bytes (length view))
      (storage_error "file exceeds configured size limit")
  h ← read_snapshot_header view
  check_snapshot_header limits h view
  voters ← read_members h.voter_count view snapshot_header_size []
  learners ← read_members h.learner_count view (snapshot_header_size + 8 * h.voter_count) voters.1
  let snapshot =
      snapshot_of h voters.0 learners.0
        (drop (snapshot_header_size + 8 * h.voter_count + 8 * h.learner_count) view)
  validate_snapshot_value snapshot limits
  ok snapshot
