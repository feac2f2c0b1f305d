-- ===== src/Storage/Snapshots/Members.antt =====
-- The fields and the members of a snapshot, read back from the bytes that `snapshot_bytes` of
-- Storage/Snapshots.antt makes of them.
use kura_metadata_store.Prelude.{
  ℕ, ◌+◌, ◌*◌, ◌^◌, ◌<◌, ◌≡◌, refl, sym, ap, ◌∙◌, true, false, ◌||◌, List, [], ◌∷◌, ◌++◌, ltb, ◌==◌,
  length, length-append, take, drop, contains, arith,
}
use mathlib.Core.List.{append_assoc}
use kura_metadata_store.Prelude.Exception.{ok, throw_if, storage_error, >>=-eq-ok, ok-injective}
use kura_metadata_store.Raft.{NodeId}
use kura_metadata_store.Bytes.Prefix.{starts_with}
use kura_metadata_store.Storage.Codec.{StorageLimits, le_bytes, from_le, read_le}
use kura_metadata_store.Storage.Fields.{from_le-le_bytes, read_le-le_bytes, length-le_bytes}
use kura_metadata_store.Storage.Wal.Format.{read_durable}
use kura_metadata_store.Storage.Wal.Records.{crc_of_two-lt}
use kura_metadata_store.Storage.Snapshots.{
  Snapshot, snapshot_magic, check_members, int64_bits, node_bytes, snapshot_body, snapshot_fields,
  snapshot_checksum, snapshot_bytes, read_members, SnapshotHeader, read_snapshot_header,
}

abbrev pub NodesFit : List NodeId → Type 0
NodesFit [] = Unit {0}
NodesFit (n ∷ ns) = (n < 2 ^ 64) × NodesFit ns

pub length-node_bytes : (ns : List NodeId) → length (node_bytes ns) ≡ 8 * length ns
unfolding node_bytes
length-node_bytes [] = refl
length-node_bytes (n ∷ ns) =
    length-append (le_bytes 8 n) (node_bytes ns)
    ∙ omega (arith, length-le_bytes 8 n, length-node_bytes ns)

read_node :
    (n : ℕ) (view before after : List ℕ) (offset : ℕ)
    → n < 2 ^ 64
    → view ≡ before ++ (le_bytes 8 n ++ after)
    → offset ≡ length before
    → read_durable 8 view offset ≡ ok n
unfolding read_durable
read_node n view before after offset small v o =
    rw (v, o)
      (read_le-le_bytes "durable format field extends past end of file" 8 n before after small)

pub read_members-node_bytes :
    (ns members members' : List NodeId) (view before after : List ℕ) (offset : ℕ)
    → NodesFit ns
    → check_members members ns ≡ ok members'
    → view ≡ before ++ (node_bytes ns ++ after)
    → offset ≡ length before
    → read_members (length ns) view offset members ≡ ok (ns, members')
unfolding read_members check_members node_bytes
read_members-node_bytes [] members members' view before after offset fit checks v o =
    ap (λ (m : List NodeId). ok ([], m)) (ok-injective checks)
read_members-node_bytes (n ∷ ns) members members' view before after offset (small, fit) checks v o =
    let split : view ≡ before ++ (le_bytes 8 n ++ (node_bytes ns ++ after)) =
      v ∙ ap (λ (t : List ℕ). before ++ t) (append_assoc (le_bytes 8 n) (node_bytes ns) after) in
    let read : read_durable 8 view offset ≡ ok n = read_node n view before _ offset small split o in
    let (_, fresh, rest) =
      >>=-eq-ok
        (throw_if (n == 0 || contains members n)
          (storage_error "snapshot membership contains zero or duplicate node ID"))
        _ checks in
    let more : read_members (length ns) view (offset + 8) (n ∷ members) ≡ ok (ns, members') =
      read_members-node_bytes ns (n ∷ members) members' view (before ++ le_bytes 8 n) after
        (offset + 8) fit rest
        (split ∙ sym (append_assoc before (le_bytes 8 n) (node_bytes ns ++ after)))
        (omega (arith, length-append before (le_bytes 8 n), length-le_bytes 8 n)) in
    rw (read, fresh, more) refl

-- Every number of a snapshot fits its field.
pub record FitsSnapshot (s : Snapshot) (limits : StorageLimits) : Type 0 where
  pub index : s.metadata.last_included_index < 2 ^ 64
  pub term : s.metadata.last_included_term < 2 ^ 64
  pub store_revision : int64_bits s.metadata.store_revision < 2 ^ 63
  pub compaction_revision : int64_bits s.metadata.compaction_revision < 2 ^ 63
  pub voters : NodesFit s.metadata.membership.voters
  pub learners : NodesFit s.metadata.membership.learners
  pub members : limits.max_snapshot_members < 2 ^ 32
  pub bytes : limits.max_snapshot_bytes < 2 ^ 64

unfoldable pub header_of : Snapshot → SnapshotHeader
header_of s = record {
  index = s.metadata.last_included_index;
  term = s.metadata.last_included_term;
  store_revision_bits = int64_bits s.metadata.store_revision;
  compaction_revision_bits = int64_bits s.metadata.compaction_revision;
  voter_count = length s.metadata.membership.voters;
  learner_count = length s.metadata.membership.learners;
  state_length = length s.state;
  stored_checksum = snapshot_checksum s;
}

pub record Parts (s : Snapshot) : Type 0 where
  pub size : length (snapshot_bytes s) ≡ 68 + length (snapshot_body s)
  pub magic : starts_with snapshot_magic (snapshot_bytes s) ≡ true
  pub version : read_durable 2 (snapshot_bytes s) 8 ≡ ok 1
  pub header_size : read_durable 2 (snapshot_bytes s) 10 ≡ ok 68
  pub flags : read_durable 4 (snapshot_bytes s) 12 ≡ ok 0
  pub index : read_durable 8 (snapshot_bytes s) 16 ≡ ok s.metadata.last_included_index
  pub term : read_durable 8 (snapshot_bytes s) 24 ≡ ok s.metadata.last_included_term
  pub store_revision :
      read_durable 8 (snapshot_bytes s) 32 ≡ ok (int64_bits s.metadata.store_revision)
  pub compaction_revision :
      read_durable 8 (snapshot_bytes s) 40 ≡ ok (int64_bits s.metadata.compaction_revision)
  pub voters : read_durable 4 (snapshot_bytes s) 48 ≡ ok (length s.metadata.membership.voters)
  pub learners : read_durable 4 (snapshot_bytes s) 52 ≡ ok (length s.metadata.membership.learners)
  pub state : read_durable 8 (snapshot_bytes s) 56 ≡ ok (length s.state)
  pub checksum : read_durable 4 (snapshot_bytes s) 64 ≡ ok (snapshot_checksum s)
  pub covered : take 64 (snapshot_bytes s) ≡ snapshot_fields s
  pub body : drop 68 (snapshot_bytes s) ≡ snapshot_body s

pub parts :
    (s : Snapshot) (limits : StorageLimits)
    → FitsSnapshot s limits
    → length s.metadata.membership.voters < 2 ^ 32
    → length s.metadata.membership.learners < 2 ^ 32
    → length s.state < 2 ^ 64
    → Parts s
unfolding snapshot_fields le_bytes read_durable read_le from_le starts_with
parts s limits fits voters learners state = record {
  size = omega arith;
  magic = refl;
  version = ground arith;
  header_size = ground arith;
  flags = ground arith;
  index = ground (arith, from_le-le_bytes 8 s.metadata.last_included_index fits.index);
  term = ground (arith, from_le-le_bytes 8 s.metadata.last_included_term fits.term);
  store_revision = ground (
    arith,
    from_le-le_bytes 8 (int64_bits s.metadata.store_revision) (omega (arith, fits.store_revision)),
  );
  compaction_revision = ground (
    arith,
    from_le-le_bytes 8 (int64_bits s.metadata.compaction_revision)
        (omega (arith, fits.compaction_revision)),
  );
  voters = ground (arith, from_le-le_bytes 4 (length s.metadata.membership.voters) voters);
  learners = ground (arith, from_le-le_bytes 4 (length s.metadata.membership.learners) learners);
  state = ground (arith, from_le-le_bytes 8 (length s.state) state);
  checksum = ground (
    arith,
    from_le-le_bytes 4 (snapshot_checksum s) (crc_of_two-lt (snapshot_fields s) (snapshot_body s)),
  );
  covered = refl;
  body = refl;
}

long_enough : (n : ℕ) → ltb (68 + n) 68 ≡ false
long_enough n = ground arith

pub read_snapshot_header-bytes :
    (s : Snapshot) → Parts s → read_snapshot_header (snapshot_bytes s) ≡ ok (header_of s)
unfolding read_snapshot_header header_of
read_snapshot_header-bytes s p =
    let long : ltb (68 + length (snapshot_body s)) 68 ≡ false =
      long_enough (length (snapshot_body s)) in
    rw
      (
        p.size, long, p.magic, p.version, p.header_size, p.flags, p.index, p.term, p.store_revision,
        p.compaction_revision, p.voters, p.learners, p.state, p.checksum,
      )
      refl
