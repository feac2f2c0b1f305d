-- ===== src/Storage/Snapshots/Valid.antt =====
-- What `validate_snapshot_value` tells of a snapshot that it accepts, and that the checks of
-- `decode_snapshot` accept its header.
use kura_metadata_store.Prelude.{
  ℕ, ◌+◌, ◌*◌, ◌/◌, ◌^◌, ◌<◌, ◌≤◌, ◌≡◌, refl, sym, ap, ◌∙◌, true, false, ◌&&◌, ◌||◌, not, List, [],
  ◌∷◌, ◌++◌, ltb, ◌==◌, length, length-append, contains, arith,
}
use kura_metadata_store.Prelude.Int.{ℤ, pos, negsuc, ltb_ℤ}
use kura_metadata_store.Prelude.Exception.{ok, throw_if, storage_error, >>=-eq-ok, ok-injective}
use kura_metadata_store.Raft.{NodeId, SnapshotMetadata}
use kura_metadata_store.Storage.Codec.{StorageLimits, add_fits}
use kura_metadata_store.Storage.Snapshots.{
  Snapshot, check_members, too_many, size_fits, total_size, validate_snapshot_value, int64_bits,
  node_bytes, snapshot_body, snapshot_checksum, snapshot_bytes, check_snapshot_header,
}
use kura_metadata_store.Storage.Snapshots.Members.{
  length-node_bytes, FitsSnapshot, header_of, Parts,
}

length-check_members :
    (ns members members' : List NodeId)
    → check_members members ns ≡ ok members'
    → length members' ≡ length members + length ns
unfolding check_members
length-check_members [] members members' h =
    ap (λ (m : List NodeId). length m) (sym (ok-injective h)) ∙ omega arith
length-check_members (n ∷ ns) members members' h =
    let (_, _, rest) =
      >>=-eq-ok
        (throw_if (n == 0 || contains members n)
          (storage_error "snapshot membership contains zero or duplicate node ID"))
        _ h in
    omega (arith, length-check_members ns (n ∷ members) members' rest)

-- What `validate_snapshot_value` tells of a snapshot that it accepts.
pub record Valid (s : Snapshot) (limits : StorageLimits) : Type 0 where
  pub voter_set : List NodeId
  pub member_set : List NodeId
  pub index : (s.metadata.last_included_index == 0) ≡ false
  pub format : s.metadata.format_version ≡ 1
  pub store_revision : pos (int64_bits s.metadata.store_revision) ≡ s.metadata.store_revision
  pub compaction_revision :
      pos (int64_bits s.metadata.compaction_revision) ≡ s.metadata.compaction_revision
  pub few :
      too_many limits (length s.metadata.membership.voters) (length s.metadata.membership.learners)
      ≡ false
  pub voters : check_members [] s.metadata.membership.voters ≡ ok voter_set
  pub learners : check_members voter_set s.metadata.membership.learners ≡ ok member_set
  pub sized :
      (not (size_fits (length member_set) (length s.state))
        || ltb limits.max_snapshot_bytes (total_size (length member_set) (length s.state)))
      ≡ false

not_negative : (a : ℤ) → ltb_ℤ a (pos 0) ≡ false → pos (int64_bits a) ≡ a
not_negative (pos n) h = refl
not_negative (negsuc n) h = ground arith

pub valid :
    (s : Snapshot) (limits : StorageLimits) (u : Unit {0})
    → validate_snapshot_value s limits ≡ ok u
    → Valid s limits
unfolding validate_snapshot_value
valid s limits u h =
    let m : SnapshotMetadata = s.metadata in
    let (_, format, h1) =
      >>=-eq-ok
        (throw_if (not (m.format_version == 1)) (storage_error "snapshot format_version must be 1"))
        _ h in
    let (_, index, h2) =
      >>=-eq-ok
        (throw_if (m.last_included_index == 0)
          (storage_error "snapshot last-included index must be nonzero"))
        _ h1 in
    let (_, revisions, h3) =
      >>=-eq-ok
        (throw_if
          (ltb_ℤ m.store_revision (pos 0)
            || (ltb_ℤ m.compaction_revision (pos 0)
                || ltb_ℤ m.store_revision m.compaction_revision))
          (storage_error "snapshot revisions are invalid"))
        _ h2 in
    let (_, few, h4) =
      >>=-eq-ok
        (throw_if (too_many limits (length m.membership.voters) (length m.membership.learners))
          (storage_error "snapshot membership exceeds configured limit"))
        _ h3 in
    let (v, voters, h5) = >>=-eq-ok (check_members [] m.membership.voters) _ h4 in
    let (w, learners, h6) = >>=-eq-ok (check_members v m.membership.learners) _ h5 in
    record {
      voter_set = v;
      member_set = w;
      index = ground arith;
      format = ground arith;
      store_revision = not_negative m.store_revision (ground arith);
      compaction_revision = not_negative m.compaction_revision (ground arith);
      few = ground arith;
      voters = voters;
      learners = learners;
      sized = ground arith;
    }

pub length-body :
    (s : Snapshot)
    → length (snapshot_body s)
      ≡ 8 * length s.metadata.membership.voters
        + 8 * length s.metadata.membership.learners
        + length s.state
unfolding snapshot_body
length-body s =
    let v : List NodeId = s.metadata.membership.voters in
    let l : List NodeId = s.metadata.membership.learners in
    length-append (node_bytes v) (node_bytes l ++ s.state)
    ∙ omega (arith, length-append (node_bytes l) s.state, length-node_bytes v, length-node_bytes l)

high_bit_clear : (n : ℕ) → n < 2 ^ 63 → (n / 2 ^ 63 == 0) ≡ true
high_bit_clear n h = ground arith

same_number : (n : ℕ) → (n == n) ≡ true
same_number n = ground arith

sizes_agree :
    (voters learners members state limit body : ℕ)
    → members ≡ voters + learners
    → body ≡ 8 * voters + 8 * learners + state
    → (not (size_fits members state) || ltb limit (total_size members state)) ≡ false
    → (not (add_fits voters learners && size_fits (voters + learners) state)
        || not (total_size (voters + learners) state == 68 + body))
      ≡ false
sizes_agree voters learners members state limit body m b h = ground arith

pub members_together :
    (s : Snapshot) (limits : StorageLimits) (v : Valid s limits)
    → length v.member_set
      ≡ length s.metadata.membership.voters + length s.metadata.membership.learners
members_together s limits v = omega (
  arith,
  length-check_members s.metadata.membership.learners v.voter_set v.member_set v.learners,
  length-check_members s.metadata.membership.voters [] v.voter_set v.voters,
)

pub check_snapshot_header-bytes :
    (s : Snapshot) (limits : StorageLimits)
    → FitsSnapshot s limits
    → Valid s limits
    → Parts s
    → check_snapshot_header limits (header_of s) (snapshot_bytes s) ≡ ok tt
unfolding check_snapshot_header header_of
check_snapshot_header-bytes s limits fits v p =
    rw
      (
        high_bit_clear (int64_bits s.metadata.store_revision) fits.store_revision,
        high_bit_clear (int64_bits s.metadata.compaction_revision) fits.compaction_revision,
        p.size,
        p.covered,
        p.body,
        v.few,
        sizes_agree (length s.metadata.membership.voters) (length s.metadata.membership.learners)
            (length v.member_set) (length s.state) limits.max_snapshot_bytes
            (length (snapshot_body s)) (members_together s limits v) (length-body s) v.sized,
        same_number (snapshot_checksum s),
      )
      refl

pub body_room :
    (members state limit : ℕ)
    → (not (size_fits members state) || ltb limit (total_size members state)) ≡ false
    → (state ≤ limit) × (total_size members state ≤ limit)
body_room members state limit h = ground arith

pub few_members :
    (limits : StorageLimits) (voters learners : ℕ)
    → too_many limits voters learners ≡ false
    → limits.max_snapshot_members < 2 ^ 32
    → (voters < 2 ^ 32) × (learners < 2 ^ 32)
few_members limits voters learners few small = ground arith
