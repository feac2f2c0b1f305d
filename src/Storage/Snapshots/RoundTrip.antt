-- ===== src/Storage/Snapshots/RoundTrip.antt =====
-- A snapshot that src/durable_storage.cpp writes it reads back.
use kura_metadata_store.Prelude.{
  ℕ, ◌+◌, ◌*◌, ◌≤◌, ◌≡◌, refl, sym, ◌∙◌, subst, false, List, [], ◌++◌, ltb, length, length-append,
  drop, arith,
}
use mathlib.Core.List.{append_assoc}
use kura_metadata_store.Prelude.Exception.{ok, >>=-eq-ok, ok-injective}
use kura_metadata_store.Raft.{NodeId}
use kura_metadata_store.Storage.Codec.{crc_finish, StorageLimits, le_bytes}
use kura_metadata_store.Storage.Fields.{drop-append}
use kura_metadata_store.Storage.Wal.Format.{crc_of_two}
use kura_metadata_store.Storage.Snapshots.{
  Snapshot, validate_snapshot_value, node_bytes, snapshot_body, snapshot_fields, snapshot_checksum,
  snapshot_bytes, encode_snapshot, read_members, snapshot_of, decode_snapshot,
}
use kura_metadata_store.Storage.Snapshots.Members.{
  length-node_bytes, read_members-node_bytes, FitsSnapshot, header_of, Parts, parts,
  read_snapshot_header-bytes,
}
use kura_metadata_store.Storage.Snapshots.Valid.{
  Valid, valid, length-body, members_together, check_snapshot_header-bytes, body_room, few_members,
}

-- The bytes before the body.
abbrev head : Snapshot → List ℕ
head s = snapshot_fields s ++ le_bytes 4 (snapshot_checksum s)

length-head : (s : Snapshot) → length (head s) ≡ 68
unfolding snapshot_fields le_bytes
length-head s = refl

head_and_body :
    (s : Snapshot)
    → snapshot_bytes s
      ≡ head s
        ++ (node_bytes s.metadata.membership.voters
            ++ (node_bytes s.metadata.membership.learners ++ s.state))
unfolding snapshot_body
head_and_body s = sym (append_assoc (snapshot_fields s) (le_bytes 4 (snapshot_checksum s)) _)

drop_at : (n : ℕ) (xs ys : List ℕ) → n ≡ length xs → drop n (xs ++ ys) ≡ ys
drop_at n xs ys h = rw h (drop-append xs ys)

-- The two reads of members, and what is left.
read_both :
    (s : Snapshot) (limits : StorageLimits)
    → FitsSnapshot s limits
    → (v : Valid s limits) → Parts s
    → (read_members (length s.metadata.membership.voters) (snapshot_bytes s) 68 []
        ≡ ok (s.metadata.membership.voters, v.voter_set))
      × (read_members
            (length s.metadata.membership.learners)
            (snapshot_bytes s)
            (68 + 8 * length s.metadata.membership.voters)
            v.voter_set
          ≡ ok (s.metadata.membership.learners, v.member_set))
      × (drop
            (68
              + 8 * length s.metadata.membership.voters
              + 8 * length s.metadata.membership.learners)
            (snapshot_bytes s)
          ≡ s.state)
read_both s limits fits v p =
    let vs : List NodeId = s.metadata.membership.voters in
    let ls : List NodeId = s.metadata.membership.learners in
    let first : length (head s ++ node_bytes vs) ≡ 68 + 8 * length vs =
      length-append (head s) (node_bytes vs) ∙ omega (arith, length-head s, length-node_bytes vs) in
    let second : length ((head s ++ node_bytes vs) ++ node_bytes ls)
        ≡ 68 + 8 * length vs + 8 * length ls =
      length-append (head s ++ node_bytes vs) (node_bytes ls)
      ∙ omega (arith, first, length-node_bytes ls) in
    let after_voters : snapshot_bytes s ≡ (head s ++ node_bytes vs) ++ (node_bytes ls ++ s.state) =
      head_and_body s ∙ sym (append_assoc (head s) (node_bytes vs) (node_bytes ls ++ s.state)) in
    let after_learners : snapshot_bytes s
        ≡ ((head s ++ node_bytes vs) ++ node_bytes ls) ++ s.state =
      after_voters ∙ sym (append_assoc (head s ++ node_bytes vs) (node_bytes ls) s.state) in
    (
      read_members-node_bytes vs [] v.voter_set (snapshot_bytes s) (head s)
          (node_bytes ls ++ s.state) 68 fits.voters v.voters (head_and_body s)
          (sym (length-head s)),
      read_members-node_bytes ls v.voter_set v.member_set (snapshot_bytes s)
          (head s ++ node_bytes vs) s.state (68 + 8 * length vs) fits.learners v.learners
          after_voters (sym first),
      subst (λ b. drop (68 + 8 * length vs + 8 * length ls) b ≡ s.state) (sym after_learners)
          (drop_at _ ((head s ++ node_bytes vs) ++ node_bytes ls) s.state (sym second)),
    )

-- What `decode_snapshot` puts together.
rebuilt :
    (s : Snapshot) (limits : StorageLimits)
    → Valid s limits
    → snapshot_of (header_of s) s.metadata.membership.voters s.metadata.membership.learners s.state
      ≡ record s { checksum = snapshot_checksum s }
unfolding header_of
rebuilt s limits v = cc (v.store_revision, v.compaction_revision, v.format)

validate_any_checksum :
    (s : Snapshot) (limits : StorageLimits) (c : ℕ) (u : Unit {0})
    → validate_snapshot_value s limits ≡ ok u
    → validate_snapshot_value (record s { checksum = c }) limits ≡ ok u
unfolding validate_snapshot_value
validate_any_checksum s limits c u h = h

room_bool : (n limit : ℕ) → n ≤ limit → ltb limit n ≡ false
room_bool n limit h = ground arith

file_room :
    (s : Snapshot) (limits : StorageLimits)
    → Valid s limits
    → Parts s
    → ltb limits.max_snapshot_bytes (length (snapshot_bytes s)) ≡ false
file_room s limits v p =
    let (_, fits) =
      body_room (length v.member_set) (length s.state) limits.max_snapshot_bytes v.sized in
    room_bool (length (snapshot_bytes s)) limits.max_snapshot_bytes
      (omega (arith, fits, p.size, length-body s, members_together s limits v))

decode-bytes :
    (s : Snapshot) (limits : StorageLimits) (u : Unit {0})
    → FitsSnapshot s limits
    → validate_snapshot_value s limits ≡ ok u
    → (v : Valid s limits) → Parts s
    → decode_snapshot (snapshot_bytes s) limits ≡ ok (record s { checksum = snapshot_checksum s })
unfolding decode_snapshot read_members crc_of_two header_of crc_finish
decode-bytes s limits u fits valid_s v p =
    let (voters, learners, rest) = read_both s limits fits v p in
    rw
      (
        file_room s limits v p,
        read_snapshot_header-bytes s p,
        check_snapshot_header-bytes s limits fits v p,
        voters,
        learners,
        rest,
        rebuilt s limits v,
        validate_any_checksum s limits (snapshot_checksum s) u valid_s,
      )
      refl

-- A snapshot that `encode_snapshot` writes is read back by `decode_snapshot`, but for its checksum
-- field, which becomes the checksum that was written; where its numbers fit their fields.
pub decode_snapshot-encode_snapshot :
    (s : Snapshot) (limits : StorageLimits) (bytes : List ℕ)
    → FitsSnapshot s limits
    → encode_snapshot s limits ≡ ok bytes
    → decode_snapshot bytes limits ≡ ok (record s { checksum = snapshot_checksum s })
unfolding encode_snapshot
decode_snapshot-encode_snapshot s limits bytes fits h =
    let (u, valid_s, done) = >>=-eq-ok (validate_snapshot_value s limits) _ h in
    let v = valid s limits u valid_s in
    let (few_voters, few_learners) =
      few_members limits (length s.metadata.membership.voters)
        (length s.metadata.membership.learners) v.few fits.members in
    let (room, _) =
      body_room (length v.member_set) (length s.state) limits.max_snapshot_bytes v.sized in
    subst (λ b. decode_snapshot b limits ≡ ok (record s { checksum = snapshot_checksum s }))
      (ok-injective done)
      (decode-bytes s limits u fits valid_s v
        (parts s limits fits few_voters few_learners (omega (arith, room, fits.bytes))))
