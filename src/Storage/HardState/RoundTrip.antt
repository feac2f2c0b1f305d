-- ===== src/Storage/HardState/RoundTrip.antt =====
-- What src/raft_hard_state_store.cpp writes it reads back.
use kura_metadata_store.Prelude.{
  is_some, not, subst, ◌&&◌, if◌then◌else◌, ℕ, ◌^◌, ◌<◌, ◌≤◌, ◌≡◌, refl, ap, ◌∙◌, true, false,
  Option, none, some, List, ◌++◌, arith, length, take, ltb, ◌==◌,
}
use kura_metadata_store.Prelude.Exception.{ok}
use kura_metadata_store.Raft.{RaftHardState}
use kura_metadata_store.Bytes.Prefix.{starts_with}
use kura_metadata_store.Storage.Codec.{StorageLimits, le_bytes, from_le, read_le, crc32c}
use kura_metadata_store.Storage.Fields.{from_le-le_bytes, crc32c-lt}
use kura_metadata_store.Storage.HardState.{
  hard_state_fields, encode, decode, vote_value, votes_zero, read_field, hard_state_magic,
}

-- Every number of a record fits its field.
pub record FitsRecord (generation : ℕ) (state : RaftHardState) : Type 0 where
  pub generation_fits : generation < 2 ^ 64
  pub term_fits : state.current_term < 2 ^ 64
  pub vote_fits : vote_value state.voted_for < 2 ^ 64

-- What `encode` writes.
abbrev written : ℕ → RaftHardState → List ℕ
written generation state =
    hard_state_fields generation state
    ++ (le_bytes 4 (crc32c (hard_state_fields generation state)) ++ le_bytes 4 0)

-- The parts of it that `decode` looks at.
record Parts (generation : ℕ) (state : RaftHardState) : Type 0 where
  size : length (written generation state) ≡ 48
  magic : starts_with hard_state_magic (written generation state) ≡ true
  version : read_field 2 (written generation state) 8 ≡ ok 1
  record_size : read_field 2 (written generation state) 10 ≡ ok 48
  flags : read_field 4 (written generation state) 12 ≡ ok 0
  reserved : read_field 4 (written generation state) 44 ≡ ok 0
  generation_read : read_field 8 (written generation state) 16 ≡ ok generation
  term : read_field 8 (written generation state) 24 ≡ ok state.current_term
  vote : read_field 8 (written generation state) 32 ≡ ok (vote_value state.voted_for)
  checksum :
      read_field 4 (written generation state) 40 ≡ ok (crc32c (hard_state_fields generation state))
  covered : take 40 (written generation state) ≡ hard_state_fields generation state

parts :
    (generation : ℕ) (state : RaftHardState) → FitsRecord generation state → Parts generation state
unfolding hard_state_fields le_bytes read_field read_le from_le starts_with
parts generation state fits =
    let crc : ℕ = crc32c (hard_state_fields generation state) in
    record {
      size = refl;
      magic = refl;
      version = refl;
      record_size = refl;
      flags = refl;
      reserved = refl;
      generation_read = ap ok (from_le-le_bytes 8 generation fits.generation_fits);
      term = ap ok (from_le-le_bytes 8 state.current_term fits.term_fits);
      vote = ap ok (from_le-le_bytes 8 (vote_value state.voted_for) fits.vote_fits);
      checksum = ap ok (from_le-le_bytes 4 crc (crc32c-lt (hard_state_fields generation state)));
      covered = refl;
    }

-- `encode` succeeds on a record that `decode` would accept, and writes `written`.
encode-eq-ok :
    (generation : ℕ) (state : RaftHardState) (bytes : List ℕ)
    → encode generation state ≡ ok bytes
    → (written generation state ≡ bytes)
      × ((generation == 0) ≡ false)
      × (votes_zero state.voted_for ≡ false)
      × ((state.current_term == 0 && is_some state.voted_for) ≡ false)
unfolding encode
encode-eq-ok generation state bytes h = (ground arith, ground arith, ground arith, ground arith)

vote_back :
    (v : Option ℕ)
    → votes_zero v ≡ false
    → (if vote_value v == 0 then none else some (vote_value v)) ≡ v
vote_back none h = refl
vote_back (some n) h = ground arith

no_vote_back :
    (term : ℕ) (v : Option ℕ)
    → (term == 0 && is_some v) ≡ false
    → (term == 0 && not (vote_value v == 0)) ≡ false
no_vote_back term none h = ground arith
no_vote_back term (some n) h = ground arith

decode-written :
    (limits : StorageLimits) (generation : ℕ) (state : RaftHardState)
    → 48 ≤ limits.max_raft_hard_state_bytes
    → Parts generation state
    → (generation == 0) ≡ false
    → (state.current_term == 0 && not (vote_value state.voted_for == 0)) ≡ false
    → decode limits (written generation state)
      ≡ ok (record {
        generation = generation;
        state = record {
          current_term = state.current_term;
          voted_for =
              if vote_value state.voted_for == 0 then none else some (vote_value state.voted_for);
        };
      })
unfolding decode
decode-written limits generation state room p g t =
    let within : ltb limits.max_raft_hard_state_bytes 48 ≡ false = ground arith in
    rw
      (
        p.size, within, p.magic, p.version, p.record_size, p.flags, p.reserved, p.generation_read,
        p.term, p.vote, g, t, p.checksum, p.covered,
      )
      (ground arith)

-- A record that `encode` writes is read back by `decode`, generation and state alike, where its
-- numbers fit their fields and the size limit leaves room for a record.
pub decode-encode :
    (limits : StorageLimits) (generation : ℕ) (state : RaftHardState) (bytes : List ℕ)
    → 48 ≤ limits.max_raft_hard_state_bytes
    → FitsRecord generation state
    → encode generation state ≡ ok bytes
    → decode limits bytes ≡ ok (record { generation = generation; state = state })
decode-encode limits generation state bytes room fits h =
    let (same, nonzero, vote, term) = encode-eq-ok generation state bytes h in
    subst (λ b. decode limits b ≡ ok (record { generation = generation; state = state })) same
      (decode-written limits generation state room (parts generation state fits) nonzero
          (no_vote_back state.current_term state.voted_for term)
        ∙ ap
            (λ (v : Option ℕ). ok (record {
              generation = generation;
              state = record { current_term = state.current_term; voted_for = v };
            }))
            (vote_back state.voted_for vote))
