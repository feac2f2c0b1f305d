-- ===== src/Storage/HardState.antt =====
-- The record of src/raft_hard_state_store.cpp: `encode`, `decode` and `validate_transition`. Messages
-- stand without the path that some of them end with. Files and Persist have the store, RoundTrip,
-- Follows, Durable and Atomic are about both.
pub mod RoundTrip
pub mod Files
pub mod Persist
pub mod Durable
pub mod Follows
pub mod Atomic
use kura_metadata_store.Prelude.{
  is_some, ℕ, ◌^◌, Bool, true, false, ◌||◌, ◌&&◌, not, Option, none, some, List, [], ◌∷◌, ◌++◌, ltb,
  ◌==◌, if◌then◌else◌, length, take,
}
use kura_metadata_store.Prelude.Exception.{Result, ok, ◌>>=◌, ◌>>◌, throw_if, storage_error}
use kura_metadata_store.Raft.{RaftHardState, NodeId}
use kura_metadata_store.Bytes.Prefix.{starts_with}
use kura_metadata_store.Storage.Codec.{StorageLimits, le_bytes, read_le, crc32c}

-- "KURAHST1".
abbrev pub hard_state_magic : List ℕ
hard_state_magic = 75 ∷ 85 ∷ 82 ∷ 65 ∷ 72 ∷ 83 ∷ 84 ∷ 49 ∷ []

abbrev pub hard_state_record_size : ℕ
hard_state_record_size = 48

abbrev pub hard_state_format_version : ℕ
hard_state_format_version = 1

-- Whether an optional node is present and zero.
abbrev pub votes_zero : Option NodeId → Bool
votes_zero none = false
votes_zero (some n) = n == 0

-- `state.voted_for ? state.voted_for->value : 0U`.
abbrev pub vote_value : Option NodeId → ℕ
vote_value none = 0
vote_value (some n) = n

-- The bytes before the checksum.
unfoldable pub hard_state_fields : ℕ → RaftHardState → List ℕ
hard_state_fields generation state =
    hard_state_magic
    ++ (le_bytes 2 hard_state_format_version
        ++ (le_bytes 2 hard_state_record_size
            ++ (le_bytes 4 0
                ++ (le_bytes 8 generation
                    ++ (le_bytes 8 state.current_term
                        ++ le_bytes 8 (vote_value state.voted_for))))))

unfoldable pub encode : ℕ → RaftHardState → Result (List ℕ)
encode generation state = do
  throw_if (generation == 0) (storage_error "Raft hard-state generation must be nonzero")
  throw_if (votes_zero state.voted_for)
      (storage_error "Raft votedFor must be absent or a nonzero node ID")
  throw_if (state.current_term == 0 && is_some state.voted_for)
      (storage_error "Raft term zero cannot contain a vote")
  let fields = hard_state_fields generation state
  ok (fields ++ (le_bytes 4 (crc32c fields) ++ le_bytes 4 0))

pub record DecodedHardState : Type 0 where
  pub generation : ℕ
  pub state : RaftHardState

unfoldable pub read_field : ℕ → List ℕ → ℕ → Result ℕ
unfolding read_le
read_field width view offset =
    read_le "Raft hard-state field extends past end of file" width view offset

-- `decode` on the contents of the file; `size` is their length.
unfoldable pub decode : StorageLimits → List ℕ → Result DecodedHardState
decode limits view = do
  throw_if (ltb limits.max_raft_hard_state_bytes (length view))
      (storage_error "Raft hard-state file exceeds configured size limit")
  throw_if (not (length view == hard_state_record_size))
      (storage_error "Raft hard-state record is torn or has trailing bytes")
  throw_if (not (starts_with hard_state_magic view))
      (storage_error "Raft hard-state magic is invalid")
  version ← read_field 2 view 8
  record_size ← read_field 2 view 10
  flags ← read_field 4 view 12
  reserved ← read_field 4 view 44
  throw_if
      (not (version == hard_state_format_version)
        || (not (record_size == hard_state_record_size)
            || (not (flags == 0) || not (reserved == 0))))
      (storage_error "Raft hard-state version, size, flags, or reserved field is invalid")
  generation ← read_field 8 view 16
  term ← read_field 8 view 24
  voted_for ← read_field 8 view 32
  throw_if (generation == 0) (storage_error "Raft hard-state generation zero is invalid")
  throw_if (term == 0 && not (voted_for == 0))
      (storage_error "Raft hard-state term zero contains a vote")
  checksum ← read_field 4 view 40
  throw_if (not (checksum == crc32c (take 40 view)))
      (storage_error "Raft hard-state checksum mismatch")
  ok (record {
    generation = generation;
    state = record {
      current_term = term;
      voted_for = if voted_for == 0 then none else some voted_for;
    };
  })

-- `!=` of two optional nodes.
abbrev pub votes_differ : Option NodeId → Option NodeId → Bool
votes_differ none none = false
votes_differ none (some b) = true
votes_differ (some a) none = true
votes_differ (some a) (some b) = not (a == b)

unfoldable pub validate_transition : RaftHardState → RaftHardState → Result (Unit {0})
validate_transition current next = do
  throw_if (votes_zero next.voted_for)
      (storage_error "Raft votedFor must be absent or a nonzero node ID")
  throw_if (next.current_term == 0 && is_some next.voted_for)
      (storage_error "Raft term zero cannot contain a vote")
  throw_if (ltb next.current_term current.current_term)
      (storage_error "Raft currentTerm must not regress")
  throw_if
      (next.current_term == current.current_term
        && (votes_differ current.voted_for next.voted_for && is_some current.voted_for))
      (storage_error "Raft votedFor must not change or clear within a term")
