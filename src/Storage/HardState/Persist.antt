-- ===== src/Storage/HardState/Persist.antt =====
-- `FileRaftHardStateStore::Impl` of src/raft_hard_state_store.cpp, with the parts of `DurableFile` and
-- the helpers that write the file, over a file system that is a parameter.
use kura_metadata_store.Prelude.{
  ℕ, ◌+◌, Bool, true, false, ◌&&◌, not, Option, none, some, List, ltb, ◌==◌, if◌then◌else◌, u64_max,
  [], ◌∷◌, zero, suc,
}
use kura_metadata_store.Prelude.Exception.{Result, ok, err, storage_error, ◌>>=◌, ◌>>◌, throw_if}
use kura_metadata_store.Raft.{RaftHardState, PersistRaftHardState, RaftHardStatePersisted}
use kura_metadata_store.Storage.Codec.{StorageLimits}
use kura_metadata_store.Storage.HardState.{
  DecodedHardState, encode, decode, validate_transition, votes_differ, hard_state_record_size,
}
use kura_metadata_store.Storage.HardState.Files.{
  Outcome, done, failed, WriteReturn, wrote, refused, DirectoryReturn, synchronized, unsupported,
  unsynchronized, FileSystem,
}

pub data RaftHardStateWriteBoundary : Type 0 where
  temporary_created record_written temporary_synchronized temporary_closed final_replaced
        directory_synchronized :
      RaftHardStateWriteBoundary

-- The members of `Impl`, but for its mutex: each method holds it from end to end.
pub record HardStateStore (D : Type 0) : Type 0 where
  pub disk : D
  pub limits : StorageLimits
  pub state : RaftHardState
  pub generation : ℕ
  pub healthy : Bool

-- One statement of the `try` block after another.
infixl 5 ◌and_then◌
abbrev pub ◌and_then◌ : {D : Type 0} → D × Outcome → (D → D × Outcome) → D × Outcome
(d, done) and_then next = next d
(d, failed e) and_then next = (d, failed e)

abbrev pub same_state : RaftHardState → RaftHardState → Bool
same_state a b = (a.current_term == b.current_term) && not (votes_differ a.voted_for b.voted_for)

abbrev pub outcome_result : Outcome → Result (Unit {0})
outcome_result done = ok tt
outcome_result (failed e) = err e

-- The default `DecodedHardState`, of a store that has no file.
abbrev pub no_hard_state : DecodedHardState
no_hard_state = record { generation = 0; state = record { current_term = 0; voted_for = none } }

module _ {D : Type 0} (fs : FileSystem D) where
  unfoldable pub decode_final : StorageLimits → D → Option (List ℕ) → Result DecodedHardState
  decode_final limits d none = ok no_hard_state
  decode_final limits d (some bytes) = do outcome_result (fs.read d); decode limits bytes

  unfoldable pub load_decoded : StorageLimits → D → Result DecodedHardState
  unfolding decode_final
  load_decoded limits d = do outcome_result (fs.inspect d); decode_final limits d (fs.final d)

  -- The constructor.
  unfoldable pub open_store : StorageLimits → D → D × Result (HardStateStore D)
  open_store limits d =
      if ltb limits.max_raft_hard_state_bytes hard_state_record_size
      then (d, err (storage_error "Raft hard-state storage limit is smaller than the v1 record"))
      else (let made = fs.create_directories d in
          (
            made.0,
            outcome_result made.1 >>= (λ _. load_decoded limits made.0) >>= λ decoded. ok (record {
              disk = made.0;
              limits = limits;
              state = decoded.state;
              generation = decoded.generation;
              healthy = true;
            }),
          ))

  unfoldable pub load : HardStateStore D → Result RaftHardState
  load s = do
    throw_if (not s.healthy)
        (storage_error "Raft hard-state store must be reopened after a write failure")
    decoded ← load_decoded s.limits s.disk
    throw_if (not (decoded.generation == s.generation && same_state decoded.state s.state))
        (storage_error "Raft hard state changed outside its owning store")
    ok s.state

  -- `reached`: the hook may throw at a boundary.
  unfoldable pub reached :
      (RaftHardStateWriteBoundary → Outcome) → RaftHardStateWriteBoundary → D → D × Outcome
  reached hook boundary d = (d, hook boundary)

  -- One round of `write_all`, by what `write` returned; `next` goes on after that many bytes and one.
  abbrev pub after_write_return : D × WriteReturn → (ℕ → D → D × Outcome) → D × Outcome
  after_write_return (d, refused e) next = (d, failed e)
  after_write_return (d, wrote zero) next =
      (d, failed (storage_error "write Raft hard state made no progress"))
  after_write_return (d, wrote (suc count)) next = next count d

  -- `write_all`; the first `written` bytes are written.
  unfoldable pub write_all : (written : ℕ) → List ℕ → D → D × Outcome
  write_all written [] d = (d, done)
  write_all (suc written) (b ∷ bs) d = write_all written bs d
  write_all zero (b ∷ bs) d =
      after_write_return (fs.write (b ∷ bs) d) (λ count after. write_all count bs after)

  -- `synchronize_directory_best_effort`, by what its calls returned.
  abbrev pub best_effort : D × DirectoryReturn → D × Outcome
  best_effort (d, synchronized) = (d, done)
  best_effort (d, unsupported) = (d, done)
  best_effort (d, unsynchronized e) = (d, failed e)

  -- The part of the `try` block in which `temporary_exists` holds.
  unfoldable pub write_temporary : (RaftHardStateWriteBoundary → Outcome) → List ℕ → D → D × Outcome
  unfolding reached
  write_temporary hook bytes d =
      reached hook temporary_created d
      and_then write_all 0 bytes
      and_then reached hook record_written
      and_then fs.fsync
      and_then reached hook temporary_synchronized
      and_then fs.close
      and_then reached hook temporary_closed
      and_then fs.rename

  -- The `catch` block's removal.
  abbrev pub clean_up : D × Outcome → D × Outcome
  clean_up (d, done) = (d, done)
  clean_up (d, failed e) = (fs.remove_temporary d, failed e)

  -- The `try` block.
  unfoldable pub write_record : (RaftHardStateWriteBoundary → Outcome) → List ℕ → D → D × Outcome
  unfolding write_temporary reached
  write_record hook bytes d =
      fs.create_new d
      and_then (λ created. clean_up (write_temporary hook bytes created))
      and_then reached hook final_replaced
      and_then (λ replaced. best_effort (fs.fsync_directory replaced))
      and_then reached hook directory_synchronized

  -- What follows the `try` block, or the `catch` block.
  unfoldable pub after_write :
      HardStateStore D
      → PersistRaftHardState
      → D × Outcome
      → HardStateStore D × Result RaftHardStatePersisted
  after_write s request (d, done) = (
    record s { disk = d; generation = s.generation + 1; state = request.state },
    ok (record { request_id = request.request_id; state = request.state }),
  )
  after_write s request (d, failed e) = (record s { disk = d; healthy = false }, err e)

  -- The tests of `persist`.
  unfoldable pub check_persist : HardStateStore D → PersistRaftHardState → Result (Unit {0})
  check_persist s request = do
    throw_if (not s.healthy)
        (storage_error "Raft hard-state store must be reopened after a write failure")
    throw_if (request.request_id == 0)
        (storage_error "Raft hard-state persistence request ID must be nonzero")
    validate_transition s.state request.state

  -- `persist` of a changed state.
  unfoldable pub persist_change :
      (RaftHardStateWriteBoundary → Outcome)
      → HardStateStore D
      → PersistRaftHardState
      → Result (List ℕ)
      → HardStateStore D × Result RaftHardStatePersisted
  persist_change hook s request (err e) = (s, err e)
  persist_change hook s request (ok bytes) = after_write s request (write_record hook bytes s.disk)

  -- `persist` once its tests have passed.
  unfoldable pub persist_checked :
      (RaftHardStateWriteBoundary → Outcome)
      → HardStateStore D
      → PersistRaftHardState
      → HardStateStore D × Result RaftHardStatePersisted
  persist_checked hook s request =
      if same_state request.state s.state
      then (s, ok (record { request_id = request.request_id; state = s.state }))
      else if s.generation == u64_max
      then (s, err (storage_error "Raft hard-state generation would overflow"))
      else persist_change hook s request (encode (s.generation + 1) request.state)

  -- `persist` on the outcome of its tests.
  unfoldable pub after_checks :
      (RaftHardStateWriteBoundary → Outcome)
      → HardStateStore D
      → PersistRaftHardState
      → Result (Unit {0})
      → HardStateStore D × Result RaftHardStatePersisted
  after_checks hook s request (err e) = (s, err e)
  after_checks hook s request (ok u) = persist_checked hook s request

  unfoldable pub persist :
      (RaftHardStateWriteBoundary → Outcome)
      → HardStateStore D
      → PersistRaftHardState
      → HardStateStore D × Result RaftHardStatePersisted
  persist hook s request = after_checks hook s request (check_persist s request)
