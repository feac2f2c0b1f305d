-- ===== src/Raft.antt =====
-- The data that the parts of the Raft code share: include/kura/metadata/raft/*.hpp and
-- include/kura/metadata/core/{command,request_id}.hpp. `Term`, `LogIndex`, `NodeId` and
-- `ReadIndexContext` are structs of one `std::uint64_t`, and stand for that number.
use kura_metadata_store.Prelude.{ℕ, Bool, Option, List}
use kura_metadata_store.Prelude.Int.{ℤ}

abbrev pub Term : Type 0
Term = ℕ

abbrev pub LogIndex : Type 0
LogIndex = ℕ

abbrev pub NodeId : Type 0
NodeId = ℕ

abbrev pub ReadIndexContext : Type 0
ReadIndexContext = ℕ

pub data RaftRole : Type 0 where
  follower candidate leader learner : RaftRole

pub record RequestId : Type 0 where
  pub client : ℕ
  pub sequence : ℕ

pub record CommandEnvelope : Type 0 where
  pub request_id : RequestId
  pub type_tag : ℕ
  pub payload : List ℕ

pub record LogEntry : Type 0 where
  pub term : Term
  pub index : LogIndex
  pub command : CommandEnvelope

pub record ClusterMembership : Type 0 where
  pub voters : List NodeId
  pub learners : List NodeId

pub record SnapshotMetadata : Type 0 where
  pub last_included_index : LogIndex
  pub last_included_term : Term
  pub store_revision : ℤ
  pub compaction_revision : ℤ
  pub membership : ClusterMembership
  pub format_version : ℕ

pub record RaftHardState : Type 0 where
  pub current_term : Term
  pub voted_for : Option NodeId

pub record PersistentRaftState : Type 0 where
  pub current_term : Term
  pub voted_for : Option NodeId
  pub snapshot : Option SnapshotMetadata
  pub log : List LogEntry

pub record PersistRaftHardState : Type 0 where
  pub request_id : ℕ
  pub state : RaftHardState

pub record RaftHardStatePersisted : Type 0 where
  pub request_id : ℕ
  pub state : RaftHardState

pub record RequestVoteRequest : Type 0 where
  pub term : Term
  pub candidate : NodeId
  pub last_log_index : LogIndex
  pub last_log_term : Term

pub record RequestVoteResponse : Type 0 where
  pub term : Term
  pub granted : Bool

pub record AppendEntriesRequest : Type 0 where
  pub term : Term
  pub leader : NodeId
  pub previous_log_index : LogIndex
  pub previous_log_term : Term
  pub entries : List LogEntry
  pub leader_commit : LogIndex
  pub read_context : Option ReadIndexContext

pub record AppendEntriesResponse : Type 0 where
  pub term : Term
  pub succeeded : Bool
  pub matched_index : LogIndex
  pub read_context : Option ReadIndexContext
