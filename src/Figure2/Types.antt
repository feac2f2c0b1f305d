-- ===== src/Figure2/Types.antt =====
-- The state, events and effects of include/kura/metadata/raft/figure2_spec.hpp.
use kura_metadata_store.Prelude.{ℕ, String, Option, List}
use kura_metadata_store.OrderedMap.{Map, Set}
use kura_metadata_store.Raft.{
  Term, LogIndex, NodeId, RaftRole, CommandEnvelope, PersistentRaftState, PersistRaftHardState,
  RaftHardStatePersisted, RequestVoteRequest, RequestVoteResponse, AppendEntriesRequest,
  AppendEntriesResponse,
}

pub data RuleId : Type 0 where
  observe_higher_term apply_committed follower_election_timeout request_vote_reject_stale
        request_vote_grant request_vote_deny append_entries_reject_stale
        append_entries_reject_log_mismatch append_entries_accept append_entries_advance_commit
        candidate_start_election candidate_restart_election candidate_win_election
        candidate_accept_append_entries leader_initialize leader_append_client leader_replicate
        leader_record_replication leader_retry_replication leader_advance_commit leader_heartbeat :
      RuleId

pub record VolatileState : Type 0 where
  pub commit_index : LogIndex
  pub last_applied : LogIndex

pub record PeerProgress : Type 0 where
  pub next_index : LogIndex
  pub match_index : LogIndex

pub record LeaderState : Type 0 where
  pub progress : Map NodeId PeerProgress
  pub pending_clients : Set LogIndex

pub data Event : Type 0 where
  election_timeout heartbeat_timeout apply_committed : Event
  observe_term : Term → Event
  receive_request_vote : NodeId → RequestVoteRequest → Event
  receive_request_vote_response : NodeId → RequestVoteResponse → Event
  receive_append_entries : NodeId → AppendEntriesRequest → Event
  receive_append_entries_response : NodeId → AppendEntriesResponse → Event
  receive_client_command : CommandEnvelope → Event
  raft_hard_state_persisted : RaftHardStatePersisted → Event

pub data PersistentField : Type 0 where
  log_field : PersistentField

pub data Effect : Type 0 where
  persist_raft_hard_state : PersistRaftHardState → Effect
  persist_state : List PersistentField → Effect
  send_request_vote : NodeId → RequestVoteRequest → Effect
  send_request_vote_response : NodeId → RequestVoteResponse → Effect
  send_append_entries : NodeId → AppendEntriesRequest → Effect
  send_append_entries_response : NodeId → AppendEntriesResponse → Effect
  reset_election_timer : Effect
  apply_command : LogIndex → CommandEnvelope → Effect
  complete_client_command : LogIndex → Effect

pub record PendingHardStatePersistence : Type 0 where
  pub request : PersistRaftHardState
  pub deferred_effects : List Effect

pub record State : Type 0 where
  pub node : NodeId
  pub peers : List NodeId
  pub role : RaftRole
  pub persistent : PersistentRaftState
  pub open persistent use *
  pub volatile_state : VolatileState
  pub open volatile_state use *
  pub known_leader : Option NodeId
  pub votes_received : Set NodeId
  pub leader : Option LeaderState
  pub next_hard_state_request_id : ℕ
  pub pending_hard_state : Option PendingHardStatePersistence

pub record StepResult : Type 0 where
  pub state : State
  pub rules : List RuleId
  pub effects : List Effect

pub record InvariantViolation : Type 0 where
  pub message : String

pub record RuleDescriptor : Type 0 where
  pub id : RuleId
  pub name : String
  pub server_scope : String
  pub preconditions : String
  pub state_changes : String
  pub emitted_effects : String
  pub persistence_ordering : String
