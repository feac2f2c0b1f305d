-- ===== src/Figure2/Step.antt =====
-- `handle_apply` and `step` of src/figure2_spec.cpp.
use kura_metadata_store.Prelude.{
  is_some, ◌+◌, Bool, true, false, ◌||◌, ◌&&◌, not, Option, none, some, [], leb, ◌==◌,
  if◌then◌else◌, sub_u64,
}
use kura_metadata_store.Prelude.Exception.{
  Result, ok, err, invalid_argument, logic_error, undefined_behaviour, ◌>>=◌, ◌>>◌, throw_if,
}
use kura_metadata_store.OrderedMap.{member, remove, nat_ord}
use kura_metadata_store.Raft.{LogIndex, NodeId, RaftHardState, RaftHardStatePersisted}
use kura_metadata_store.Figure2.Types.{
  State, StepResult, RuleId, LeaderState, Event, election_timeout, heartbeat_timeout, observe_term,
  receive_request_vote, receive_request_vote_response, receive_append_entries,
  receive_append_entries_response, receive_client_command, raft_hard_state_persisted, apply_command,
  complete_client_command, PendingHardStatePersistence,
}
use kura_metadata_store.Figure2.Log.{base, at}
use kura_metadata_store.Figure2.Validate.{is_leader, ensure_valid}
use kura_metadata_store.Figure2.Outcome.{
  push_rule, push_effect, with_state, observe_higher_term, gate_on_hard_state,
}
use kura_metadata_store.Figure2.Leader.{handle_append_entries_response, handle_client}
use kura_metadata_store.Figure2.Vote.{
  handle_request_vote, handle_request_vote_response, handle_timeout,
}
use kura_metadata_store.Figure2.Append.{handle_append_entries}

-- The client's answer: `pending_clients.erase(index) != 0`.
unfoldable pub complete_client : LogIndex → Option LeaderState → StepResult → StepResult
complete_client index none r = r
complete_client index (some l) r =
    if member index l.pending_clients
    then push_effect (complete_client_command index) (
        with_state
          (record (r.state) {
            leader = some (record l { pending_clients = remove index l.pending_clients });
          })
          r)
    else r

abbrev pub advance_applied : State → State
advance_applied s = record s {
  volatile_state = record (s.volatile_state) { last_applied = s.last_applied + 1 };
}

unfoldable pub handle_apply : StepResult → Result StepResult
unfolding complete_client
handle_apply r =
    if leb r.state.commit_index r.state.last_applied
    then ok r
    else (let index = r.state.last_applied + 1 in
        at r.state.log (sub_u64 (sub_u64 index (base r.state)) 1) >>= λ entry. ok (
          complete_client index r.state.leader (
            push_effect (apply_command index entry.command)
              (push_rule RuleId.apply_committed (with_state (advance_applied r.state) r)))))

abbrev pub same_vote : Option NodeId → Option NodeId → Bool
same_vote none none = true
same_vote (some a) (some b) = a == b
same_vote _ _ = false

-- `==` of `RaftHardState`, which is defaulted.
abbrev pub same_hard_state : RaftHardState → RaftHardState → Bool
same_hard_state a b = a.current_term == b.current_term && same_vote a.voted_for b.voted_for

unfoldable pub complete_persistence :
    RaftHardStatePersisted → Option PendingHardStatePersistence → StepResult → Result StepResult
complete_persistence done none r = err undefined_behaviour
complete_persistence done (some pending) r =
    if not (done.request_id == pending.request.request_id)
      || not (same_hard_state done.state pending.request.state)
    then err (invalid_argument "Raft hard-state completion does not match pending request")
    else ok (record {
      state = record (r.state) { pending_hard_state = none };
      rules = r.rules;
      effects = pending.deferred_effects;
    })

-- The visitor of `step`.
unfoldable pub dispatch : Event → StepResult → Result StepResult
unfolding handle_apply complete_persistence
dispatch election_timeout r = if not (is_leader r.state.role) then handle_timeout r else ok r
dispatch heartbeat_timeout r = if is_leader r.state.role then handle_timeout r else ok r
dispatch Event.apply_committed r = handle_apply r
dispatch (observe_term term) r = observe_higher_term term r
dispatch (receive_request_vote from request) r = handle_request_vote from request r
dispatch (receive_request_vote_response from response) r =
    handle_request_vote_response from response r
dispatch (receive_append_entries from request) r = handle_append_entries from request r
dispatch (receive_append_entries_response from response) r =
    handle_append_entries_response from response r
dispatch (receive_client_command command) r = handle_client command r
dispatch (raft_hard_state_persisted done) r = complete_persistence done r.state.pending_hard_state r

abbrev pub is_completion : Event → Bool
is_completion (raft_hard_state_persisted done) = true
is_completion _ = false

-- The tests of `step` before the visitor.
unfoldable pub admit_event : State → Event → Result (Unit {0})
admit_event s event = do
  ensure_valid s "invalid pre-state"
  throw_if (is_some s.pending_hard_state && not (is_completion event))
      (logic_error "Raft core input is blocked on hard-state persistence")
  throw_if (not (is_some s.pending_hard_state) && is_completion event)
      (invalid_argument "unexpected Raft hard-state persistence completion")

abbrev pub begin : State → StepResult
begin s = record { state = s; rules = []; effects = [] }

unfoldable pub step : State → Event → Result StepResult
unfolding dispatch admit_event
step s event = do
  admit_event s event
  handled ← dispatch event (begin s)
  gated ← gate_on_hard_state handled
  ensure_valid gated.state "invalid post-state"
  ok gated
