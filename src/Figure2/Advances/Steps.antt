-- ===== src/Figure2/Advances/Steps.antt =====
-- src/figure2_spec.cpp: `dispatch` and `step` take nothing back.
use kura_metadata_store.Prelude.{◌≡◌, Option, arith}
use kura_metadata_store.Prelude.Exception.{ok}
use kura_metadata_store.Figure2.Types.{State, StepResult}
use kura_metadata_store.Figure2.Outcome.{gate_on_hard_state}
use kura_metadata_store.OrderedMap.{nat_ord}
use kura_metadata_store.Figure2.Step.{
  admit_event, begin, handle_apply, complete_persistence, dispatch, step,
}
use kura_metadata_store.Figure2.Validate.{ensure_valid}
use kura_metadata_store.Raft.{RaftHardStatePersisted}
use kura_metadata_store.Figure2.Types.{
  PendingHardStatePersistence, Event, election_timeout, heartbeat_timeout, observe_term,
  receive_request_vote, receive_request_vote_response, receive_append_entries,
  receive_append_entries_response, receive_client_command, raft_hard_state_persisted,
}
use kura_metadata_store.Figure2.Advances.{
  Advances, Advances-refl, AdvancesTo, AdvancesTo-bind, observe-Advances, after_test, returns,
  either,
}
use kura_metadata_store.Figure2.Advances.Elections.{
  handle_timeout-Advances, request_vote-Advances, vote_response-Advances,
}
use kura_metadata_store.Figure2.Advances.Entries.{append_entries-Advances}
use kura_metadata_store.Figure2.Advances.Replication.{append_response-Advances, client-Advances}

apply-Advances : (r : StepResult) → AdvancesTo r.state (handle_apply r)
unfolding handle_apply
apply-Advances r r' e = ground arith

completion-Advances :
    (d : RaftHardStatePersisted) (p : Option PendingHardStatePersistence) (r : StepResult)
    → AdvancesTo r.state (complete_persistence d p r)
unfolding complete_persistence
completion-Advances d p r r' e = ground arith

pub dispatch-Advances : (e : Event) (r : StepResult) → AdvancesTo r.state (dispatch e r)
unfolding dispatch
dispatch-Advances election_timeout r =
    either _ (handle_timeout-Advances r) (returns _ (Advances-refl r.state))
dispatch-Advances heartbeat_timeout r =
    either _ (handle_timeout-Advances r) (returns _ (Advances-refl r.state))
dispatch-Advances Event.apply_committed r = apply-Advances r
dispatch-Advances (observe_term term) r = observe-Advances term r
dispatch-Advances (receive_request_vote from q) r = request_vote-Advances from q r
dispatch-Advances (receive_request_vote_response from a) r = vote_response-Advances from a r
dispatch-Advances (receive_append_entries from q) r = append_entries-Advances from q r
dispatch-Advances (receive_append_entries_response from a) r = append_response-Advances from a r
dispatch-Advances (receive_client_command c) r = client-Advances c r
dispatch-Advances (raft_hard_state_persisted d) r = completion-Advances d _ r

gate-Advances : (r : StepResult) → AdvancesTo r.state (gate_on_hard_state r)
unfolding gate_on_hard_state
gate-Advances r r' e = ground arith

-- A step that succeeds lowers neither the term, nor the commit index, nor the last applied index; it
-- keeps a vote that was cast for as long as the term stays; it keeps the log entries up to the commit
-- index; and it keeps the node, its peers and
-- its snapshot.
pub step-Advances : (s : State) (e : Event) (r : StepResult) → step s e ≡ ok r → Advances s r.state
unfolding step
step-Advances s e r =
    after_test (admit_event s e) _
      (AdvancesTo-bind (dispatch e (begin s)) _ (dispatch-Advances e (begin s)) (λ h.
        AdvancesTo-bind (gate_on_hard_state h) _ (gate-Advances h) (λ g.
          after_test (ensure_valid g.state "invalid post-state") (ok g)
            (returns g (Advances-refl g.state)))))
      r
