-- ===== src/Examples/Servers.antt =====
-- Concrete servers of the Figure 2 core, and the theorems about it at them.
use kura_metadata_store.Prelude.{◌≡◌, refl, none, some, [], ◌∷◌}
use kura_metadata_store.Prelude.Exception.{ok, err}
use kura_metadata_store.OrderedMap.{nat_ord}
use kura_metadata_store.Raft.{follower}
use kura_metadata_store.Prelude.{arith, true}
use kura_metadata_store.Raft.{leader, NodeId, RequestVoteResponse}
use kura_metadata_store.Figure2.Types.{
  State, StepResult, Event, receive_request_vote, reset_election_timer, election_timeout,
  raft_hard_state_persisted, LeaderState, PendingHardStatePersistence,
}
use kura_metadata_store.Figure2.Gate.Covered.{WritesFirst, IsCovered}
use kura_metadata_store.Figure2.Gate.Writes.{step-WritesFirst}
use kura_metadata_store.Figure2.Votes.{here, first, later, one_vote_for_each_term}
use kura_metadata_store.Figure2.Commit.{CommitOutcome, advance_leader_commit-outcome}
use kura_metadata_store.Figure2.Step.{begin}
use kura_metadata_store.Figure2.Advances.{Advances}
use kura_metadata_store.Figure2.Advances.Steps.{step-Advances}
use kura_metadata_store.OrderedMap.{insert, member, remove, find, assign, emplace, erase}
use kura_metadata_store.Figure2.Append.{
  push_rule_if, matches_previous, check_contiguous, reconcile, advance_follower_commit,
  accept_entries, finish_append, append_if, match_and_append, receive_entries,
  handle_append_entries,
}
use kura_metadata_store.Figure2.Leader.{
  leader_state, progress_at, next_to_send, entries_from, append_request, send_append, send_appends,
  initial_progress, initialize_leader, count_replicated, commits_at, commit_scan, set_commit,
  advance_leader_commit, put_progress, record_success, retry_replication, on_response,
  leader_response, handle_append_entries_response, handle_client,
}
use kura_metadata_store.Figure2.Log.{
  base, back_index, back_term, last_index, last_term, at, log_term, snapshot_or_log_term, term_at,
  majority, ensure_peer, is_log_at_least_as_up_to_date,
}
use kura_metadata_store.Figure2.Outcome.{
  hard_state, persist_hard_state, split_at_persist, gate_split, gate_on_hard_state,
  observe_higher_term,
}
use kura_metadata_store.Figure2.Step.{
  complete_client, handle_apply, complete_persistence, dispatch, admit_event, step,
}
use kura_metadata_store.Figure2.Validate.{
  violation_if, peer_violations, snapshot_violations, log_violations, pending_violations,
  vote_violations, progress_violations, peers_progress_violations, client_violations,
  leader_violations, index_violations, role_violations, validate, first_violation, ensure_valid,
}
use kura_metadata_store.Figure2.Vote.{
  vote_request, request_votes, win_if_alone, start_election, persist_if, grant_vote, can_grant,
  answer_vote, handle_request_vote, count_vote, handle_request_vote_response, timeout_in,
  handle_timeout,
}

abbrev fresh_server : State
fresh_server = record {
  node = 1;
  peers = 2 ∷ 3 ∷ [];
  role = follower;
  persistent = record { current_term = 0; voted_for = none; snapshot = none; log = [] };
  volatile_state = record { commit_index = 0; last_applied = 0 };
  known_leader = none;
  votes_received = [];
  leader = none;
  next_hard_state_request_id = 1;
  pending_hard_state = none;
}

-- What a step gives, where it succeeds. Opening it opens all that `step` calls, so that it runs.
stepped : State → Event → StepResult
unfolding insert member remove find assign emplace erase push_rule_if matches_previous
    check_contiguous reconcile advance_follower_commit accept_entries finish_append append_if
    match_and_append receive_entries handle_append_entries leader_state progress_at next_to_send
    entries_from append_request send_append send_appends initial_progress initialize_leader
    count_replicated commits_at commit_scan set_commit advance_leader_commit put_progress
    record_success retry_replication on_response leader_response handle_append_entries_response
    handle_client base back_index back_term last_index last_term at log_term snapshot_or_log_term
    term_at majority ensure_peer is_log_at_least_as_up_to_date hard_state persist_hard_state
    split_at_persist gate_split gate_on_hard_state observe_higher_term complete_client handle_apply
    complete_persistence dispatch admit_event step violation_if peer_violations snapshot_violations
    log_violations pending_violations vote_violations progress_violations peers_progress_violations
    client_violations leader_violations index_violations role_violations validate first_violation
    ensure_valid vote_request request_votes win_if_alone start_election persist_if grant_vote
    can_grant answer_vote handle_request_vote count_vote handle_request_vote_response timeout_in
    handle_timeout
stepped s e = elim (step s e) [ ok r ↦ r | err x ↦ begin s ]

-- What `advance_leader_commit` gives, where it succeeds.
advanced : StepResult → StepResult
unfolding leader_state count_replicated commits_at commit_scan set_commit advance_leader_commit find
    base last_index at log_term snapshot_or_log_term term_at majority
advanced r = elim (advance_leader_commit r) [ ok r' ↦ r' | err x ↦ r ]

step-Advances_example : Advances fresh_server (stepped fresh_server election_timeout).state
unfolding stepped
step-Advances_example =
    step-Advances fresh_server election_timeout (stepped fresh_server election_timeout) refl

-- The server that has asked for votes waits for its hard state to be written.
abbrev asking : State
asking = (stepped fresh_server election_timeout).state

no_write : PendingHardStatePersistence
no_write = record {
  request = record { request_id = 0; state = record { current_term = 0; voted_for = none } };
  deferred_effects = [];
}

waiting : State → PendingHardStatePersistence
waiting s = elim s.pending_hard_state [ none ↦ no_write | some p ↦ p ]

abbrev written : Event
written =
    raft_hard_state_persisted
      (record { request_id = 1; state = record { current_term = 1; voted_for = some 1 } })

step-WritesFirst_example :
    WritesFirst fresh_server election_timeout (stepped fresh_server election_timeout)
    × IsCovered (stepped fresh_server election_timeout).state
unfolding stepped
step-WritesFirst_example =
    step-WritesFirst fresh_server election_timeout (stepped fresh_server election_timeout) tt refl

-- A request for a vote in a higher term: the term is written, then the vote.
abbrev their_request : Event
their_request =
    receive_request_vote 2
      (record { term = 1; candidate = 2; last_log_index = 0; last_log_term = 0 })

abbrev term_written : Event
term_written =
    raft_hard_state_persisted
      (record { request_id = 1; state = record { current_term = 1; voted_for = none } })

abbrev vote_written : Event
vote_written =
    raft_hard_state_persisted
      (record { request_id = 2; state = record { current_term = 1; voted_for = some 2 } })

abbrev asked_server : State
asked_server = (stepped fresh_server their_request).state

abbrev term_server : State
term_server = (stepped asked_server term_written).state

abbrev vote_server : State
vote_server = (stepped term_server vote_written).state

asked_server-IsCovered : IsCovered asked_server
unfolding stepped
asked_server-IsCovered =
    (step-WritesFirst fresh_server their_request (stepped fresh_server their_request) tt refl).1

term_server-IsCovered : IsCovered term_server
unfolding stepped
term_server-IsCovered =
    (step-WritesFirst asked_server term_written (stepped asked_server term_written)
      asked_server-IsCovered refl).1

abbrev yes_vote : RequestVoteResponse
yes_vote = record { term = 1; granted = true }

-- The same candidate asks once more, and is granted the vote once more.
one_vote_for_each_term_example : ◌≡◌ {A = NodeId} 2 2
unfolding stepped
one_vote_for_each_term_example =
    one_vote_for_each_term term_server vote_server vote_written their_request
      (stepped term_server vote_written) (stepped vote_server their_request) 2 2 1
      term_server-IsCovered refl (later reset_election_timer (first yes_vote refl refl)) here refl
      (later reset_election_timer (first yes_vote refl refl))

-- A leader with one entry of its term that one of its two peers holds.
abbrev leading : LeaderState
leading = record {
  progress =
      (2, record { next_index = 2; match_index = 1 })
      ∷ (3, record { next_index = 1; match_index = 0 })
      ∷ [];
  pending_clients = [];
}

abbrev leader_server : State
leader_server = record fresh_server {
  role = leader;
  persistent = record {
    current_term = 1;
    voted_for = some 1;
    snapshot = none;
    log =
        record {
          term = 1;
          index = 1;
          command = record {
            request_id = record { client = 0; sequence = 0 };
            type_tag = 0;
            payload = [];
          };
        }
        ∷ [];
  };
  leader = some leading;
}

advance_leader_commit-outcome_example :
    CommitOutcome leader_server leading (advanced (begin leader_server)).state.commit_index
unfolding stepped advanced
advance_leader_commit-outcome_example =
    advance_leader_commit-outcome (begin leader_server) (advanced (begin leader_server)) leading
      refl (omega arith) refl
