-- ===== src/Figure2/Vote.antt =====
-- Elections in src/figure2_spec.cpp: `start_election`, `handle_request_vote`,
-- `handle_request_vote_response` and `handle_timeout`.
use kura_metadata_store.Prelude.{
  ◌+◌, Bool, true, false, ◌||◌, ◌&&◌, not, Option, none, some, List, [], ◌∷◌, ◌++◌, ltb, leb, ◌==◌,
  if◌then◌else◌, length, u64_max,
}
use kura_metadata_store.Prelude.Exception.{
  Result, ok, err, invalid_argument, overflow_error, ◌>>=◌, ◌>>◌, throw_if,
}
use kura_metadata_store.OrderedMap.{insert, nat_ord}
use kura_metadata_store.Raft.{
  NodeId, RaftRole, follower, candidate, leader, learner, RequestVoteRequest, RequestVoteResponse,
}
use kura_metadata_store.Figure2.Types.{
  State, StepResult, RuleId, Effect, send_request_vote, send_request_vote_response,
  reset_election_timer,
}
use kura_metadata_store.Figure2.Log.{
  last_index, last_term, majority, ensure_peer, is_log_at_least_as_up_to_date,
}
use kura_metadata_store.Figure2.Validate.{is_candidate}
use kura_metadata_store.Figure2.Outcome.{
  push_rule, push_effect, with_state, persist_hard_state, observe_higher_term,
}
use kura_metadata_store.Figure2.Leader.{initialize_leader, send_appends}

-- `voted_for == candidate` of an optional and a node.
abbrev pub voted_is : Option NodeId → NodeId → Bool
voted_is none c = false
voted_is (some v) c = v == c

abbrev pub has_no_vote : Option NodeId → Bool
has_no_vote none = true
has_no_vote (some v) = false

-- The writes of `start_election` to the state.
abbrev pub become_candidate : State → State
become_candidate s = record s {
  persistent = record (s.persistent) { current_term = s.current_term + 1; voted_for = some s.node };
  role = candidate;
  known_leader = none;
  leader = none;
  votes_received = s.node ∷ [];
}

unfoldable pub vote_request : State → RequestVoteRequest
vote_request s = record {
  term = s.current_term;
  candidate = s.node;
  last_log_index = last_index s;
  last_log_term = last_term s;
}

unfoldable pub request_votes : State → List NodeId → List Effect
unfolding vote_request
request_votes s [] = []
request_votes s (p ∷ ps) = send_request_vote p (vote_request s) ∷ request_votes s ps

-- The end of `start_election`: a server with no peers has won.
unfoldable pub win_if_alone : StepResult → Result StepResult
win_if_alone r = if majority r.state == 1 then initialize_leader r else ok r

unfoldable pub start_election : StepResult → Result StepResult
unfolding request_votes win_if_alone
start_election r =
    if r.state.current_term == u64_max then err (overflow_error "Raft term exhausted") else do
      r' ←
          persist_hard_state
            (push_rule RuleId.candidate_start_election (with_state (become_candidate r.state) r))
      win_if_alone (record r' {
        effects =
            (r'.effects ++ reset_election_timer ∷ []) ++ request_votes r'.state r'.state.peers;
      })

-- A response to `to` that says whether the vote is granted.
abbrev pub vote_reply : NodeId → Bool → StepResult → StepResult
vote_reply to granted r =
    push_effect
      (send_request_vote_response to (record { term = r.state.current_term; granted = granted })) r

-- `persist_hard_state` where the vote is a new one.
unfoldable pub persist_if : Bool → StepResult → Result StepResult
persist_if changed r = if changed then persist_hard_state r else ok r

abbrev pub vote_for : NodeId → State → State
vote_for c s = record s { persistent = record (s.persistent) { voted_for = some c } }

unfoldable pub grant_vote : NodeId → NodeId → StepResult → Result StepResult
unfolding persist_if
grant_vote from c r = do
  r' ←
      persist_if (not (voted_is r.state.voted_for c))
        (push_rule RuleId.request_vote_grant (with_state (vote_for c r.state) r))
  ok (vote_reply from true (push_effect reset_election_timer r'))

unfoldable pub can_grant : State → RequestVoteRequest → Bool
can_grant s request =
    (has_no_vote s.voted_for || voted_is s.voted_for request.candidate)
    && is_log_at_least_as_up_to_date s request.last_log_term request.last_log_index

-- `handle_request_vote` once the term is observed.
unfoldable pub answer_vote : NodeId → RequestVoteRequest → StepResult → Result StepResult
unfolding grant_vote can_grant
answer_vote from request r =
    if ltb request.term r.state.current_term
    then ok (vote_reply from false (push_rule RuleId.request_vote_reject_stale r))
    else if can_grant r.state request
    then grant_vote from request.candidate r
    else ok (vote_reply from false (push_rule RuleId.request_vote_deny r))

unfoldable pub handle_request_vote : NodeId → RequestVoteRequest → StepResult → Result StepResult
unfolding answer_vote
handle_request_vote from request r = do
  ensure_peer r.state from
  throw_if (not (request.candidate == from))
      (invalid_argument "RequestVote sender does not match candidate")
  r' ← observe_higher_term request.term r
  answer_vote from request r'

-- `handle_request_vote_response` once the term is observed.
unfoldable pub count_vote : NodeId → RequestVoteResponse → StepResult → Result StepResult
count_vote from response r =
    if not (is_candidate r.state.role)
      || (not (response.term == r.state.current_term) || not response.granted)
    then ok r
    else (let r' =
          with_state (record (r.state) { votes_received = insert from r.state.votes_received }) r in
        if leb (majority r'.state) (length r'.state.votes_received)
        then initialize_leader r'
        else ok r')

unfoldable pub handle_request_vote_response :
    NodeId → RequestVoteResponse → StepResult → Result StepResult
unfolding count_vote
handle_request_vote_response from response r = do
  ensure_peer r.state from
  r' ← observe_higher_term response.term r
  count_vote from response r'

unfoldable pub timeout_in : RaftRole → StepResult → Result StepResult
unfolding start_election
timeout_in leader r = send_appends r.state.peers (push_rule RuleId.leader_heartbeat r)
timeout_in follower r = start_election (push_rule RuleId.follower_election_timeout r)
timeout_in candidate r = start_election (push_rule RuleId.candidate_restart_election r)
timeout_in learner r = ok r

unfoldable pub handle_timeout : StepResult → Result StepResult
unfolding timeout_in
handle_timeout r = timeout_in r.state.role r
