-- ===== src/Figure2/Advances/Elections.antt =====
-- src/figure2_spec.cpp: the election handlers (`start_election` to `handle_timeout`) take nothing back.
use kura_metadata_store.Prelude.{arith, refl, ◌++◌, ◌∷◌, []}
use kura_metadata_store.Raft.{
  RaftRole, leader, follower, candidate, learner, NodeId, RequestVoteRequest, RequestVoteResponse,
}
use kura_metadata_store.Figure2.Types.{StepResult, RuleId, reset_election_timer}
use kura_metadata_store.Figure2.Outcome.{
  push_rule, with_state, persist_hard_state, observe_higher_term,
}
use kura_metadata_store.Figure2.Leader.{initialize_leader}
use kura_metadata_store.Figure2.Vote.{
  become_candidate, request_votes, start_election, answer_vote, handle_request_vote, count_vote,
  handle_request_vote_response, timeout_in, handle_timeout, win_if_alone,
}
use kura_metadata_store.OrderedMap.{insert, nat_ord}
use kura_metadata_store.Figure2.Advances.{
  AdvancesTo, AdvancesTo-bind, observe-Advances, state-send_appends, after_test, either, throws,
  returns, from_write, Advances-same, Advances-refl,
}

persist-Advances : (r : StepResult) → AdvancesTo r.state (persist_hard_state r)
unfolding persist_hard_state
persist-Advances r r' e = ground arith

initialize-Advances : (r : StepResult) → AdvancesTo r.state (initialize_leader r)
unfolding initialize_leader
initialize-Advances r r' e = grind (arith, state-send_appends)

win_if_alone-Advances : (r : StepResult) → AdvancesTo r.state (win_if_alone r)
unfolding win_if_alone
win_if_alone-Advances r r' e = ground (arith, initialize-Advances r r')

start_election-Advances : (r : StepResult) → AdvancesTo r.state (start_election r)
unfolding start_election
start_election-Advances r =
    let stood : StepResult =
      push_rule RuleId.candidate_start_election (with_state (become_candidate r.state) r) in
    either _ (throws _) (
      from_write {t = stood.state}
        (record {
          term = omega arith;
          vote = λ c h e. absurd (omega arith);
          commit = omega arith;
          applied = omega arith;
          snapshot = refl;
          node = refl;
          peers = refl;
          committed = λ i x lt h. h;
        })
        (AdvancesTo-bind (persist_hard_state stood) _ (persist-Advances stood) λ w.
          win_if_alone-Advances (record w {
            effects =
                (w.effects ++ reset_election_timer ∷ []) ++ request_votes w.state w.state.peers;
          })))

answer-Advances :
    (from : NodeId) (q : RequestVoteRequest) (r : StepResult)
    → AdvancesTo r.state (answer_vote from q r)
unfolding answer_vote persist_hard_state
answer-Advances from q r r' e = ground arith

count-Advances :
    (from : NodeId) (a : RequestVoteResponse) (r : StepResult)
    → AdvancesTo r.state (count_vote from a r)
unfolding count_vote
count-Advances from a r =
    let counted : StepResult =
      with_state (record (r.state) { votes_received = insert from r.state.votes_received }) r in
    either _ (returns r (Advances-refl r.state)) (
      either _
        (from_write (Advances-same r.state counted.state refl refl refl refl)
          (initialize-Advances counted))
        (returns counted (Advances-same r.state counted.state refl refl refl refl)))

timeout_in-Advances : (role : RaftRole) (r : StepResult) → AdvancesTo r.state (timeout_in role r)
unfolding timeout_in
timeout_in-Advances leader r r' e = grind (arith, state-send_appends)
timeout_in-Advances follower r r' e = start_election-Advances _ r' e
timeout_in-Advances candidate r r' e = start_election-Advances _ r' e
timeout_in-Advances learner r r' e = ground arith

pub handle_timeout-Advances : (r : StepResult) → AdvancesTo r.state (handle_timeout r)
unfolding handle_timeout
handle_timeout-Advances r = timeout_in-Advances r.state.role r

pub request_vote-Advances :
    (from : NodeId) (q : RequestVoteRequest) (r : StepResult)
    → AdvancesTo r.state (handle_request_vote from q r)
unfolding handle_request_vote
request_vote-Advances from q r = after_test _ _ (
    after_test _ _ (
      AdvancesTo-bind (observe_higher_term q.term r) (answer_vote from q)
        (observe-Advances q.term r) (answer-Advances from q)))

pub vote_response-Advances :
    (from : NodeId) (a : RequestVoteResponse) (r : StepResult)
    → AdvancesTo r.state (handle_request_vote_response from a r)
unfolding handle_request_vote_response
vote_response-Advances from a r = after_test _ _ (
    AdvancesTo-bind (observe_higher_term a.term r) (count_vote from a) (observe-Advances a.term r)
      (count-Advances from a))
