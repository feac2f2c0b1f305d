-- ===== src/Figure2/Gate/Handlers.antt =====
-- The handlers of src/figure2_spec.cpp that write no hard state once the term is observed.
use kura_metadata_store.Prelude.{
  ◌≡◌, inl, inr, refl, Bool, true, false, Bool-cases, Option, none, some, List, [], ◌∷◌, arith,
  if◌then◌else◌, add_u64,
}
use kura_metadata_store.Prelude.Exception.{>>=-eq-ok}
use kura_metadata_store.OrderedMap.{find, insert, member, nat_ord}
use kura_metadata_store.Raft.{
  NodeId, LogIndex, LogEntry, RequestVoteResponse, AppendEntriesRequest, AppendEntriesResponse,
  CommandEnvelope,
}
use kura_metadata_store.Figure2.Types.{
  StepResult, RuleId, LeaderState, PeerProgress, persist_state, reset_election_timer, apply_command,
  log_field,
}
use kura_metadata_store.Figure2.Outcome.{push_rule, push_effect, with_state}
use kura_metadata_store.Figure2.Leader.{
  append_client, leader_state, send_appends, advance_leader_commit, on_response, leader_response,
  handle_client,
}
use kura_metadata_store.Figure2.Vote.{count_vote}
use kura_metadata_store.Figure2.Append.{
  Reconciled, committed_conflict, conflict, new_entries, advance_follower_commit, accept_entries,
  finish_append, append_if, match_and_append, receive_entries, check_contiguous, reconcile,
  matches_previous, accept_leader, push_rule_if,
}
use kura_metadata_store.Figure2.Step.{handle_apply, advance_applied, complete_client}
use kura_metadata_store.Figure2.Log.{at}
use kura_metadata_store.Figure2.Gate.{first_promise}
use kura_metadata_store.Figure2.Gate.Quiet.{
  Quietly, Quietly-refl, Quietly-trans, Quietly-same, Quietly-push, send_append-Quietly,
  send_appends-Quietly, initialize-Quietly, QuietlyTo, returns, throws, either, after, Quietly-then,
}

pub count-Quietly :
    (from : NodeId) (a : RequestVoteResponse) (r : StepResult) → QuietlyTo r (count_vote from a r)
unfolding count_vote
count-Quietly from a r =
    let counted : StepResult =
      with_state (record (r.state) { votes_received = insert from r.state.votes_received }) r in
    either _ (returns r (Quietly-refl r)) (
      either _
        (Quietly-then (Quietly-same r counted refl refl refl refl) (initialize-Quietly counted))
        (returns counted (Quietly-same r counted refl refl refl refl)))

commit-Quietly : (r : StepResult) → QuietlyTo r (advance_leader_commit r)
unfolding advance_leader_commit
commit-Quietly r r' e =
    Quietly-same r r' (ground arith) (ground arith) (ground arith) (ground arith)

follower_commit-Quietly :
    (q : AppendEntriesRequest) (r : StepResult) → Quietly r (advance_follower_commit q r)
unfolding advance_follower_commit
follower_commit-Quietly q r =
    Quietly-same r _ (ground arith) (ground arith) (ground arith) (ground arith)

persist_log_if :
    (b : Bool) (r : StepResult)
    → Quietly r (if b then push_effect (persist_state (log_field ∷ [])) r else r)
unfolding first_promise
persist_log_if true r = Quietly-push _ r refl
persist_log_if false r = Quietly-refl r

accept-Quietly :
    (from : NodeId) (q : AppendEntriesRequest) (log : List LogEntry) (b : Bool) (r : StepResult)
    → Quietly r (accept_entries from q log b r)
unfolding accept_entries first_promise
accept-Quietly from q log b r = Quietly-trans (Quietly-same r _ refl refl refl refl) (
    Quietly-trans (persist_log_if b _)
      (Quietly-trans (follower_commit-Quietly q _) (Quietly-push _ _ refl)))

finish-Quietly :
    (from : NodeId) (q : AppendEntriesRequest) (end : Reconciled) (r : StepResult)
    → Quietly r (finish_append from q end r)
unfolding finish_append first_promise
finish-Quietly from q committed_conflict r =
    Quietly-trans (Quietly-same r _ refl refl refl refl) (Quietly-push _ _ refl)
finish-Quietly from q (conflict i rest) r = accept-Quietly from q _ true r
finish-Quietly from q (new_entries rest) r = accept-Quietly from q _ _ r

append_if-Quietly :
    (b : Bool) (from : NodeId) (q : AppendEntriesRequest) (r : StepResult)
    → QuietlyTo r (append_if b from q r)
unfolding append_if first_promise
append_if-Quietly false from q r =
    returns _ (Quietly-trans (Quietly-same r _ refl refl refl refl) (Quietly-push _ _ refl))
append_if-Quietly true from q r =
    after (check_contiguous (add_u64 q.previous_log_index 1) q.entries) _
      λ _. after (reconcile r.state q.entries) _ λ end. returns _ (finish-Quietly from q end r)

effects-push_rule_if :
    (b : Bool) (rule : RuleId) (r : StepResult) → (push_rule_if b rule r).effects ≡ r.effects
unfolding push_rule_if
effects-push_rule_if b rule r = ground arith

pub receive-Quietly :
    (from : NodeId) (q : AppendEntriesRequest) (b : Bool) (r : StepResult)
    → QuietlyTo r (receive_entries from q b r)
unfolding receive_entries match_and_append first_promise
receive-Quietly from q b r =
    either _
      (returns _ (Quietly-trans (Quietly-same r _ refl refl refl refl) (Quietly-push _ _ refl)))
      (Quietly-then
        (Quietly-trans
          (Quietly-same r
            (with_state (accept_leader from r.state)
              (push_rule_if b RuleId.candidate_accept_append_entries r))
            (effects-push_rule_if b _ r) refl refl refl)
          (Quietly-push reset_election_timer _ refl))
        (after (matches_previous _ q) _ λ m. append_if-Quietly m from q _))

on_response-Quietly :
    (from : NodeId) (a : AppendEntriesResponse) (l : LeaderState) (p : Option PeerProgress)
    (r : StepResult)
    → QuietlyTo r (on_response from a l p r)
unfolding on_response
on_response-Quietly from a l none r = throws _
on_response-Quietly from a l (some p) r =
    either _
      (either _ (throws _) (Quietly-then (Quietly-same r _ refl refl refl refl) (commit-Quietly _)))
      (Quietly-then (Quietly-same r _ refl refl refl refl)
        (send_append-Quietly from a.read_context _))

pub response-Quietly :
    (from : NodeId) (a : AppendEntriesResponse) (r : StepResult)
    → QuietlyTo r (leader_response from a r)
unfolding leader_response
response-Quietly from a r =
    either _ (returns r (Quietly-refl r))
      (after (leader_state r.state) _ λ l. on_response-Quietly from a l (find from l.progress) r)

pub client-Quietly : (c : CommandEnvelope) (r : StepResult) → QuietlyTo r (handle_client c r)
unfolding handle_client first_promise
client-Quietly c r = either _ (returns r (Quietly-refl r)) (
    either _ (throws _) (
      after (leader_state r.state) _ λ l t e.
        let appended : StepResult = with_state (append_client c l r.state) r in
        let ready : StepResult =
          push_effect (persist_state (log_field ∷ []))
            (push_rule RuleId.leader_append_client appended) in
        let (sent, sends, rest) =
          >>=-eq-ok (send_appends r.state.peers ready) advance_leader_commit e in
        Quietly-trans
          (Quietly-trans
            (Quietly-same r (push_rule RuleId.leader_append_client appended) refl refl refl refl)
            (Quietly-push _ _ refl))
          (Quietly-trans (send_appends-Quietly r.state.peers ready sent sends)
            (commit-Quietly sent t rest))))

complete-Quietly :
    (i : LogIndex) (l : Option LeaderState) (r : StepResult) → Quietly r (complete_client i l r)
unfolding complete_client first_promise
complete-Quietly i none r = Quietly-refl r
complete-Quietly i (some l) r = elim (Bool-cases (member i l.pending_clients)) [
  | inl h ↦ rw h (Quietly-trans (Quietly-same r _ refl refl refl refl) (Quietly-push _ _ refl))
  | inr h ↦ rw h (Quietly-refl r)
]

pub apply-Quietly : (r : StepResult) → QuietlyTo r (handle_apply r)
unfolding handle_apply first_promise
apply-Quietly r = either _ (returns r (Quietly-refl r)) (
    after (at r.state.log _) _ λ entry. returns _ (
      Quietly-trans
        (Quietly-same r (push_rule RuleId.apply_committed (with_state (advance_applied r.state) r))
          refl refl refl refl)
        (Quietly-trans (Quietly-push (apply_command _ entry.command) _ refl)
          (complete-Quietly _ r.state.leader _))))
