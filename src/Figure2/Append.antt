-- ===== src/Figure2/Append.antt =====
-- `handle_append_entries` of src/figure2_spec.cpp: the receiver of AppendEntries.
use kura_metadata_store.Prelude.{
  ◌-◌, Bool, true, false, ◌&&◌, not, none, some, List, [], ◌∷◌, ◌++◌, ltb, leb, ◌==◌, if◌then◌else◌,
  length, take, min, add_u64,
}
use kura_metadata_store.Prelude.Exception.{Result, ok, invalid_argument, ◌>>=◌, ◌>>◌, throw_if}
use kura_metadata_store.Raft.{NodeId, LogIndex, LogEntry, follower, AppendEntriesRequest}
use kura_metadata_store.Figure2.Types.{
  State, StepResult, RuleId, persist_state, log_field, send_append_entries_response,
  reset_election_timer,
}
use kura_metadata_store.Figure2.Log.{base, last_index, term_at, ensure_peer}
use kura_metadata_store.Figure2.Validate.{is_candidate, is_empty}
use kura_metadata_store.Figure2.Outcome.{push_rule, push_effect, with_state, observe_higher_term}

-- A response to the sender: `succeeded` with its matched index, and the request's read context.
abbrev pub append_reply : NodeId → AppendEntriesRequest → Bool → LogIndex → StepResult → StepResult
append_reply to request succeeded matched r =
    push_effect
      (send_append_entries_response to (record {
        term = r.state.current_term;
        succeeded = succeeded;
        matched_index = matched;
        read_context = request.read_context;
      }))
      r

unfoldable pub push_rule_if : Bool → RuleId → StepResult → StepResult
push_rule_if b rule r = if b then push_rule rule r else r

-- The writes on a request of the current term.
abbrev pub accept_leader : NodeId → State → State
accept_leader from s = record s {
  role = follower;
  leader = none;
  votes_received = [];
  known_leader = some from;
}

-- The local `matches`. `&&` does not compute the term where the index is out of the log.
unfoldable pub matches_previous : State → AppendEntriesRequest → Result Bool
matches_previous s request =
    if leb (base s) request.previous_log_index && leb request.previous_log_index (last_index s)
    then (term_at s request.previous_log_index >>= λ term. ok (term == request.previous_log_term))
    else ok false

unfoldable pub check_contiguous : LogIndex → List LogEntry → Result (Unit {0})
check_contiguous expected [] = ok tt
check_contiguous expected (e ∷ es) = do
  throw_if (not (e.index == expected)) (invalid_argument "AppendEntries entries are not contiguous")
  check_contiguous (add_u64 expected 1) es

-- How the loop over the incoming entries ends: a conflict with a committed entry, a conflict at an
-- index above the commit index with the entries from there on, or the entries past the log's end.
pub data Reconciled : Type 0 where
  committed_conflict : Reconciled
  conflict : LogIndex → List LogEntry → Reconciled
  new_entries : List LogEntry → Reconciled

-- The loop; the list is what `incoming` has not passed.
unfoldable pub reconcile : State → List LogEntry → Result Reconciled
reconcile s [] = ok (new_entries [])
reconcile s (e ∷ es) =
    if ltb (last_index s) e.index
    then ok (new_entries (e ∷ es))
    else term_at s e.index >>= λ term.
        if not (term == e.term)
        then if leb e.index s.commit_index
          then ok committed_conflict
          else ok (conflict e.index (e ∷ es))
        else reconcile s es

abbrev pub with_log : List LogEntry → State → State
with_log log s = record s { persistent = record (s.persistent) { log = log } }

-- `bounded_commit`, and the test that it is higher.
unfoldable pub advance_follower_commit : AppendEntriesRequest → StepResult → StepResult
advance_follower_commit request r =
    let bounded =
      min request.leader_commit (add_u64 request.previous_log_index (length request.entries)) in
    if ltb r.state.commit_index request.leader_commit && ltb r.state.commit_index bounded
    then push_rule RuleId.append_entries_advance_commit (
        with_state
          (record (r.state) {
            volatile_state = record (r.state.volatile_state) { commit_index = bounded };
          })
          r)
    else r

-- What follows the loop; `changed` is `log_changed`.
unfoldable pub accept_entries :
    NodeId → AppendEntriesRequest → List LogEntry → Bool → StepResult → StepResult
unfolding advance_follower_commit
accept_entries from request log changed r =
    let accepted = push_rule RuleId.append_entries_accept (with_state (with_log log r.state) r) in
    append_reply from request true (add_u64 request.previous_log_index (length request.entries)) (
      advance_follower_commit request
        (if changed then push_effect (persist_state (log_field ∷ [])) accepted else accepted))

unfoldable pub finish_append : NodeId → AppendEntriesRequest → Reconciled → StepResult → StepResult
unfolding accept_entries
finish_append from request committed_conflict r =
    append_reply from request false 0 (push_rule RuleId.append_entries_reject_log_mismatch r)
finish_append from request (conflict index rest) r =
    accept_entries from request (take (index - base r.state - 1) r.state.log ++ rest) true r
finish_append from request (new_entries rest) r =
    accept_entries from request (r.state.log ++ rest) (not (is_empty rest)) r

-- What the two outcomes of `matches` do.
unfoldable pub append_if : Bool → NodeId → AppendEntriesRequest → StepResult → Result StepResult
unfolding finish_append
append_if false from request r =
    ok (append_reply from request false 0 (push_rule RuleId.append_entries_reject_log_mismatch r))
append_if true from request r = do
  check_contiguous (add_u64 request.previous_log_index 1) request.entries
  end ← reconcile r.state request.entries
  ok (finish_append from request end r)

-- From the test of the previous entry on.
unfoldable pub match_and_append : NodeId → AppendEntriesRequest → StepResult → Result StepResult
unfolding append_if
match_and_append from request r = do
  matches ← matches_previous r.state request
  append_if matches from request r

-- `handle_append_entries` once the term is observed.
unfoldable pub receive_entries :
    NodeId → AppendEntriesRequest → Bool → StepResult → Result StepResult
unfolding match_and_append push_rule_if
receive_entries from request was_candidate r =
    if ltb request.term r.state.current_term
    then ok (append_reply from request false 0 (push_rule RuleId.append_entries_reject_stale r))
    else match_and_append from request (
        push_effect reset_election_timer (
          with_state (accept_leader from r.state)
            (push_rule_if was_candidate RuleId.candidate_accept_append_entries r)))

unfoldable pub handle_append_entries :
    NodeId → AppendEntriesRequest → StepResult → Result StepResult
unfolding receive_entries
handle_append_entries from request r = do
  ensure_peer r.state from
  throw_if (not (request.leader == from))
      (invalid_argument "AppendEntries sender does not match leader")
  r' ← observe_higher_term request.term r
  receive_entries from request (is_candidate r.state.role) r'
