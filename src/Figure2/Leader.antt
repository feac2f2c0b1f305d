-- ===== src/Figure2/Leader.antt =====
-- What a leader does in src/figure2_spec.cpp: `append_request`, `send_append`,
-- `initialize_leader`, `advance_leader_commit`, `handle_append_entries_response`,
-- `handle_client`, and the leader's part of `handle_timeout`.
use kura_metadata_store.Prelude.{
  ℕ, zero, suc, ◌+◌, ◌-◌, Bool, false, ◌||◌, not, Option, none, some, List, [], ◌∷◌, ◌++◌, ltb, leb,
  ◌==◌, if◌then◌else◌, drop, max, add_u64, sub_u64, u64_max,
}
use kura_metadata_store.Prelude.Exception.{
  Result, ok, err, invalid_argument, overflow_error, out_of_range, undefined_behaviour, ◌>>=◌, ◌>>◌,
}
use kura_metadata_store.OrderedMap.{Map, find, assign, emplace, insert, nat_ord}
use kura_metadata_store.Raft.{
  NodeId, LogIndex, ReadIndexContext, CommandEnvelope, leader, AppendEntriesRequest,
  AppendEntriesResponse, LogEntry, Term,
}
use kura_metadata_store.Figure2.Types.{
  State, StepResult, RuleId, PeerProgress, LeaderState, send_append_entries, persist_state,
  log_field,
}
use kura_metadata_store.Figure2.Log.{base, last_index, term_at, majority, ensure_peer}
use kura_metadata_store.Figure2.Validate.{is_leader}
use kura_metadata_store.Figure2.Outcome.{push_rule, push_effect, with_state, observe_higher_term}

-- `*state.leader`.
unfoldable pub leader_state : State → Result LeaderState
leader_state s = elim s.leader [ none ↦ err undefined_behaviour | some l ↦ ok l ]

-- `std::map::at`.
unfoldable pub progress_at : LeaderState → NodeId → Result PeerProgress
progress_at l peer = elim (find peer l.progress) [
  | none ↦ err (out_of_range "map::at")
  | some p ↦ ok p
]

-- The local `next` of `append_request`.
unfoldable pub next_to_send : State → PeerProgress → LogIndex
next_to_send s p = max p.next_index (add_u64 (base s) 1)

unfoldable pub entries_from : State → LogIndex → List LogEntry
entries_from s next = if leb next (last_index s) then drop (next - base s - 1) s.log else []

unfoldable pub append_request :
    State → NodeId → Option ReadIndexContext → Result AppendEntriesRequest
unfolding leader_state progress_at next_to_send entries_from
append_request s peer read_context = do
  l ← leader_state s
  progress ← progress_at l peer
  let next = next_to_send s progress
  previous_term ← term_at s (sub_u64 next 1)
  ok (record {
    term = s.current_term;
    leader = s.node;
    previous_log_index = sub_u64 next 1;
    previous_log_term = previous_term;
    entries = entries_from s next;
    leader_commit = s.commit_index;
    read_context = read_context;
  })

unfoldable pub send_append : NodeId → Option ReadIndexContext → StepResult → Result StepResult
unfolding append_request
send_append peer read_context r = do
  request ← append_request r.state peer read_context
  ok (push_effect (send_append_entries peer request) (push_rule RuleId.leader_replicate r))

-- `for (const auto peer : result.state.peers) send_append(result, peer);`
unfoldable pub send_appends : List NodeId → StepResult → Result StepResult
unfolding send_append
send_appends [] r = ok r
send_appends (p ∷ ps) r = do r' ← send_append p none r; send_appends ps r'

unfoldable pub initial_progress :
    LogIndex → List NodeId → Map NodeId PeerProgress → Map NodeId PeerProgress
initial_progress next [] m = m
initial_progress next (p ∷ ps) m =
    initial_progress next ps (emplace p (record { next_index = next; match_index = 0 }) m)

-- The writes of `initialize_leader` to the state.
abbrev pub become_leader : State → State
become_leader s = record s {
  role = leader;
  votes_received = [];
  known_leader = some s.node;
  leader =
      some (record {
        progress = initial_progress (last_index s + 1) s.peers [];
        pending_clients = [];
      });
}

unfoldable pub initialize_leader : StepResult → Result StepResult
unfolding initial_progress send_appends
initialize_leader r =
    if last_index r.state == u64_max
    then err (overflow_error "Raft log index exhausted")
    else send_appends r.state.peers (
        push_rule RuleId.leader_initialize
          (push_rule RuleId.candidate_win_election (with_state (become_leader r.state) r)))

-- `replicated`: this server and each peer whose match index has reached the candidate.
unfoldable pub count_replicated : LogIndex → Map NodeId PeerProgress → ℕ
count_replicated candidate [] = 0
count_replicated candidate ((peer, p) ∷ ps) =
    if leb candidate p.match_index
    then suc (count_replicated candidate ps)
    else count_replicated candidate ps

-- The tests of one round of the loop of `advance_leader_commit`.
unfoldable pub commits_at : State → Map NodeId PeerProgress → LogIndex → Term → Bool
unfolding count_replicated
commits_at s progress candidate term =
    if not (term == s.current_term)
    then false
    else leb (majority s) (1 + count_replicated candidate progress)

-- The loop: with `rounds` rounds left the candidate is `old_commit + rounds`.
unfoldable pub commit_scan :
    State → Map NodeId PeerProgress → LogIndex → ℕ → Result (Option LogIndex)
unfolding commits_at
commit_scan s progress old_commit zero = ok none
commit_scan s progress old_commit (suc rounds) =
    let rest = commit_scan s progress old_commit rounds in
    term_at s (old_commit + suc rounds) >>= λ term.
    if commits_at s progress (old_commit + suc rounds) term
    then ok (some (old_commit + suc rounds))
    else rest

unfoldable pub set_commit : Option LogIndex → StepResult → StepResult
set_commit none r = r
set_commit (some n) r = push_rule RuleId.leader_advance_commit (
    with_state
      (record (r.state) { volatile_state = record (r.state.volatile_state) { commit_index = n } })
      r)

unfoldable pub advance_leader_commit : StepResult → Result StepResult
unfolding commit_scan set_commit leader_state
advance_leader_commit r = do
  l ← leader_state r.state
  found ←
      commit_scan r.state l.progress r.state.commit_index
        (last_index r.state - r.state.commit_index)
  ok (set_commit found r)

unfoldable pub put_progress : NodeId → PeerProgress → LeaderState → State → State
put_progress peer p l s = record s {
  leader = some (record l { progress = assign peer p l.progress });
}

unfoldable pub record_success :
    NodeId → AppendEntriesResponse → LeaderState → PeerProgress → StepResult → Result StepResult
unfolding put_progress
record_success peer response l p r =
    if ltb (last_index r.state) response.matched_index
    then err (invalid_argument "matched index exceeds leader log")
    else (let matched = max p.match_index response.matched_index in
        advance_leader_commit (
          push_rule RuleId.leader_record_replication (
            with_state
              (put_progress peer (record { next_index = add_u64 matched 1; match_index = matched })
                l r.state)
              r)))

unfoldable pub retry_replication :
    NodeId → AppendEntriesResponse → LeaderState → PeerProgress → StepResult → Result StepResult
unfolding put_progress
retry_replication peer response l p r = send_append peer response.read_context (
    push_rule RuleId.leader_retry_replication (
      with_state
        (put_progress peer
          (record p { next_index = max (add_u64 p.match_index 1) (max 1 (sub_u64 p.next_index 1)) })
          l r.state)
        r))

unfoldable pub on_response :
    NodeId
    → AppendEntriesResponse
    → LeaderState
    → Option PeerProgress
    → StepResult
    → Result StepResult
unfolding record_success retry_replication
on_response peer response l none r = err (invalid_argument "AppendEntries response from non-peer")
on_response peer response l (some p) r =
    if response.succeeded
    then record_success peer response l p r
    else retry_replication peer response l p r

unfoldable pub leader_response : NodeId → AppendEntriesResponse → StepResult → Result StepResult
unfolding leader_state on_response
leader_response peer response r =
    if not (is_leader r.state.role) || not (response.term == r.state.current_term)
    then ok r
    else do l ← leader_state r.state; on_response peer response l (find peer l.progress) r

unfoldable pub handle_append_entries_response :
    NodeId → AppendEntriesResponse → StepResult → Result StepResult
unfolding leader_response
handle_append_entries_response peer response r = do
  ensure_peer r.state peer
  r' ← observe_higher_term response.term r
  leader_response peer response r'

-- The writes of `handle_client`.
abbrev pub append_client : CommandEnvelope → LeaderState → State → State
append_client command l s = record s {
  persistent = record (s.persistent) {
    log =
        s.log ++ record { term = s.current_term; index = last_index s + 1; command = command } ∷ [];
  };
  leader = some (record l { pending_clients = insert (last_index s + 1) l.pending_clients });
}

unfoldable pub handle_client : CommandEnvelope → StepResult → Result StepResult
unfolding leader_state send_appends advance_leader_commit
handle_client command r =
    if not (is_leader r.state.role)
    then ok r
    else if last_index r.state == u64_max
    then err (overflow_error "Raft log index exhausted")
    else do
      l ← leader_state r.state
      r' ← send_appends r.state.peers (
          push_effect (persist_state (log_field ∷ [])) (
            push_rule RuleId.leader_append_client (with_state (append_client command l r.state) r)))
      advance_leader_commit r'
