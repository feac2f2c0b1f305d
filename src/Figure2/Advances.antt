-- ===== src/Figure2/Advances.antt =====
-- src/figure2_spec.cpp: what no handler of the Figure 2 core takes back, and the rules by which the children show it.
pub mod Elections
pub mod Entries
pub mod Replication
pub mod Steps
use kura_metadata_store.Prelude.{
  get_elem?, ap, ◌-◌, ◌<◌, ℕ, ◌≤◌, ◌≡◌, refl, Bool, true, false, Option, none, some, List, [], ◌∷◌,
  arith, ◌∙◌, subst,
}
use kura_metadata_store.Prelude.Exception.{Exception, Result, ok, err, ◌>>=◌, Ensures, >>=-eq-ok}
use kura_metadata_store.Raft.{
  LogEntry, PersistentRaftState, RaftRole, leader, follower, candidate, learner, Term, NodeId,
  LogIndex, CommandEnvelope, AppendEntriesResponse, AppendEntriesRequest, RequestVoteRequest,
  RequestVoteResponse,
}
use kura_metadata_store.Figure2.Types.{VolatileState, State, StepResult}
use kura_metadata_store.Figure2.Outcome.{
  persist_hard_state, observe_higher_term, gate_on_hard_state,
}
use kura_metadata_store.Figure2.Leader.{
  send_append, send_appends, initialize_leader, commit_scan, advance_leader_commit, on_response,
  leader_response, handle_append_entries_response, handle_client,
}
use kura_metadata_store.Figure2.Vote.{
  start_election, answer_vote, handle_request_vote, count_vote, handle_request_vote_response,
  timeout_in, handle_timeout, win_if_alone,
}
use kura_metadata_store.Prelude.{add_u64, zero, suc, if◌then◌else◌, ◌<◌}
use kura_metadata_store.OrderedMap.{Map, find, nat_ord}
use kura_metadata_store.Figure2.Step.{
  admit_event, begin, handle_apply, complete_persistence, dispatch, step,
}
use kura_metadata_store.Figure2.Validate.{ensure_valid}
use kura_metadata_store.Raft.{RaftHardStatePersisted}
use kura_metadata_store.Figure2.Types.{
  PeerProgress, LeaderState, PendingHardStatePersistence, Event, election_timeout,
  heartbeat_timeout, observe_term, receive_request_vote, receive_request_vote_response,
  receive_append_entries, receive_append_entries_response, receive_client_command,
  raft_hard_state_persisted,
}
use kura_metadata_store.Figure2.Leader.{leader_state, append_client}
use kura_metadata_store.Prelude.Exception.{◌>>◌}
use kura_metadata_store.Figure2.Append.{
  Reconciled, committed_conflict, conflict, new_entries, finish_append, append_if, receive_entries,
  handle_append_entries, check_contiguous, reconcile, match_and_append, matches_previous,
}
use kura_metadata_store.Figure2.Log.{base, snapshot_index}

pub record Advances (s t : State) : Type 0 where
  pub term : s.current_term ≤ t.current_term
  pub vote :
      (c : NodeId) → s.voted_for ≡ some c → t.current_term ≡ s.current_term → t.voted_for ≡ some c
  pub commit : s.commit_index ≤ t.commit_index
  pub applied : s.last_applied ≤ t.last_applied
  pub snapshot : t.snapshot ≡ s.snapshot
  pub node : t.node ≡ s.node
  pub peers : t.peers ≡ s.peers
  pub committed :
      (i : ℕ) (x : LogEntry)
      → i < s.commit_index - base s
      → get_elem? s.log i ≡ some x
      → get_elem? t.log i ≡ some x

pub Advances-refl : (s : State) → Advances s s
Advances-refl s = record {
  term = omega arith;
  vote = λ c h e. h;
  commit = omega arith;
  applied = omega arith;
  snapshot = refl;
  node = refl;
  peers = refl;
  committed = λ i x lt h. h;
}

pub Advances-trans : {s t u : State} → Advances s t → Advances t u → Advances s u
unfolding base
Advances-trans {s} {t} {u} h k = record {
  term = omega (arith, h.term, k.term);
  vote = λ c v e.
      k.vote c (h.vote c v (omega (arith, h.term, k.term))) (omega (arith, h.term, k.term));
  commit = omega (arith, h.commit, k.commit);
  applied = omega (arith, h.applied, k.applied);
  snapshot = k.snapshot ∙ h.snapshot;
  node = k.node ∙ h.node;
  peers = k.peers ∙ h.peers;
  committed = λ i x lt there.
      k.committed i x (omega (arith, h.commit, ap snapshot_index h.snapshot))
        (h.committed i x lt there);
}

-- A result that succeeds only where the state advances.
abbrev pub AdvancesTo : State → Result StepResult → Type 0
AdvancesTo s = Ensures (λ r. Advances s r.state)

pub AdvancesTo-bind :
    {s : State} (m : Result StepResult) (f : StepResult → Result StepResult)
    → AdvancesTo s m
    → ((r : StepResult) → AdvancesTo r.state (f r))
    → AdvancesTo s (m >>= f)
AdvancesTo-bind (ok a) f hm hf = λ r e. Advances-trans (hm a refl) (hf a r e)
AdvancesTo-bind (err x) f hm hf = λ r e. cc

pub observe-Advances :
    (term : Term) (r : StepResult) → AdvancesTo r.state (observe_higher_term term r)
unfolding observe_higher_term
observe-Advances term r r' e = ground arith

pub state-send_append :
    (p : NodeId) (c : Option ℕ) (r r' : StepResult) → send_append p c r ≡ ok r' → r'.state ≡ r.state
unfolding send_append
state-send_append p c r r' e = ground arith

pub state-send_appends :
    (ps : List NodeId) (r r' : StepResult) → send_appends ps r ≡ ok r' → r'.state ≡ r.state
unfolding send_appends
state-send_appends [] r r' e = ground arith
state-send_appends (p ∷ ps) r r' e =
    let (q, sent, rest) = >>=-eq-ok (send_append p none r) (send_appends ps) e in
    state-send_appends ps q r' rest ∙ state-send_append p none r q sent

-- A test that may throw, and what follows it.
pub after_test :
    {s : State} (m : Result (Unit {0})) (k : Result StepResult)
    → AdvancesTo s k
    → AdvancesTo s (m >> k)
after_test (ok u) k h = h
after_test (err x) k h = λ r e. cc

-- The same for a value that does not write to the state.
pub after_read {ℓ} :
    {A : Type ℓ} {s : State} (m : Result A) (k : A → Result StepResult)
    → ((a : A) → AdvancesTo s (k a))
    → AdvancesTo s (m >>= k)
after_read (ok a) k h = h a
after_read (err x) k h = λ r e. cc

pub throws : {s : State} (x : Exception) → AdvancesTo s (err x)
throws x r e = cc

pub returns : {s : State} (t : StepResult) → Advances s t.state → AdvancesTo s (ok t)
returns {s} t h r e =
    subst {A = StepResult} (λ x. Advances s x.state) {x = t} {y = r} (ground arith) h

pub either :
    {s : State} (b : Bool) {m n : Result StepResult}
    → AdvancesTo s m
    → AdvancesTo s n
    → AdvancesTo s (if b then m else n)
either true hm hn = hm
either false hm hn = hn

pub from_write :
    {s t : State} {m : Result StepResult} → Advances s t → AdvancesTo t m → AdvancesTo s m
from_write h k r e = Advances-trans h (k r e)

-- A write to fields that the relation does not name.
pub Advances-same :
    (s t : State)
    → t.persistent ≡ s.persistent
    → t.volatile_state ≡ s.volatile_state
    → t.node ≡ s.node
    → t.peers ≡ s.peers
    → Advances s t
Advances-same s t p v n q = record {
  term = omega (arith, ap (λ (x : PersistentRaftState). x.current_term) p);
  vote = λ c h e. ap (λ (x : PersistentRaftState). x.voted_for) p ∙ h;
  commit = omega (arith, ap (λ (x : VolatileState). x.commit_index) v);
  applied = omega (arith, ap (λ (x : VolatileState). x.last_applied) v);
  snapshot = ap (λ (x : PersistentRaftState). x.snapshot) p;
  node = n;
  peers = q;
  committed = λ i x lt h. ap (λ (y : PersistentRaftState). get_elem? y.log i) p ∙ h;
}
