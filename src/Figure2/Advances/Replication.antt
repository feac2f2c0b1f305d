-- ===== src/Figure2/Advances/Replication.antt =====
-- src/figure2_spec.cpp: the leader's handlers take nothing back.
use kura_metadata_store.Figure2.Advances.Entries.{get_elem?-append}
use kura_metadata_store.Figure2.Leader.{send_append}
use kura_metadata_store.Figure2.Advances.{Advances, Advances-same}
use kura_metadata_store.Prelude.{ℕ, List, sym, subst, ◌≡◌, refl, Option, none, some, arith}
use kura_metadata_store.Prelude.Exception.{ok}
use kura_metadata_store.Raft.{NodeId, LogIndex, CommandEnvelope, AppendEntriesResponse}
use kura_metadata_store.Figure2.Types.{State, StepResult}
use kura_metadata_store.Figure2.Outcome.{observe_higher_term}
use kura_metadata_store.Figure2.Leader.{
  send_appends, commit_scan, advance_leader_commit, on_response, leader_response,
  handle_append_entries_response, handle_client,
}
use kura_metadata_store.Prelude.{zero, suc, ◌<◌}
use kura_metadata_store.OrderedMap.{Map, find, nat_ord}
use kura_metadata_store.Figure2.Types.{PeerProgress, LeaderState}
use kura_metadata_store.Figure2.Leader.{leader_state, append_client}
use kura_metadata_store.Figure2.Advances.{
  Advances-refl, AdvancesTo, AdvancesTo-bind, observe-Advances, state-send_append,
  state-send_appends, after_test, after_read, throws, returns, either, from_write,
}

commit_scan-gt :
    (s : State) (m : Map NodeId PeerProgress) (old n k : LogIndex)
    → commit_scan s m old k ≡ ok (some n)
    → old < n
unfolding commit_scan
commit_scan-gt s m old n zero e = cc
commit_scan-gt s m old n (suc k) e = ground (arith, commit_scan-gt s m old n k)

advance_commit-Advances : (r : StepResult) → AdvancesTo r.state (advance_leader_commit r)
unfolding advance_leader_commit
advance_commit-Advances r r' e = grind (arith, commit_scan-gt)

sent-Advances :
    (p : NodeId) (c : Option ℕ) (r : StepResult) → AdvancesTo r.state (send_append p c r)
sent-Advances p c r t e =
    subst (Advances r.state) (sym (state-send_append p c r t e)) (Advances-refl r.state)

sends-Advances : (ps : List NodeId) (r : StepResult) → AdvancesTo r.state (send_appends ps r)
sends-Advances ps r t e =
    subst (Advances r.state) (sym (state-send_appends ps r t e)) (Advances-refl r.state)

on_response-Advances :
    (from : NodeId) (a : AppendEntriesResponse) (l : LeaderState) (p : Option PeerProgress)
    (r : StepResult)
    → AdvancesTo r.state (on_response from a l p r)
unfolding on_response
on_response-Advances from a l none r = throws _
on_response-Advances from a l (some p) r =
    either _
      (either _ (throws _)
        (from_write (Advances-same r.state _ refl refl refl refl) (advance_commit-Advances _)))
      (from_write (Advances-same r.state _ refl refl refl refl)
        (sent-Advances from a.read_context _))

leader_response-Advances :
    (from : NodeId) (a : AppendEntriesResponse) (r : StepResult)
    → AdvancesTo r.state (leader_response from a r)
unfolding leader_response
leader_response-Advances from a r = either _ (returns _ (Advances-refl r.state)) (
    after_read (leader_state r.state) (λ l. on_response from a l (find from l.progress) r)
      (λ l. on_response-Advances from a l _ r))

pub append_response-Advances :
    (from : NodeId) (a : AppendEntriesResponse) (r : StepResult)
    → AdvancesTo r.state (handle_append_entries_response from a r)
unfolding handle_append_entries_response
append_response-Advances from a r = after_test _ _ (
    AdvancesTo-bind (observe_higher_term a.term r) _ (observe-Advances a.term r)
      (leader_response-Advances from a))

pub client-Advances :
    (c : CommandEnvelope) (r : StepResult) → AdvancesTo r.state (handle_client c r)
unfolding handle_client
client-Advances c r = either _ (returns _ (Advances-refl r.state)) (
    either _ (throws _) (
      after_read (leader_state r.state) _ λ l.
        from_write {t = append_client c l r.state}
          (record {
            term = omega arith;
            vote = λ c h e. h;
            commit = omega arith;
            applied = omega arith;
            snapshot = refl;
            node = refl;
            peers = refl;
            committed = λ i x lt h. get_elem?-append r.state.log _ i x h;
          })
          (AdvancesTo-bind (send_appends r.state.peers _) advance_leader_commit
            (sends-Advances r.state.peers _) advance_commit-Advances)))
