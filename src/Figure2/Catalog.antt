-- ===== src/Figure2/Catalog.antt =====
-- `rule_catalog`, `catalog` and `rule_name` of src/figure2_spec.cpp.
use kura_metadata_store.Prelude.{ℕ, String, List, [], ◌∷◌, ◌==◌, if◌then◌else◌}
use kura_metadata_store.Prelude.Exception.{Result, ok, err, invalid_argument}
use kura_metadata_store.Figure2.Types.{RuleId, RuleDescriptor}

-- The value of the enumerator, by which the enumerators are compared.
unfoldable pub rule_number : RuleId → ℕ
rule_number RuleId.observe_higher_term = 0
rule_number RuleId.apply_committed = 1
rule_number RuleId.follower_election_timeout = 2
rule_number RuleId.request_vote_reject_stale = 3
rule_number RuleId.request_vote_grant = 4
rule_number RuleId.request_vote_deny = 5
rule_number RuleId.append_entries_reject_stale = 6
rule_number RuleId.append_entries_reject_log_mismatch = 7
rule_number RuleId.append_entries_accept = 8
rule_number RuleId.append_entries_advance_commit = 9
rule_number RuleId.candidate_start_election = 10
rule_number RuleId.candidate_restart_election = 11
rule_number RuleId.candidate_win_election = 12
rule_number RuleId.candidate_accept_append_entries = 13
rule_number RuleId.leader_initialize = 14
rule_number RuleId.leader_append_client = 15
rule_number RuleId.leader_replicate = 16
rule_number RuleId.leader_record_replication = 17
rule_number RuleId.leader_retry_replication = 18
rule_number RuleId.leader_advance_commit = 19
rule_number RuleId.leader_heartbeat = 20

unfoldable pub rule_catalog : List RuleDescriptor
rule_catalog =
    record {
      id = RuleId.observe_higher_term;
      name = "observe higher term";
      server_scope = "all servers";
      preconditions = "An incoming RPC request or response has term > currentTerm.";
      state_changes =
          "Set currentTerm, clear votedFor, become follower, and clear candidate/leader volatile state.";
      emitted_effects = "PersistRaftHardState(currentTerm, votedFor) blocks further processing.";
      persistence_ordering =
          "The new term and empty vote reach stable storage before any response or new-term activity.";
    }
    ∷ record {
      id = RuleId.apply_committed;
      name = "apply committed entry";
      server_scope = "all servers";
      preconditions = "commitIndex > lastApplied.";
      state_changes = "Increment lastApplied by one.";
      emitted_effects =
          "ApplyCommand, then CompleteClientCommand when this leader owns the pending request.";
      persistence_ordering =
          "No Raft persistence; apply is emitted strictly in index order and client completion follows apply.";
    }
    ∷ record {
      id = RuleId.follower_election_timeout;
      name = "follower election timeout";
      server_scope = "follower";
      preconditions = "Election timeout event while follower.";
      state_changes = "Become candidate and start an election.";
      emitted_effects = "The candidate-start effects are emitted.";
      persistence_ordering = "Term and self-vote persistence precede RequestVote sends.";
    }
    ∷ record {
      id = RuleId.request_vote_reject_stale;
      name = "reject stale RequestVote";
      server_scope = "RPC receiver";
      preconditions = "request.term < currentTerm.";
      state_changes = "No state change.";
      emitted_effects = "SendRequestVoteResponse(granted=false, currentTerm).";
      persistence_ordering = "No persistence is needed because persistent state is unchanged.";
    }
    ∷ record {
      id = RuleId.request_vote_grant;
      name = "grant RequestVote";
      server_scope = "RPC receiver";
      preconditions =
          "Term is current; votedFor is empty or candidate; candidate log is at least as up-to-date.";
      state_changes = "Set votedFor to candidate.";
      emitted_effects =
          "PersistRaftHardState(term, vote); completion releases timer reset and granted response.";
      persistence_ordering = "The vote reaches stable storage before the granted response.";
    }
    ∷ record {
      id = RuleId.request_vote_deny;
      name = "deny RequestVote";
      server_scope = "RPC receiver";
      preconditions = "Term is current, but prior vote or log freshness condition fails.";
      state_changes = "No state change.";
      emitted_effects = "SendRequestVoteResponse(granted=false).";
      persistence_ordering = "Any preceding higher-term persistence completes before the denial.";
    }
    ∷ record {
      id = RuleId.append_entries_reject_stale;
      name = "reject stale AppendEntries";
      server_scope = "RPC receiver";
      preconditions = "request.term < currentTerm.";
      state_changes = "No state change.";
      emitted_effects = "SendAppendEntriesResponse(succeeded=false, currentTerm).";
      persistence_ordering = "No persistence is needed because persistent state is unchanged.";
    }
    ∷ record {
      id = RuleId.append_entries_reject_log_mismatch;
      name = "reject log mismatch";
      server_scope = "RPC receiver";
      preconditions = "The log lacks prevLogIndex or its term differs from prevLogTerm.";
      state_changes = "No log or commit-index change.";
      emitted_effects = "ResetElectionTimer and failed AppendEntries response.";
      persistence_ordering = "Any preceding higher-term persistence completes before the response.";
    }
    ∷ record {
      id = RuleId.append_entries_accept;
      name = "accept AppendEntries";
      server_scope = "RPC receiver";
      preconditions = "Term is current and the previous-log entry matches.";
      state_changes =
          "Become follower; delete a conflicting suffix and append entries not already present.";
      emitted_effects = "ResetElectionTimer, optional PersistState(log), then successful response.";
      persistence_ordering = "A changed log reaches stable storage before the successful response.";
    }
    ∷ record {
      id = RuleId.append_entries_advance_commit;
      name = "advance follower commit";
      server_scope = "RPC receiver";
      preconditions = "Accepted AppendEntries has leaderCommit > commitIndex.";
      state_changes = "Set commitIndex=min(leaderCommit,last new/existing log index).";
      emitted_effects = "No additional effect; application is a separate all-server step.";
      persistence_ordering =
          "commitIndex is volatile; appended entries are persisted before success.";
    }
    ∷ record {
      id = RuleId.candidate_start_election;
      name = "start election";
      server_scope = "candidate";
      preconditions = "Follower timeout or explicit candidate election start.";
      state_changes = "Increment term, vote for self, retain only self vote, clear known leader.";
      emitted_effects =
          "PersistRaftHardState(term,self); completion releases timer reset and RequestVote sends.";
      persistence_ordering = "Term and self-vote reach stable storage before any election RPC.";
    }
    ∷ record {
      id = RuleId.candidate_restart_election;
      name = "restart election";
      server_scope = "candidate";
      preconditions = "Election timeout while candidate.";
      state_changes = "Start a new election in a higher term.";
      emitted_effects = "The candidate-start effects are emitted.";
      persistence_ordering = "New term and self-vote persistence precede RequestVote sends.";
    }
    ∷ record {
      id = RuleId.candidate_win_election;
      name = "win election";
      server_scope = "candidate";
      preconditions = "Granted votes, including self, form a majority in the current term.";
      state_changes = "Become leader and initialize leader-only state.";
      emitted_effects = "Initial empty AppendEntries to every peer.";
      persistence_ordering = "No new persistence; prior self-vote persistence already completed.";
    }
    ∷ record {
      id = RuleId.candidate_accept_append_entries;
      name = "candidate steps down";
      server_scope = "candidate";
      preconditions = "AppendEntries term is at least currentTerm.";
      state_changes = "Become follower and record the leader.";
      emitted_effects = "Continue through normal AppendEntries receiver rules.";
      persistence_ordering = "Higher term is persisted first when applicable.";
    }
    ∷ record {
      id = RuleId.leader_initialize;
      name = "initialize leader";
      server_scope = "leader";
      preconditions = "Candidate wins an election.";
      state_changes = "For each peer set nextIndex=lastLogIndex+1 and matchIndex=0.";
      emitted_effects = "Send initial empty AppendEntries heartbeats.";
      persistence_ordering = "No persistent state changes.";
    }
    ∷ record {
      id = RuleId.leader_append_client;
      name = "append client command";
      server_scope = "leader";
      preconditions = "A client command arrives at the leader.";
      state_changes = "Append a current-term entry and track its pending client response.";
      emitted_effects = "PersistState(log), then replication sends.";
      persistence_ordering =
          "The local entry reaches stable storage before it is sent to peers; response waits for apply.";
    }
    ∷ record {
      id = RuleId.leader_replicate;
      name = "replicate log";
      server_scope = "leader";
      preconditions = "A heartbeat/replication trigger occurs for a peer.";
      state_changes = "No state change.";
      emitted_effects = "Send AppendEntries from peer.nextIndex, possibly empty.";
      persistence_ordering = "All entries in the request were persisted before this send.";
    }
    ∷ record {
      id = RuleId.leader_record_replication;
      name = "record replication success";
      server_scope = "leader";
      preconditions = "Current-term successful AppendEntries response.";
      state_changes = "Raise matchIndex to matchedIndex and nextIndex to matchedIndex+1.";
      emitted_effects = "May trigger volatile commit advancement.";
      persistence_ordering = "Follower success implies its log persistence completed.";
    }
    ∷ record {
      id = RuleId.leader_retry_replication;
      name = "retry replication";
      server_scope = "leader";
      preconditions = "Current-term failed AppendEntries response.";
      state_changes = "Decrement nextIndex, never below one.";
      emitted_effects = "Send retry AppendEntries from the new nextIndex.";
      persistence_ordering = "No persistence; retry references only already-persisted entries.";
    }
    ∷ record {
      id = RuleId.leader_advance_commit;
      name = "advance leader commit";
      server_scope = "leader";
      preconditions = "A majority match N > commitIndex and log[N].term == currentTerm.";
      state_changes = "Set commitIndex to the greatest such N.";
      emitted_effects = "No immediate apply; application is a separate all-server step.";
      persistence_ordering =
          "commitIndex is volatile; the current-term restriction prevents unsafe indirect commitment.";
    }
    ∷ record {
      id = RuleId.leader_heartbeat;
      name = "leader heartbeat";
      server_scope = "leader";
      preconditions = "Heartbeat timeout event.";
      state_changes = "No state change.";
      emitted_effects = "Send AppendEntries to every peer.";
      persistence_ordering = "Requests contain only entries already persisted locally.";
    }
    ∷ []

unfoldable pub catalog : List RuleDescriptor
unfolding rule_catalog
catalog = rule_catalog

-- `std::ranges::find` by the member `id`, and the test for its end.
unfoldable pub find_name : List RuleDescriptor → RuleId → Result String
unfolding rule_number
find_name [] id = err (invalid_argument "unknown Figure 2 rule")
find_name (d ∷ ds) id = if rule_number d.id == rule_number id then ok d.name else find_name ds id

unfoldable pub rule_name : RuleId → Result String
unfolding find_name catalog
rule_name id = find_name catalog id
