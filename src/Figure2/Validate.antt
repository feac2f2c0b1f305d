-- ===== src/Figure2/Validate.antt =====
-- `validate` and `ensure_valid` of src/figure2_spec.cpp. The violations stand in the order in which
-- the source pushes them.
use Prim.Native.String.{◌++◌ as append_text}
use kura_metadata_store.Prelude.{
  is_some, ℕ, String, Bool, true, false, ◌||◌, ◌&&◌, not, Option, none, some, List, [], ◌∷◌, ◌++◌,
  ltb, leb, ◌==◌, if◌then◌else◌, length, contains, add_u64,
}
use kura_metadata_store.Prelude.Exception.{Result, ok, err, invalid_argument}
use kura_metadata_store.OrderedMap.{Map, Set, find, nat_ord}
use kura_metadata_store.Raft.{
  Term, LogIndex, NodeId, RaftRole, candidate, leader, LogEntry, SnapshotMetadata,
}
use kura_metadata_store.Figure2.Types.{
  State, LeaderState, PeerProgress, PendingHardStatePersistence, InvariantViolation,
}
use kura_metadata_store.Figure2.Log.{base, last_index}

abbrev pub is_leader : RaftRole → Bool
is_leader leader = true
is_leader _ = false

abbrev pub is_candidate : RaftRole → Bool
is_candidate candidate = true
is_candidate _ = false

abbrev pub is_empty {ℓ} : {A : Type ℓ} → List A → Bool
is_empty [] = true
is_empty (x ∷ xs) = false

-- `if (test) violations.push_back({text});`
unfoldable pub violation_if : Bool → String → List InvariantViolation
violation_if b text = if b then record { message = text } ∷ [] else []

-- The loop over the peers; `seen` is the set that it fills.
unfoldable pub peer_violations : NodeId → List NodeId → List NodeId → List InvariantViolation
unfolding violation_if
peer_violations node seen [] = []
peer_violations node seen (p ∷ ps) =
    violation_if (p == node) "peer list contains the local node"
    ++ (violation_if (contains seen p) "peer list contains a duplicate"
        ++ peer_violations node (p ∷ seen) ps)

unfoldable pub snapshot_violations : Term → Option SnapshotMetadata → List InvariantViolation
unfolding violation_if
snapshot_violations current_term none = []
snapshot_violations current_term (some m) =
    violation_if (m.last_included_index == 0) "snapshot index must be nonzero"
    ++ violation_if (m.last_included_term == 0 || ltb current_term m.last_included_term)
        "snapshot term must be nonzero and not exceed currentTerm"

-- The loop over the log, which stops at its first violation.
unfoldable pub log_violations : Term → ℕ → List LogEntry → List InvariantViolation
log_violations current_term expected [] = []
log_violations current_term expected (e ∷ es) =
    if not (e.index == expected)
    then record { message = "log indexes must be contiguous after the snapshot" } ∷ []
    else if ltb current_term e.term
    then record { message = "log entry term exceeds currentTerm" } ∷ []
    else log_violations current_term (add_u64 expected 1) es

unfoldable pub pending_violations : Option PendingHardStatePersistence → List InvariantViolation
unfolding violation_if
pending_violations none = []
pending_violations (some p) =
    violation_if (p.request.request_id == 0) "pending hard-state request ID is zero"

unfoldable pub vote_violations : NodeId → List NodeId → Set NodeId → List InvariantViolation
unfolding violation_if
vote_violations node peers [] = []
vote_violations node peers (v ∷ vs) =
    violation_if (not (v == node) && not (contains peers v)) "candidate has a vote from a non-peer"
    ++ vote_violations node peers vs

unfoldable pub progress_violations : ℕ → Option PeerProgress → List InvariantViolation
unfolding violation_if
progress_violations end_index none = record { message = "leader progress is missing a peer" } ∷ []
progress_violations end_index (some p) =
    violation_if (ltb p.next_index 1 || ltb (add_u64 end_index 1) p.next_index)
      "peer nextIndex is outside the log"
    ++ violation_if (ltb end_index p.match_index || leb p.next_index p.match_index)
        "peer matchIndex/nextIndex is invalid"

unfoldable pub peers_progress_violations :
    ℕ → Map NodeId PeerProgress → List NodeId → List InvariantViolation
unfolding progress_violations
peers_progress_violations end_index progress [] = []
peers_progress_violations end_index progress (p ∷ ps) =
    progress_violations end_index (find p progress)
    ++ peers_progress_violations end_index progress ps

unfoldable pub client_violations : ℕ → Set LogIndex → List InvariantViolation
unfolding violation_if
client_violations end_index [] = []
client_violations end_index (c ∷ cs) =
    violation_if (c == 0 || ltb end_index c) "pending client index is outside the log"
    ++ client_violations end_index cs

unfoldable pub leader_violations : ℕ → List NodeId → Option LeaderState → List InvariantViolation
unfolding violation_if peers_progress_violations client_violations
leader_violations end_index peers none = []
leader_violations end_index peers (some l) =
    violation_if (not (length l.progress == length peers))
      "leader progress does not cover every peer"
    ++ (peers_progress_violations end_index l.progress peers
        ++ client_violations end_index l.pending_clients)

unfoldable pub index_violations : State → List InvariantViolation
unfolding violation_if
index_violations s =
    violation_if (ltb (last_index s) s.commit_index) "commitIndex exceeds the last log index"
    ++ violation_if (ltb s.commit_index s.last_applied) "lastApplied exceeds commitIndex"

unfoldable pub role_violations : State → List InvariantViolation
unfolding violation_if
role_violations s =
    violation_if (is_leader s.role && not (is_some s.leader)) "leader role lacks leader-only state"
    ++ (violation_if (not (is_leader s.role) && is_some s.leader)
          "non-leader retains leader-only state"
        ++ violation_if (not (is_candidate s.role) && not (is_empty s.votes_received))
            "non-candidate retains received votes")

unfoldable pub validate : State → List InvariantViolation
unfolding violation_if
validate s =
    peer_violations s.node [] s.peers
    ++ (snapshot_violations s.current_term s.snapshot
        ++ (violation_if (ltb s.commit_index (base s) || ltb s.last_applied (base s))
              "commit/apply index precedes the snapshot"
            ++ (log_violations s.current_term (add_u64 (base s) 1) s.log
                ++ (index_violations s
                    ++ (role_violations s
                        ++ (violation_if (s.next_hard_state_request_id == 0)
                              "next hard-state request ID is zero"
                            ++ (pending_violations s.pending_hard_state
                                ++ (vote_violations s.node s.peers s.votes_received
                                    ++ leader_violations (last_index s) s.peers s.leader))))))))

-- `when + ": " + violations.front().message`.
unfoldable pub first_violation : String → List InvariantViolation → Result (Unit {0})
first_violation when [] = ok tt
first_violation when (v ∷ vs) =
    err (invalid_argument (append_text when (append_text ": " v.message)))

unfoldable pub ensure_valid : State → String → Result (Unit {0})
unfolding first_violation
ensure_valid s when = first_violation when (validate s)
