-- ===== src/Figure2/Log.antt =====
-- Reads of the log: `last_index` to `ensure_peer`, and `is_log_at_least_as_up_to_date`, of
-- src/figure2_spec.cpp.
use kura_metadata_store.Prelude.{
  ℕ, ◌+◌, ◌-◌, ◌/◌, Bool, ◌||◌, ◌&&◌, not, Option, none, some, List, [], ◌∷◌, ltb, leb, ◌==◌,
  if◌then◌else◌, length, get_elem?, contains,
}
use kura_metadata_store.Prelude.Exception.{
  Result, ok, err, invalid_argument, out_of_range, throw_if,
}
use kura_metadata_store.Raft.{Term, LogIndex, NodeId, LogEntry, SnapshotMetadata}
use kura_metadata_store.Figure2.Types.{State}

-- The index of the last snapshotted entry, which the source writes out at each use.
abbrev pub snapshot_index : Option SnapshotMetadata → LogIndex
snapshot_index none = 0
snapshot_index (some m) = m.last_included_index

abbrev snapshot_term : Option SnapshotMetadata → Term
snapshot_term none = 0
snapshot_term (some m) = m.last_included_term

unfoldable pub base : State → LogIndex
base s = snapshot_index s.snapshot

-- `log.back().index`, or `d` for the empty log.
unfoldable pub back_index : LogIndex → List LogEntry → LogIndex
back_index d [] = d
back_index d (e ∷ es) = back_index e.index es

unfoldable pub back_term : Term → List LogEntry → Term
back_term d [] = d
back_term d (e ∷ es) = back_term e.term es

unfoldable pub last_index : State → LogIndex
last_index s = back_index (base s) s.log

unfoldable pub last_term : State → Term
last_term s = back_term (snapshot_term s.snapshot) s.log

-- `log.at(i)`.
unfoldable pub at : List LogEntry → ℕ → Result LogEntry
at log i = elim (get_elem? log i) [ none ↦ err (out_of_range "vector::at") | some e ↦ ok e ]

-- What follows `term_at` past its tests for index 0 and for the snapshot's own index.
unfoldable pub log_term : State → LogIndex → Result Term
log_term s index =
    if leb index (base s)
    then err (out_of_range "Raft log index was compacted")
    else elim (at s.log (index - base s - 1)) [ err e ↦ err e | ok entry ↦ ok entry.term ]

unfoldable pub snapshot_or_log_term : State → Option SnapshotMetadata → LogIndex → Result Term
snapshot_or_log_term s none index = log_term s index
snapshot_or_log_term s (some m) index =
    if index == base s then ok m.last_included_term else log_term s index

unfoldable pub term_at : State → LogIndex → Result Term
term_at s index = if index == 0 then ok 0 else snapshot_or_log_term s s.snapshot index

unfoldable pub majority : State → ℕ
majority s = (length s.peers + 1) / 2 + 1

unfoldable pub ensure_peer : State → NodeId → Result (Unit {0})
ensure_peer s peer =
    throw_if (not (contains s.peers peer)) (invalid_argument "RPC sender is not a voting peer")

unfoldable pub is_log_at_least_as_up_to_date : State → Term → LogIndex → Bool
is_log_at_least_as_up_to_date s candidate_last_term candidate_last_index =
    ltb (last_term s) candidate_last_term
    || (candidate_last_term == last_term s && leb (last_index s) candidate_last_index)
