-- ===== src/Figure2/Advances/Entries.antt =====
-- src/figure2_spec.cpp: the receiver of AppendEntries takes nothing back.
use kura_metadata_store.Prelude.{
  ℕ, zero, suc, ◌-◌, ◌<◌, ◌≤◌, ◌≡◌, ◌∙◌, ap, inl, inr, some, subst, List, [], ◌∷◌, ◌++◌, get_elem?,
  take, ltb, leb, ◌==◌, not, Bool-cases, refl, Bool, true, false, arith, subst,
}
use kura_metadata_store.Prelude.Exception.{ok}
use kura_metadata_store.Raft.{NodeId, AppendEntriesRequest}
use kura_metadata_store.Figure2.Types.{StepResult}
use kura_metadata_store.Figure2.Outcome.{observe_higher_term}
use kura_metadata_store.Prelude.{add_u64}
use kura_metadata_store.OrderedMap.{nat_ord}
use kura_metadata_store.Figure2.Append.{
  Reconciled, committed_conflict, conflict, new_entries, finish_append, append_if, receive_entries,
  handle_append_entries, check_contiguous, reconcile, match_and_append, matches_previous,
}
use kura_metadata_store.Figure2.Advances.{
  Advances, Advances-refl, AdvancesTo, AdvancesTo-bind, observe-Advances, after_test, after_read,
  returns, either, from_write,
}
use kura_metadata_store.Prelude.Exception.{ok-injective, >>=-eq-ok}
use kura_metadata_store.Raft.{LogEntry, LogIndex, PersistentRaftState}
use kura_metadata_store.Figure2.Types.{State}
use kura_metadata_store.Figure2.Log.{base, last_index, term_at}

-- What the log holds at an index stays there in front of what is appended.
pub get_elem?-append :
    (xs ys : List LogEntry) (i : ℕ) (x : LogEntry)
    → get_elem? xs i ≡ some x
    → get_elem? (xs ++ ys) i ≡ some x
get_elem?-append [] ys i x h = cc
get_elem?-append (y ∷ xs) ys zero x h = h
get_elem?-append (y ∷ xs) ys (suc i) x h = get_elem?-append xs ys i x h

get_elem?-take :
    (n : ℕ) (xs : List LogEntry) (i : ℕ) (x : LogEntry)
    → i < n
    → get_elem? xs i ≡ some x
    → get_elem? (take n xs) i ≡ some x
get_elem?-take zero xs i x lt h = elim lt [ ]
get_elem?-take (suc n) [] i x lt h = cc
get_elem?-take (suc n) (y ∷ xs) zero x lt h = h
get_elem?-take (suc n) (y ∷ xs) (suc i) x lt h = get_elem?-take n xs i x (omega arith) h

-- A conflict that is cut off stands above the commit index.
abbrev IsAbove : LogIndex → Reconciled → Type 0
IsAbove commit committed_conflict = Unit {0}
IsAbove commit (conflict i rest) = commit < i
IsAbove commit (new_entries rest) = Unit {0}

reconcile-IsAbove :
    (s : State) (es : List LogEntry) (end : Reconciled)
    → reconcile s es ≡ ok end
    → IsAbove s.commit_index end
unfolding reconcile
reconcile-IsAbove s [] end h = subst (IsAbove s.commit_index) (ok-injective h) tt
reconcile-IsAbove s (e ∷ es) end h = elim (Bool-cases (ltb (last_index s) e.index)) [
  | inl past ↦ subst (IsAbove s.commit_index) (ok-injective (rw past at h)) tt
  | inr inside ↦
      let (t, reads, rest) = >>=-eq-ok (term_at s e.index) _ (rw inside at h) in
      elim (Bool-cases (not (t == e.term))) [
        | inl differs ↦ elim (Bool-cases (leb e.index s.commit_index)) [
          | inl old ↦ subst (IsAbove s.commit_index) (ok-injective (rw (differs, old) at rest)) tt
          | inr new ↦
              subst (IsAbove s.commit_index) (ok-injective (rw (differs, new) at rest))
                (ground arith)
        ]
        | inr same ↦ reconcile-IsAbove s es end (rw same at rest)
      ]
]

-- The log that replaces the old one keeps the committed entries.
with_log-Advances :
    (s t : State)
    → t.persistent ≡ record (s.persistent) { log = t.log }
    → s.commit_index ≤ t.commit_index
    → s.last_applied ≡ t.last_applied
    → t.node ≡ s.node
    → t.peers ≡ s.peers
    → ((i : ℕ) (x : LogEntry)
        → i < s.commit_index - base s
        → get_elem? s.log i ≡ some x
        → get_elem? t.log i ≡ some x)
    → Advances s t
with_log-Advances s t p c a n q k = record {
  term = omega (arith, ap (λ (x : PersistentRaftState). x.current_term) p);
  vote = λ v h e. ap (λ (x : PersistentRaftState). x.voted_for) p ∙ h;
  commit = c;
  applied = omega arith;
  snapshot = ap (λ (x : PersistentRaftState). x.snapshot) p;
  node = n;
  peers = q;
  committed = k;
}

finish_append-Advances :
    (from : NodeId) (q : AppendEntriesRequest) (end : Reconciled) (r : StepResult)
    → IsAbove r.state.commit_index end
    → Advances r.state (finish_append from q end r).state
unfolding finish_append
finish_append-Advances from q committed_conflict r above = Advances-refl r.state
finish_append-Advances from q (conflict i rest) r above =
    with_log-Advances r.state _ (ground arith) (ground arith) (ground arith) (ground arith)
      (ground arith)
      λ j x lt h. ground (
        arith,
        get_elem?-append (take (i - base r.state - 1) r.state.log) rest j x
            (get_elem?-take (i - base r.state - 1) r.state.log j x (omega arith) h),
      )
finish_append-Advances from q (new_entries rest) r above =
    with_log-Advances r.state _ (ground arith) (ground arith) (ground arith) (ground arith)
      (ground arith) λ j x lt h. ground (arith, get_elem?-append r.state.log rest j x h)

append_if-Advances :
    (b : Bool) (from : NodeId) (q : AppendEntriesRequest) (r : StepResult)
    → AdvancesTo r.state (append_if b from q r)
unfolding append_if
append_if-Advances false from q r = returns _ (Advances-refl r.state)
append_if-Advances true from q r =
    after_test (check_contiguous (add_u64 q.previous_log_index 1) q.entries) _ λ t e.
      let (end, ends, done) =
        >>=-eq-ok (reconcile r.state q.entries) (λ x. ok (finish_append from q x r)) e in
      returns (finish_append from q end r)
        (finish_append-Advances from q end r (reconcile-IsAbove r.state q.entries end ends)) t done

match_and_append-Advances :
    (from : NodeId) (q : AppendEntriesRequest) (r : StepResult)
    → AdvancesTo r.state (match_and_append from q r)
unfolding match_and_append
match_and_append-Advances from q r =
    after_read (matches_previous r.state q) (λ b. append_if b from q r)
      (λ b. append_if-Advances b from q r)

receive-Advances :
    (from : NodeId) (q : AppendEntriesRequest) (b : Bool) (r : StepResult)
    → AdvancesTo r.state (receive_entries from q b r)
unfolding receive_entries
receive-Advances from q b r = either _ (returns _ (Advances-refl r.state)) (
    from_write
      (record {
        term = omega arith;
        vote = λ c h e. h;
        commit = omega arith;
        applied = omega arith;
        snapshot = refl;
        node = refl;
        peers = refl;
        committed = λ i x lt h. h;
      })
      (match_and_append-Advances from q _))

pub append_entries-Advances :
    (from : NodeId) (q : AppendEntriesRequest) (r : StepResult)
    → AdvancesTo r.state (handle_append_entries from q r)
unfolding handle_append_entries
append_entries-Advances from q r = after_test _ _ (
    after_test _ _ (
      AdvancesTo-bind (observe_higher_term q.term r) _ (observe-Advances q.term r)
        (receive-Advances from q _)))
