-- ===== src/Figure2/Commit.antt =====
-- `advance_leader_commit` of src/figure2_spec.cpp against the rule of Figure 2.
use kura_metadata_store.Prelude.{
  ℕ, zero, suc, ◌+◌, ◌-◌, ◌≤◌, ◌<◌, ◌≡◌, ◌⊎◌, inl, inr, refl, Option, none, some, arith, true,
  false, Bool-cases, subst, if◌then◌else◌, [], ◌∷◌, ◌*◌, leb, length,
}
use kura_metadata_store.Prelude.Exception.{ok, >>=-eq-ok}
use kura_metadata_store.OrderedMap.{Map}
use native.Mathlib.Decide.{dec_le}
use kura_metadata_store.Raft.{NodeId, LogIndex, Term}
use kura_metadata_store.Figure2.Types.{State, StepResult, PeerProgress, LeaderState}
use kura_metadata_store.Figure2.Log.{last_index, term_at, majority}
use kura_metadata_store.Figure2.Leader.{
  count_replicated, commits_at, commit_scan, set_commit, leader_state, advance_leader_commit,
}

-- `k` of the peers, none chosen twice, have a match index that has reached `n`.
pub data Chosen (n : LogIndex) : Map NodeId PeerProgress → ℕ → Type 0 where
  no_peer : Chosen n [] 0
  leave_out :
      {m : Map NodeId PeerProgress} {k : ℕ} (peer : NodeId) (p : PeerProgress)
      → Chosen n m k
      → Chosen n ((peer, p) ∷ m) k
  choose :
      {m : Map NodeId PeerProgress} {k : ℕ} (peer : NodeId) (p : PeerProgress)
      → n ≤ p.match_index
      → Chosen n m k
      → Chosen n ((peer, p) ∷ m) (suc k)

-- Such peers that are, with this server, more than half of the cluster.
abbrev pub MajorityHolds : State → Map NodeId PeerProgress → LogIndex → Type 0
MajorityHolds s progress n = (k : ℕ) × Chosen n progress k × (length s.peers + 1 < 2 * (k + 1))

Chosen-count : (n : LogIndex) (m : Map NodeId PeerProgress) → Chosen n m (count_replicated n m)
unfolding count_replicated
Chosen-count n [] = no_peer
Chosen-count n ((peer, p) ∷ m) = elim (Bool-cases (leb n p.match_index)) [
  | inl h ↦ rw h (choose peer p (ground (arith, h)) (Chosen-count n m))
  | inr h ↦ rw h (leave_out peer p (Chosen-count n m))
]

Chosen-most :
    (n : LogIndex) (m : Map NodeId PeerProgress) (k : ℕ) → Chosen n m k → k ≤ count_replicated n m
unfolding count_replicated
Chosen-most n [] k no_peer = omega arith
Chosen-most n ((peer, p) ∷ m) k (leave_out _ _ c) = ground (arith, Chosen-most n m k c)
Chosen-most n ((peer, p) ∷ m) (suc k) (choose _ _ h c) = ground (arith, Chosen-most n m k c, h)

majority_holds :
    (s : State) (m : Map NodeId PeerProgress) (n : LogIndex)
    → majority s ≤ 1 + count_replicated n m
    → MajorityHolds s m n
unfolding majority
majority_holds s m n h = (count_replicated n m, Chosen-count n m, omega (arith, h))

majority_counts :
    (s : State) (m : Map NodeId PeerProgress) (n : LogIndex)
    → MajorityHolds s m n
    → majority s ≤ 1 + count_replicated n m
unfolding majority
majority_counts s m n (k, c, more) = omega (arith, more, Chosen-most n m k c)

-- An entry of the current term that a majority holds, this server counted.
abbrev pub IsCommittable : State → Map NodeId PeerProgress → LogIndex → Type 0
IsCommittable s progress n = (term_at s n ≡ ok s.current_term) × MajorityHolds s progress n

-- `n` is the greatest committable index above `old`, up to `end`.
pub record IsGreatest (s : State) (progress : Map NodeId PeerProgress) (old end n : LogIndex)
    : Type 0 where
  pub above : old < n
  pub within : n ≤ end
  pub committable : IsCommittable s progress n
  pub greatest : (j : LogIndex) → n < j → j ≤ end → ¬ IsCommittable s progress j

-- No index above `old`, up to `end`, is committable.
abbrev pub HasNone : State → Map NodeId PeerProgress → LogIndex → LogIndex → Type 0
HasNone s progress old end = (j : LogIndex) → old < j → j ≤ end → ¬ IsCommittable s progress j

abbrev pub ScanFinds :
    State → Map NodeId PeerProgress → LogIndex → LogIndex → Option LogIndex → Type 0
ScanFinds s progress old end none = HasNone s progress old end
ScanFinds s progress old end (some n) = IsGreatest s progress old end n

-- One round, at an index that fails its test.
scan_down :
    (s : State) (m : Map NodeId PeerProgress) (old k : ℕ) (found : Option LogIndex)
    → ¬ IsCommittable s m (old + suc k)
    → ScanFinds s m old (old + k) found
    → ScanFinds s m old (old + suc k) found
scan_down s m old k none fails h = λ j gt le c. elim (dec_le j (old + k)) [
  | yes p ↦ h j gt p c
  | no p ↦ fails (subst (IsCommittable s m) (omega arith) c)
]
scan_down s m old k (some n) fails h = record {
  above = h.above;
  within = omega (arith, h.within);
  committable = h.committable;
  greatest = λ j gt le c. elim (dec_le j (old + k)) [
    | yes p ↦ h.greatest j gt p c
    | no p ↦ fails (subst (IsCommittable s m) (omega arith) c)
  ];
}

scan_here :
    (s : State) (m : Map NodeId PeerProgress) (n t : ℕ)
    → term_at s n ≡ ok t
    → commits_at s m n t ≡ true
    → IsCommittable s m n
unfolding commits_at
scan_here s m n t e h = (ground arith, majority_holds s m n (ground arith))

scan_not :
    (s : State) (m : Map NodeId PeerProgress) (n t : ℕ)
    → term_at s n ≡ ok t
    → commits_at s m n t ≡ false
    → ¬ IsCommittable s m n
unfolding commits_at
scan_not s m n t e h (same, held) = ground (arith, majority_counts s m n held)

-- The round at `old + suc k`, whose entry has the term `t`.
scan_round :
    (s : State) (m : Map NodeId PeerProgress) (old k : ℕ) (found : Option LogIndex) (t : Term)
    → term_at s (old + suc k) ≡ ok t
    → (commits_at s m (old + suc k) t ≡ true) ⊎ (commits_at s m (old + suc k) t ≡ false)
    → (if commits_at s m (old + suc k) t then ok (some (old + suc k)) else commit_scan s m old k)
      ≡ ok found
    → (commit_scan s m old k ≡ ok found → ScanFinds s m old (old + k) found)
    → ScanFinds s m old (old + suc k) found
scan_round s m old k none t read (inl h) e below = absurd (ground arith)
scan_round s m old k (some n) t read (inl h) e below =
    let same : old + suc k ≡ n = ground arith in
    subst (IsGreatest s m old (old + suc k)) same (record {
      above = omega arith;
      within = omega arith;
      committable = scan_here s m (old + suc k) t read h;
      greatest = λ j gt le c. omega arith;
    })
scan_round s m old k found t read (inr h) e below =
    scan_down s m old k found (scan_not s m (old + suc k) t read h) (below (rw h at e))

scan_finds :
    (s : State) (m : Map NodeId PeerProgress) (old k : ℕ) (found : Option LogIndex)
    → commit_scan s m old k ≡ ok found
    → ScanFinds s m old (old + k) found
unfolding commit_scan
scan_finds s m old zero none e = λ j gt le c. omega arith
scan_finds s m old zero (some n) e = cc
scan_finds s m old (suc k) found e =
    let (t, read, rest) = >>=-eq-ok (term_at s (old + suc k)) _ e in
    scan_round s m old k found t read (Bool-cases (commits_at s m (old + suc k) t)) rest
      (scan_finds s m old k found)

-- What the new commit index of a leader is.
abbrev pub CommitOutcome : State → LeaderState → LogIndex → Type 0
CommitOutcome s l commit =
    ((commit ≡ s.commit_index) × HasNone s l.progress s.commit_index (last_index s))
    ⊎ IsGreatest s l.progress s.commit_index (last_index s) commit

outcome :
    (r : StepResult) (l : LeaderState) (found : Option LogIndex)
    → r.state.commit_index ≤ last_index r.state
    → ScanFinds r.state l.progress r.state.commit_index
        (r.state.commit_index + (last_index r.state - r.state.commit_index))
        found
    → CommitOutcome r.state l (set_commit found r).state.commit_index
unfolding set_commit
outcome r l none le h = inl (refl, λ j gt below. h j gt (omega arith))
outcome r l (some n) le h = inr (record {
  above = h.above;
  within = omega (arith, h.within);
  committable = h.committable;
  greatest = λ j gt below. h.greatest j gt (omega arith);
})

-- The commit index of a leader moves to the greatest index above it, within the log, that a
-- majority holds and whose entry has the current term; if there is none it stays.
pub advance_leader_commit-outcome :
    (r r' : StepResult) (l : LeaderState)
    → r.state.leader ≡ some l
    → r.state.commit_index ≤ last_index r.state
    → advance_leader_commit r ≡ ok r'
    → CommitOutcome r.state l r'.state.commit_index
unfolding advance_leader_commit leader_state
advance_leader_commit-outcome r r' l leads le e =
    let (held, reads, scans) = >>=-eq-ok (leader_state r.state) _ e in
    let (found, scanned, done) =
      >>=-eq-ok
        (commit_scan r.state held.progress r.state.commit_index
          (last_index r.state - r.state.commit_index))
        (λ found. ok (set_commit found r)) scans in
    let same : held ≡ l = ground arith in
    let state : (set_commit found r).state.commit_index ≡ r'.state.commit_index = ground arith in
    subst (λ x. CommitOutcome r.state x r'.state.commit_index) same
      (subst (CommitOutcome r.state held) state (
        outcome r held found le
          (scan_finds r.state held.progress r.state.commit_index _ found scanned)))
