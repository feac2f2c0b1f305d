-- ===== src/Figure2/Gate.antt =====
-- The order of persistence and messages: `persist_hard_state` and `gate_on_hard_state` of
-- src/figure2_spec.cpp, and the handlers between them.
pub mod Quiet
pub mod Handlers
pub mod Shapes
pub mod Campaigns
pub mod Dispatch
pub mod Covered
pub mod Writes
pub mod Release
use mathlib.Core.List.{append_assoc, append-nil}
use kura_metadata_store.Prelude.{
  ℕ, ◌+◌, ◌≡◌, ◌⊎◌, inl, inr, refl, sym, ap, ◌∙◌, subst, Bool, true, false, not, Bool-cases, Option,
  none, some, List, [], ◌∷◌, ◌++◌, arith, if◌then◌else◌, ltb,
}
use kura_metadata_store.Prelude.Exception.{Result, ok, err, ◌>>=◌, ◌>>◌, >>=-eq-ok}
use kura_metadata_store.Raft.{Term, NodeId, PersistRaftHardState, RequestVoteRequest}
use kura_metadata_store.Figure2.Types.{
  State, StepResult, Effect, persist_raft_hard_state, persist_state, send_request_vote,
  send_request_vote_response, send_append_entries, send_append_entries_response,
  reset_election_timer, apply_command, complete_client_command,
}
use kura_metadata_store.Figure2.Outcome.{
  persist_hard_state, split_at_persist, gate_on_hard_state, observe_higher_term,
}
use kura_metadata_store.Figure2.Leader.{
  append_request, send_append, send_appends, initialize_leader,
}
use kura_metadata_store.Figure2.Vote.{start_election, grant_vote, answer_vote}
use kura_metadata_store.Figure2.Advances.{state-send_append, state-send_appends}

-- The first hard-state write or granted vote among the effects.
unfoldable pub first_promise : List Effect → Option Effect
first_promise [] = none
first_promise (persist_raft_hard_state q ∷ es) = some (persist_raft_hard_state q)
first_promise (send_request_vote_response to a ∷ es) =
    let rest = first_promise es in
    if a.granted then some (send_request_vote_response to a) else rest
first_promise (e ∷ es) = first_promise es

-- Neither a hard-state write nor a granted vote among the effects.
abbrev pub IsQuiet : List Effect → Type 0
IsQuiet es = first_promise es ≡ none

-- No hard-state write among the effects, and a granted vote only to the candidate that the server
-- has voted for in its term.
abbrev pub Backed : State → List Effect → Type 0
Backed s [] = Unit {0}
Backed s (persist_raft_hard_state q ∷ es) = ⊥
Backed s (send_request_vote_response to a ∷ es) =
    (a.granted ≡ true → (a.term ≡ s.current_term) × (s.voted_for ≡ some to)) × Backed s es
Backed s (e ∷ es) = Backed s es

-- A write of the term and the vote of the state.
abbrev pub Records : State → PersistRaftHardState → Type 0
Records s q = (q.state.current_term ≡ s.current_term) × (q.state.voted_for ≡ s.voted_for)

-- What waits behind a write: nothing but effects that the state backs, where the write records the
-- state, or one more write, which does, and then these.
abbrev pub Waits : State → PersistRaftHardState → List Effect → Type 0
Waits s q es =
    (Backed s es × Records s q)
    ⊎ ((v : PersistRaftHardState) × (rest : List Effect) × (es ≡ persist_raft_hard_state v ∷ rest)
        × Backed s rest
        × Records s v)

pub Backed-append :
    (s : State) (es fs : List Effect) → Backed s es → Backed s fs → Backed s (es ++ fs)
Backed-append s [] fs h k = k
Backed-append s (persist_raft_hard_state q ∷ es) fs h k = h
Backed-append s (send_request_vote_response to a ∷ es) fs (g, h) k = (g, Backed-append s es fs h k)
Backed-append s (persist_state f ∷ es) fs h k = Backed-append s es fs h k
Backed-append s (send_request_vote to q ∷ es) fs h k = Backed-append s es fs h k
Backed-append s (send_append_entries to q ∷ es) fs h k = Backed-append s es fs h k
Backed-append s (send_append_entries_response to a ∷ es) fs h k = Backed-append s es fs h k
Backed-append s (reset_election_timer ∷ es) fs h k = Backed-append s es fs h k
Backed-append s (apply_command i c ∷ es) fs h k = Backed-append s es fs h k
Backed-append s (complete_client_command i ∷ es) fs h k = Backed-append s es fs h k

pub quiet-Backed : (s : State) (es : List Effect) → IsQuiet es → Backed s es
unfolding first_promise
quiet-Backed s [] h = tt
quiet-Backed s (persist_raft_hard_state q ∷ es) h = cc
quiet-Backed s (send_request_vote_response to a ∷ es) h =
    (λ granted. ground (arith, granted), quiet-Backed s es (ground arith))
quiet-Backed s (persist_state f ∷ es) h = quiet-Backed s es h
quiet-Backed s (send_request_vote to q ∷ es) h = quiet-Backed s es h
quiet-Backed s (send_append_entries to q ∷ es) h = quiet-Backed s es h
quiet-Backed s (send_append_entries_response to a ∷ es) h = quiet-Backed s es h
quiet-Backed s (reset_election_timer ∷ es) h = quiet-Backed s es h
quiet-Backed s (apply_command i c ∷ es) h = quiet-Backed s es h
quiet-Backed s (complete_client_command i ∷ es) h = quiet-Backed s es h

-- The state matters to `Backed` by its term and its vote.
pub same-Backed :
    (s t : State) (es : List Effect)
    → t.current_term ≡ s.current_term
    → t.voted_for ≡ s.voted_for
    → Backed s es
    → Backed t es
same-Backed s t [] h k b = tt
same-Backed s t (persist_raft_hard_state q ∷ es) h k b = b
same-Backed s t (send_request_vote_response to a ∷ es) h k (g, b) =
    (λ granted. let (term, vote) = g granted in (term ∙ sym h, k ∙ vote), same-Backed s t es h k b)
same-Backed s t (persist_state f ∷ es) h k b = same-Backed s t es h k b
same-Backed s t (send_request_vote to q ∷ es) h k b = same-Backed s t es h k b
same-Backed s t (send_append_entries to q ∷ es) h k b = same-Backed s t es h k b
same-Backed s t (send_append_entries_response to a ∷ es) h k b = same-Backed s t es h k b
same-Backed s t (reset_election_timer ∷ es) h k b = same-Backed s t es h k b
same-Backed s t (apply_command i c ∷ es) h k b = same-Backed s t es h k b
same-Backed s t (complete_client_command i ∷ es) h k b = same-Backed s t es h k b

IsQuiet-append : (es fs : List Effect) → IsQuiet es → IsQuiet fs → IsQuiet (es ++ fs)
unfolding first_promise
IsQuiet-append [] fs h k = k
IsQuiet-append (persist_raft_hard_state q ∷ es) fs h k = cc
IsQuiet-append (e ∷ es) fs h k = ground (arith, IsQuiet-append es fs)

-- The effects begin with a write of the hard state, and the rest waits for it.
abbrev pub StartsWithWrite : State → List Effect → Type 0
StartsWithWrite s es =
    (q : PersistRaftHardState) × (rest : List Effect) × (es ≡ persist_raft_hard_state q ∷ rest)
    × Waits s q rest

send_append-Continues :
    (p : NodeId) (c : Option ℕ) (r r' : StepResult)
    → send_append p c r ≡ ok r'
    → (more : List Effect) × (r'.effects ≡ r.effects ++ more) × IsQuiet more
unfolding send_append first_promise
send_append-Continues p c r r' e =
    let (request, built, done) = >>=-eq-ok (append_request r.state p c) _ e in
    (send_append_entries p request ∷ [], ground arith, refl)

send_appends-Continues :
    (ps : List NodeId) (r r' : StepResult)
    → send_appends ps r ≡ ok r'
    → (more : List Effect) × (r'.effects ≡ r.effects ++ more) × IsQuiet more
unfolding send_appends first_promise
send_appends-Continues [] r r' e = ([], ground (arith, append-nil r.effects), refl)
send_appends-Continues (p ∷ ps) r r' e =
    let (q, sent, rest) = >>=-eq-ok (send_append p none r) (send_appends ps) e in
    let (first, added, quiet) = send_append-Continues p none r q sent in
    let (others, added', quiet') = send_appends-Continues ps q r' rest in
    (
      first ++ others,
      added' ∙ (ap (λ es. es ++ others) added ∙ append_assoc r.effects first others),
      IsQuiet-append first others quiet quiet',
    )

observe-Continues :
    (term : Term) (r r' : StepResult)
    → observe_higher_term term r ≡ ok r'
    → (r' ≡ r)
      ⊎ ((q : PersistRaftHardState) × (r'.effects ≡ r.effects ++ persist_raft_hard_state q ∷ [])
          × Records r'.state q)
unfolding observe_higher_term persist_hard_state
observe-Continues term r r' e = elim (Bool-cases (ltb r.state.current_term term)) [
  | inl h ↦ inr (
    record {
      request_id = r.state.next_hard_state_request_id;
      state = record { current_term = term; voted_for = none };
    },
    ground arith,
    (ground arith, ground arith),
  )
  | inr h ↦ inl (ground arith)
]
