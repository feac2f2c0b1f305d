-- ===== src/Figure2/Gate/Covered.antt =====
-- What a step of src/figure2_spec.cpp may let out, and the gate on it.
use kura_metadata_store.Prelude.{
  none, Option, ◌≡◌, ◌⊎◌, inl, inr, refl, subst, false, some, List, [], ◌∷◌, arith,
}
use kura_metadata_store.Prelude.Exception.{ok-injective, Result, ok}
use kura_metadata_store.Raft.{PersistRaftHardState}
use kura_metadata_store.Figure2.Types.{
  State, StepResult, Effect, Event, election_timeout, heartbeat_timeout, observe_term,
  receive_request_vote, receive_request_vote_response, receive_append_entries,
  receive_append_entries_response, receive_client_command, raft_hard_state_persisted,
  persist_raft_hard_state, persist_state, send_request_vote, send_request_vote_response,
  send_append_entries, send_append_entries_response, reset_election_timer, apply_command,
  complete_client_command, PendingHardStatePersistence,
}
use kura_metadata_store.Figure2.Outcome.{split_at_persist, gate_on_hard_state}
use kura_metadata_store.Figure2.Step.{is_completion}
use kura_metadata_store.Figure2.Gate.{Backed, Waits}

pub Backed-split : (s : State) (es : List Effect) → Backed s es → split_at_persist es ≡ none
unfolding split_at_persist
Backed-split s [] h = refl
Backed-split s (persist_raft_hard_state q ∷ es) h = absurd h
Backed-split s (send_request_vote_response to a ∷ es) (g, h) = rw (Backed-split s es h) refl
Backed-split s (persist_state f ∷ es) h = rw (Backed-split s es h) refl
Backed-split s (send_request_vote to q ∷ es) h = rw (Backed-split s es h) refl
Backed-split s (send_append_entries to q ∷ es) h = rw (Backed-split s es h) refl
Backed-split s (send_append_entries_response to a ∷ es) h = rw (Backed-split s es h) refl
Backed-split s (reset_election_timer ∷ es) h = rw (Backed-split s es h) refl
Backed-split s (apply_command i c ∷ es) h = rw (Backed-split s es h) refl
Backed-split s (complete_client_command i ∷ es) h = rw (Backed-split s es h) refl

-- What is held back while a write is pending waits for it.
abbrev pub CoveredBy : State → Option PendingHardStatePersistence → Type 0
CoveredBy s none = Unit {0}
CoveredBy s (some p) = Waits s p.request p.deferred_effects

abbrev pub IsCovered : State → Type 0
IsCovered s = CoveredBy s s.pending_hard_state

-- The term and the vote after an event are those that are written: the completed ones, or those
-- before an event of another kind.
abbrev pub Written : State → Event → State → Type 0
Written s (raft_hard_state_persisted d) t =
    (t.current_term ≡ d.state.current_term) × (t.voted_for ≡ d.state.voted_for)
Written s e t = (t.current_term ≡ s.current_term) × (t.voted_for ≡ s.voted_for)

-- What a step lets out: effects that the state backs, while its term and vote are the written ones
-- and no write is pending; or nothing but one write, with all that follows it held back.
abbrev pub WritesFirst : State → Event → StepResult → Type 0
WritesFirst s e r =
    (Backed r.state r.effects × (r.state.pending_hard_state ≡ none) × Written s e r.state)
    ⊎ ((q : PersistRaftHardState) × (rest : List Effect) × (r.effects
          ≡ persist_raft_hard_state q ∷ [])
        × (r.state.pending_hard_state ≡ some (record { request = q; deferred_effects = rest }))
        × Waits r.state q rest)

pub WritesFirst-IsCovered :
    (s : State) (e : Event) (r : StepResult) → WritesFirst s e r → IsCovered r.state
WritesFirst-IsCovered s e r (inl (backed, idle, written)) = rw idle tt
WritesFirst-IsCovered s e r (inr (q, rest, out, pending, waits)) = rw pending waits

pub written_same :
    (s : State) (e : Event) (t : State)
    → is_completion e ≡ false
    → t.current_term ≡ s.current_term
    → t.voted_for ≡ s.voted_for
    → Written s e t
written_same s (raft_hard_state_persisted d) t c h k = cc
written_same s election_timeout t c h k = (h, k)
written_same s heartbeat_timeout t c h k = (h, k)
written_same s Event.apply_committed t c h k = (h, k)
written_same s (observe_term n) t c h k = (h, k)
written_same s (receive_request_vote from q) t c h k = (h, k)
written_same s (receive_request_vote_response from a) t c h k = (h, k)
written_same s (receive_append_entries from q) t c h k = (h, k)
written_same s (receive_append_entries_response from a) t c h k = (h, k)
written_same s (receive_client_command x) t c h k = (h, k)

-- The gate on effects that begin with a write.
pub gate-holds :
    (s : State) (e : Event) (h r : StepResult) (q : PersistRaftHardState) (rest : List Effect)
    → h.effects ≡ persist_raft_hard_state q ∷ rest
    → Waits h.state q rest
    → gate_on_hard_state h ≡ ok r
    → WritesFirst s e r
unfolding gate_on_hard_state split_at_persist
gate-holds s e h r q rest starts waits g =
    let held : ◌≡◌ {A = Result StepResult}
        (ok (record h {
          state = record (h.state) {
            pending_hard_state = some (record { request = q; deferred_effects = rest });
          };
          effects = persist_raft_hard_state q ∷ [];
        }))
        (ok r) =
      ground arith in
    subst (WritesFirst s e) (ok-injective held) (inr (q, rest, refl, refl, waits))

pub gate-passes :
    (h r : StepResult) → Backed h.state h.effects → gate_on_hard_state h ≡ ok r → h ≡ r
unfolding gate_on_hard_state
gate-passes h r b g = ok-injective (rw (Backed-split h.state h.effects b) at g)
