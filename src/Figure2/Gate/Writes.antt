-- ===== src/Figure2/Gate/Writes.antt =====
-- `step` of src/figure2_spec.cpp lets out no message of a new term or vote before the hard state
-- is written.
use kura_metadata_store.Prelude.{
  not, none, Option, ◌∙◌, sym, ap, Bool-cases, is_some, ◌&&◌, ◌≡◌, inl, inr, refl, subst, Bool,
  true, false, some, arith,
}
use kura_metadata_store.Prelude.Exception.{throw_if, logic_error, ok-injective, ok, >>=-eq-ok}
use kura_metadata_store.Raft.{RaftHardStatePersisted}
use kura_metadata_store.Figure2.Types.{
  State, StepResult, Event, election_timeout, heartbeat_timeout, observe_term, receive_request_vote,
  receive_request_vote_response, receive_append_entries, receive_append_entries_response,
  receive_client_command, raft_hard_state_persisted, PendingHardStatePersistence,
}
use kura_metadata_store.Figure2.Outcome.{gate_on_hard_state}
use kura_metadata_store.Figure2.Validate.{ensure_valid}
use kura_metadata_store.Figure2.Step.{
  admit_event, dispatch, begin, is_completion, step, complete_persistence,
}
use kura_metadata_store.Figure2.Gate.{Backed, Waits, same-Backed}
use kura_metadata_store.Figure2.Gate.Shapes.{Shape}
use kura_metadata_store.Figure2.Gate.Dispatch.{dispatch-Shape}
use kura_metadata_store.Figure2.Gate.Covered.{
  CoveredBy, IsCovered, WritesFirst, WritesFirst-IsCovered, written_same, gate-holds, gate-passes,
}

gate-WritesFirst :
    (s : State) (e : Event) (h r : StepResult)
    → is_completion e ≡ false
    → s.pending_hard_state ≡ none
    → Shape s h
    → gate_on_hard_state h ≡ ok r
    → WritesFirst s e r
gate-WritesFirst s e h r c idle (inl (backed, term, vote, pending)) g =
    subst (WritesFirst s e) (gate-passes h r backed g)
      (inl (backed, pending ∙ idle, written_same s e h.state c term vote))
gate-WritesFirst s e h r c idle (inr (q, rest, starts, waits)) g =
    gate-holds s e h r q rest starts waits g

pub completion_matches :
    (p : PendingHardStatePersistence) (d : RaftHardStatePersisted) (r t : StepResult)
    → complete_persistence d (some p) r ≡ ok t
    → (d.request_id ≡ p.request.request_id)
      × (d.state.current_term ≡ p.request.state.current_term)
      × (d.state.voted_for ≡ p.request.state.voted_for)
      × (t.effects ≡ p.deferred_effects)
      × (t.state ≡ record (r.state) { pending_hard_state = none })
unfolding complete_persistence
completion_matches p d r t h = ground arith

-- A completion.
completion-WritesFirst :
    (s : State) (p : PendingHardStatePersistence) (d : RaftHardStatePersisted) (h r : StepResult)
    → Waits s p.request p.deferred_effects
    → complete_persistence d (some p) (begin s) ≡ ok h
    → gate_on_hard_state h ≡ ok r
    → WritesFirst s (raft_hard_state_persisted d) r
completion-WritesFirst s p d h r (inl (backed, (term, vote))) e g =
    let (id, same_term, same_vote, effects, state) = completion_matches p d (begin s) h e in
    let out : Backed h.state h.effects = subst (Backed h.state) (sym effects) (
      same-Backed s h.state p.deferred_effects (ap (λ (x : State). x.current_term) state)
        (ap (λ (x : State). x.voted_for) state) backed) in
    subst (WritesFirst s (raft_hard_state_persisted d)) (gate-passes h r out g) (
      inl (
        out,
        ap (λ (x : State). x.pending_hard_state) state,
        (
          ap (λ (x : State). x.current_term) state ∙ sym (same_term ∙ term),
          ap (λ (x : State). x.voted_for) state ∙ sym (same_vote ∙ vote),
        ),
      ))
completion-WritesFirst s p d h r (inr (v, rest, starts, backed, (term, vote))) e g =
    let (id, same_term, same_vote, effects, state) = completion_matches p d (begin s) h e in
    let term_kept : h.state.current_term ≡ s.current_term =
      ap (λ (x : State). x.current_term) state in
    let vote_kept : h.state.voted_for ≡ s.voted_for = ap (λ (x : State). x.voted_for) state in
    gate-holds s (raft_hard_state_persisted d) h r v rest (effects ∙ starts)
      (inl (
        same-Backed s h.state rest term_kept vote_kept backed,
        (term ∙ sym term_kept, vote ∙ sym vote_kept),
      ))
      g

no_pending :
    (o : Option PendingHardStatePersistence) (completes : Bool) (u : Unit {0})
    → completes ≡ false
    → throw_if
        (is_some o && not completes)
        (logic_error "Raft core input is blocked on hard-state persistence")
      ≡ ok u
    → o ≡ none
no_pending none completes u c h = refl
no_pending (some p) true u c h = cc
no_pending (some p) false u c h = cc

-- What `admit_event` tells of the pending write.
admitted_idle :
    (s : State) (e : Event) (u : Unit {0})
    → is_completion e ≡ false
    → admit_event s e ≡ ok u
    → s.pending_hard_state ≡ none
unfolding admit_event
admitted_idle s e u c h =
    let (_, _, h1) = >>=-eq-ok (ensure_valid s "invalid pre-state") _ h in
    let (_, open_input, h2) =
      >>=-eq-ok
        (throw_if (is_some s.pending_hard_state && not (is_completion e))
          (logic_error "Raft core input is blocked on hard-state persistence"))
        _ h1 in
    no_pending s.pending_hard_state (is_completion e) _ c open_input

completed-WritesFirst :
    (s : State) (d : RaftHardStatePersisted) (h r : StepResult)
    (pending : Option PendingHardStatePersistence)
    → CoveredBy s pending
    → complete_persistence d pending (begin s) ≡ ok h
    → gate_on_hard_state h ≡ ok r
    → WritesFirst s (raft_hard_state_persisted d) r
unfolding complete_persistence
completed-WritesFirst s d h r none covered e g = cc
completed-WritesFirst s d h r (some p) covered e g = completion-WritesFirst s p d h r covered e g

completion_case :
    (s : State) (e : Event) (h r : StepResult)
    → IsCovered s
    → is_completion e ≡ true
    → dispatch e (begin s) ≡ ok h
    → gate_on_hard_state h ≡ ok r
    → WritesFirst s e r
unfolding dispatch
completion_case s (raft_hard_state_persisted d) h r covered c e g =
    completed-WritesFirst s d h r s.pending_hard_state covered e g
completion_case s election_timeout h r covered c e g = cc
completion_case s heartbeat_timeout h r covered c e g = cc
completion_case s Event.apply_committed h r covered c e g = cc
completion_case s (observe_term n) h r covered c e g = cc
completion_case s (receive_request_vote from q) h r covered c e g = cc
completion_case s (receive_request_vote_response from a) h r covered c e g = cc
completion_case s (receive_append_entries from q) h r covered c e g = cc
completion_case s (receive_append_entries_response from a) h r covered c e g = cc
completion_case s (receive_client_command x) h r covered c e g = cc

handled-WritesFirst :
    (s : State) (e : Event) (h r : StepResult) (u : Unit {0})
    → IsCovered s
    → admit_event s e ≡ ok u
    → dispatch e (begin s) ≡ ok h
    → gate_on_hard_state h ≡ ok r
    → WritesFirst s e r
handled-WritesFirst s e h r u covered admits dispatches g = elim (Bool-cases (is_completion e)) [
  | inl completes ↦ completion_case s e h r covered completes dispatches g
  | inr other ↦
      gate-WritesFirst s e h r other (admitted_idle s e u other admits)
        (dispatch-Shape s e h other dispatches) g
]

-- Every step, from a state that covers what it holds back: it lets out effects while its term and
-- vote are those of the last completed write and no write is pending, none of them a write, and a
-- granted vote only to the candidate of its own vote in its own term; or it lets out nothing but
-- one write, holds all else back, and the last write that it holds has its term and vote. A
-- state without a pending write covers, and so does the state after the step.
pub step-WritesFirst :
    (s : State) (e : Event) (r : StepResult)
    → IsCovered s
    → step s e ≡ ok r
    → WritesFirst s e r × IsCovered r.state
unfolding step
step-WritesFirst s e r covered h =
    let (admitted, admits, h1) = >>=-eq-ok (admit_event s e) _ h in
    let (handled, dispatched, h2) = >>=-eq-ok (dispatch e (begin s)) _ h1 in
    let (gated, gates, h3) = >>=-eq-ok (gate_on_hard_state handled) _ h2 in
    let (valid, _, h4) = >>=-eq-ok (ensure_valid gated.state "invalid post-state") _ h3 in
    let first : WritesFirst s e r =
      subst (WritesFirst s e) (ok-injective h4)
        (handled-WritesFirst s e handled gated admitted covered admits dispatched gates) in
    (first, WritesFirst-IsCovered s e r first)
