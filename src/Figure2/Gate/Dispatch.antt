-- ===== src/Figure2/Gate/Dispatch.antt =====
-- What the handlers that `dispatch` of src/figure2_spec.cpp calls make of an event.
use kura_metadata_store.Prelude.{
  not, ◌==◌, ◌≡◌, inl, refl, subst, Bool, true, false, arith, if◌then◌else◌,
}
use kura_metadata_store.Prelude.Exception.{
  throw_if, invalid_argument, ok-injective, Result, ok, err, ◌>>◌, >>=-eq-ok,
}
use kura_metadata_store.Raft.{NodeId}
use kura_metadata_store.Figure2.Types.{
  State, StepResult, Event, election_timeout, heartbeat_timeout, observe_term, receive_request_vote,
  receive_request_vote_response, receive_append_entries, receive_append_entries_response,
  receive_client_command, raft_hard_state_persisted,
}
use kura_metadata_store.Figure2.Leader.{leader_response, handle_append_entries_response}
use kura_metadata_store.Figure2.Vote.{
  answer_vote, count_vote, handle_request_vote, handle_request_vote_response, handle_timeout,
}
use kura_metadata_store.Figure2.Append.{receive_entries, handle_append_entries}
use kura_metadata_store.Figure2.Validate.{is_candidate}
use kura_metadata_store.Figure2.Step.{dispatch, begin, is_completion}
use kura_metadata_store.Figure2.Gate.Quiet.{returns, Quietly, Quietly-refl, QuietlyTo}
use kura_metadata_store.Figure2.Gate.Handlers.{
  count-Quietly, receive-Quietly, response-Quietly, client-Quietly, apply-Quietly,
}
use kura_metadata_store.Figure2.Gate.Shapes.{
  Shape, Answers, quiet-Shape, quiet-Backs, observed-Shape,
}
use kura_metadata_store.Figure2.Gate.Campaigns.{answer_vote-Answers, timeout_in-Shape}

unchanged-Shape :
    (s : State) (t : StepResult) → ◌≡◌ {A = Result StepResult} (ok (begin s)) (ok t) → Shape s t
unchanged-Shape s t e =
    quiet-Shape (begin s) t refl
      (subst (Quietly (begin s)) (ok-injective e) (Quietly-refl (begin s)))

-- A test in front of a handler.
tested-Shape :
    (s : State) (m : Result (Unit {0})) (k : Result StepResult) (t : StepResult)
    → (k ≡ ok t → Shape s t)
    → (m >> k) ≡ ok t
    → Shape s t
tested-Shape s (ok u) k t h e = h e
tested-Shape s (err x) k t h e = cc

sent_by-Shape :
    (s : State) (c from : NodeId) (k : Result StepResult) (t : StepResult)
    → (c ≡ from → k ≡ ok t → Shape s t)
    → (throw_if (not (c == from)) (invalid_argument "RequestVote sender does not match candidate")
        >> k)
      ≡ ok t
    → Shape s t
sent_by-Shape s c from k t h e =
    let (_, same, rest) =
      >>=-eq-ok
        (throw_if (not (c == from))
          (invalid_argument "RequestVote sender does not match candidate"))
        _ e in
    h (ground (arith, same)) rest

if-Shape :
    (s : State) (b : Bool) (m n : Result StepResult) (t : StepResult)
    → (m ≡ ok t → Shape s t)
    → (n ≡ ok t → Shape s t)
    → (if b then m else n) ≡ ok t
    → Shape s t
if-Shape s true m n t hm hn = hm
if-Shape s false m n t hm hn = hn

quiet-Answers :
    (k : StepResult → Result StepResult)
    → ((r : StepResult) → QuietlyTo r (k r))
    → (r t : StepResult) → k r ≡ ok t
    → Answers r t
quiet-Answers k h r t e = inl (quiet-Backs r t (h r t e))

pub dispatch-Shape :
    (s : State) (e : Event) (t : StepResult)
    → is_completion e ≡ false
    → dispatch e (begin s) ≡ ok t
    → Shape s t
unfolding dispatch handle_timeout handle_request_vote handle_request_vote_response
    handle_append_entries handle_append_entries_response
dispatch-Shape s election_timeout t c e =
    if-Shape s _ _ _ t (timeout_in-Shape s.role s t) (unchanged-Shape s t) e
dispatch-Shape s heartbeat_timeout t c e =
    if-Shape s _ _ _ t (timeout_in-Shape s.role s t) (unchanged-Shape s t) e
dispatch-Shape s Event.apply_committed t c e =
    quiet-Shape (begin s) t refl (apply-Quietly (begin s) t e)
dispatch-Shape s (observe_term term) t c e =
    observed-Shape s term ok t (quiet-Answers ok (λ r. returns r (Quietly-refl r))) (rw e)
dispatch-Shape s (receive_request_vote from q) t c e =
    tested-Shape s _ _ t
      (sent_by-Shape s q.candidate from _ t (λ own.
        observed-Shape s q.term (answer_vote from q) t (λ r u. answer_vote-Answers from q r u own)))
      e
dispatch-Shape s (receive_request_vote_response from a) t c e =
    tested-Shape s _ _ t
      (observed-Shape s a.term (count_vote from a) t
        (quiet-Answers (count_vote from a) (count-Quietly from a)))
      e
dispatch-Shape s (receive_append_entries from q) t c e =
    let receive : StepResult → Result StepResult = receive_entries from q (is_candidate s.role) in
    tested-Shape s _ _ t
      (tested-Shape s _ _ t (
        observed-Shape s q.term receive t
          (quiet-Answers receive (receive-Quietly from q (is_candidate s.role)))))
      e
dispatch-Shape s (receive_append_entries_response from a) t c e =
    tested-Shape s _ _ t
      (observed-Shape s a.term (leader_response from a) t
        (quiet-Answers (leader_response from a) (response-Quietly from a)))
      e
dispatch-Shape s (receive_client_command x) t c e =
    quiet-Shape (begin s) t refl (client-Quietly x (begin s) t e)
dispatch-Shape s (raft_hard_state_persisted d) t c e = cc
