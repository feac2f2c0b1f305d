-- ===== src/Figure2/Votes.antt =====
-- src/figure2_spec.cpp: one vote for each term, over every run of the Figure 2 core.
use kura_metadata_store.Prelude.{
  ◌≡◌, sym, ◌∙◌, subst, inl, inr, Option, some, true, List, [], ◌∷◌, arith,
}
use kura_metadata_store.Prelude.Exception.{ok}
use kura_metadata_store.Raft.{NodeId, Term, RequestVoteResponse, PersistRaftHardState}
use kura_metadata_store.Figure2.Types.{
  State, StepResult, Event, Effect, persist_raft_hard_state, persist_state, send_request_vote,
  send_request_vote_response, send_append_entries, send_append_entries_response,
  reset_election_timer, apply_command, complete_client_command,
}
use kura_metadata_store.Figure2.Step.{step}
use kura_metadata_store.Figure2.Gate.{Backed}
use kura_metadata_store.Figure2.Gate.Covered.{IsCovered, WritesFirst}
use kura_metadata_store.Figure2.Gate.Writes.{step-WritesFirst}
use kura_metadata_store.Figure2.Advances.{Advances, Advances-refl, Advances-trans}
use kura_metadata_store.Figure2.Advances.Steps.{step-Advances}

-- What a server reaches by steps that succeed, whatever the events.
pub data Reach (s : State) : State → Type 0 where
  here : Reach s s
  next :
      {t u : State} (e : Event) (r : StepResult)
      → Reach s t
      → step t e ≡ ok r
      → r.state ≡ u
      → Reach s u

-- Over any run the term, the commit index and the applied index never fall, committed entries stay
-- where they are, and a vote stays for as long as the term does.
pub Reach-Advances : {s t : State} → Reach s t → Advances s t
Reach-Advances {s} here = Advances-refl s
Reach-Advances {s} (next {t = t} e r run steps same) =
    subst (Advances s) same (Advances-trans (Reach-Advances run) (step-Advances t e r steps))

-- A granted vote of the term for `to` among the effects.
pub data Grants (to : NodeId) (term : Term) : List Effect → Type 0 where
  first :
      {es : List Effect} (a : RequestVoteResponse)
      → a.granted ≡ true
      → a.term ≡ term
      → Grants to term (send_request_vote_response to a ∷ es)
  later : {es : List Effect} (e : Effect) → Grants to term es → Grants to term (e ∷ es)

Backed-rest : (s : State) (e : Effect) (es : List Effect) → Backed s (e ∷ es) → Backed s es
Backed-rest s (persist_raft_hard_state q) es b = absurd b
Backed-rest s (send_request_vote_response to a) es (g, b) = b
Backed-rest s (persist_state f) es b = b
Backed-rest s (send_request_vote to q) es b = b
Backed-rest s (send_append_entries to q) es b = b
Backed-rest s (send_append_entries_response to a) es b = b
Backed-rest s reset_election_timer es b = b
Backed-rest s (apply_command i c) es b = b
Backed-rest s (complete_client_command i) es b = b

Backed-vote :
    (s : State) (to : NodeId) (a : RequestVoteResponse) (es : List Effect)
    → Backed s (send_request_vote_response to a ∷ es)
    → a.granted ≡ true
    → (a.term ≡ s.current_term) × (s.voted_for ≡ some to)
Backed-vote s to a es (g, b) = g

Backed-granted :
    (s : State) (to : NodeId) (term : Term) (es : List Effect)
    → Backed s es
    → Grants to term es
    → (term ≡ s.current_term) × (s.voted_for ≡ some to)
Backed-granted s to term _ b (first {es} a granted same) =
    let (now, voted) = Backed-vote s to a es b granted in (sym same ∙ now, voted)
Backed-granted s to term _ b (later {es} e grants) =
    Backed-granted s to term es (Backed-rest s e es b) grants

no_grant : (to : NodeId) (term : Term) → Grants to term [] → ⊥
no_grant to term g = elim g [ ]

write_only :
    (to : NodeId) (term : Term) (q : PersistRaftHardState)
    → Grants to term (persist_raft_hard_state q ∷ [])
    → ⊥
write_only to term q (later e g) = no_grant to term g

sent_vote :
    (s : State) (e : Event) (r : StepResult) (to : NodeId) (term : Term)
    → WritesFirst s e r
    → Grants to term r.effects
    → (term ≡ r.state.current_term) × (r.state.voted_for ≡ some to)
sent_vote s e r to term (inl (backed, idle, written)) g =
    Backed-granted r.state to term r.effects backed g
sent_vote s e r to term (inr (q, rest, out, pending, waits)) g =
    absurd (write_only to term q (subst (Grants to term) out g))

Reach-IsCovered : {s t : State} → IsCovered s → Reach s t → IsCovered t
Reach-IsCovered covered here = covered
Reach-IsCovered covered (next {t = t} e r run steps same) =
    subst IsCovered same (step-WritesFirst t e r (Reach-IsCovered covered run) steps).1

same_candidate : (v : Option NodeId) (a b : NodeId) → v ≡ some a → v ≡ some b → a ≡ b
same_candidate v a b h k = ground (arith, h, k)

-- The granted votes that a server sends in a term all go to one candidate: if a step lets out a
-- granted vote, and after any further events, completions of writes among them, a later step lets out
-- one of the same term, both are for the same candidate. The first state must cover what it holds
-- back, as a state without a pending write does.
pub one_vote_for_each_term :
    (s t : State) (e1 e2 : Event) (r1 r2 : StepResult) (a b : NodeId) (term : Term)
    → IsCovered s
    → step s e1 ≡ ok r1
    → Grants a term r1.effects
    → Reach r1.state t
    → step t e2 ≡ ok r2
    → Grants b term r2.effects
    → a ≡ b
one_vote_for_each_term s t e1 e2 r1 r2 a b term covered step1 sent1 run step2 sent2 =
    let (first1, covered1) = step-WritesFirst s e1 r1 covered step1 in
    let (first2, covered2) = step-WritesFirst t e2 r2 (Reach-IsCovered covered1 run) step2 in
    let (term1, vote1) = sent_vote s e1 r1 a term first1 sent1 in
    let (term2, vote2) = sent_vote t e2 r2 b term first2 sent2 in
    let grows : Advances r1.state r2.state =
      Advances-trans (Reach-Advances run) (step-Advances t e2 r2 step2) in
    same_candidate r2.state.voted_for a b (grows.vote a vote1 (sym term2 ∙ term1)) vote2
