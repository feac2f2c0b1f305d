-- ===== src/Figure2/Gate/Campaigns.antt =====
-- Votes and elections in src/figure2_spec.cpp: what comes out begins with the hard-state write.
use mathlib.Core.List.{append_assoc}
use kura_metadata_store.Prelude.{
  ◌≡◌, inl, inr, refl, sym, ap, ◌∙◌, subst, true, false, Bool-cases, Option, some, List, [], ◌∷◌,
  ◌++◌, arith, ltb, u64_max, ◌==◌,
}
use kura_metadata_store.Prelude.Exception.{ok-injective, ok, >>=-eq-ok}
use kura_metadata_store.Raft.{
  RaftRole, leader, follower, candidate, learner, NodeId, PersistRaftHardState, RequestVoteRequest,
}
use kura_metadata_store.Figure2.Types.{
  State, StepResult, RuleId, Effect, send_request_vote_response, persist_raft_hard_state,
  reset_election_timer,
}
use kura_metadata_store.Figure2.Outcome.{push_rule, with_state, persist_hard_state}
use kura_metadata_store.Figure2.Vote.{
  start_election, win_if_alone, request_votes, become_candidate, grant_vote, answer_vote, vote_for,
  voted_is, can_grant, timeout_in,
}
use kura_metadata_store.Figure2.Log.{majority}
use kura_metadata_store.Figure2.Step.{begin}
use kura_metadata_store.Figure2.Gate.{Backed, Records, StartsWithWrite, quiet-Backed, Backed-append}
use kura_metadata_store.Figure2.Gate.Quiet.{
  Quietly, Quietly-then, Quietly-refl, Quietly-same, QuietlyTo, initialize-Quietly,
  send_appends-Quietly,
}
use kura_metadata_store.Figure2.Gate.Shapes.{Shape, Answers, quiet-Shape}

-- The write that `persist_hard_state` adds.
written : State → PersistRaftHardState
written s = record {
  request_id = s.next_hard_state_request_id;
  state = record { current_term = s.current_term; voted_for = s.voted_for };
}

persist-adds :
    (r t : StepResult)
    → persist_hard_state r ≡ ok t
    → (t.effects ≡ r.effects ++ persist_raft_hard_state (written r.state) ∷ [])
      × (t.state.current_term ≡ r.state.current_term)
      × (t.state.voted_for ≡ r.state.voted_for)
unfolding persist_hard_state written
persist-adds r t e = ground arith

three :
    (es : List Effect) (a b c : Effect)
    → (((es ++ a ∷ []) ++ b ∷ []) ++ c ∷ []) ≡ es ++ a ∷ b ∷ c ∷ []
three es a b c = simp append_assoc

vote_known : (v : Option NodeId) (c : NodeId) → voted_is v c ≡ true → v ≡ some c
vote_known v c h = ground arith

grant-Answers :
    (from c : NodeId) (r t : StepResult) → c ≡ from → grant_vote from c r ≡ ok t → Answers r t
unfolding grant_vote written
grant-Answers from c r t own e = elim (Bool-cases (voted_is r.state.voted_for c)) [
  | inl known ↦
      let voted : t.state.voted_for ≡ some c = ground arith in
      inl (record {
        more =
            reset_election_timer
            ∷ send_request_vote_response from
                (record { term = r.state.current_term; granted = true })
            ∷ [];
        added = ground (
          arith,
          append_assoc r.effects (reset_election_timer ∷ []) (
              send_request_vote_response from
                (record { term = r.state.current_term; granted = true })
              ∷ []),
        );
        backed = (λ granted. (ground arith, voted ∙ ap some own), tt);
        term = ground arith;
        vote = voted ∙ sym (vote_known r.state.voted_for c known);
        pending = ground arith;
      })
  | inr fresh ↦
      let voted : StepResult =
        push_rule RuleId.request_vote_grant (with_state (vote_for c r.state) r) in
      let (w, persists, done) = >>=-eq-ok (persist_hard_state voted) _ (rw fresh at e) in
      let (adds, term, vote) = persist-adds voted w persists in
      let reply : Effect =
        send_request_vote_response from (record { term = w.state.current_term; granted = true }) in
      let same : w.state ≡ t.state = ap (λ (x : StepResult). x.state) (ok-injective done) in
      inr (
        written voted.state,
        reset_election_timer ∷ reply ∷ [],
        ap (λ (x : StepResult). x.effects) (sym (ok-injective done))
            ∙ (ap (λ es. (es ++ reset_election_timer ∷ []) ++ reply ∷ []) adds
                ∙ three r.effects (persist_raft_hard_state (written voted.state))
                    reset_election_timer reply),
        subst (λ x. Backed x (reset_election_timer ∷ reply ∷ [])) same
            (λ granted. (refl, vote ∙ ap some own), tt),
        subst (λ x. Records x (written voted.state)) same (sym term, sym vote),
      )
]

pub answer_vote-Answers :
    (from : NodeId) (q : RequestVoteRequest) (r t : StepResult)
    → q.candidate ≡ from
    → answer_vote from q r ≡ ok t
    → Answers r t
unfolding answer_vote
answer_vote-Answers from q r t own e = elim (Bool-cases (ltb q.term r.state.current_term)) [
  | inl stale ↦ inl (record {
    more =
        send_request_vote_response from (record { term = r.state.current_term; granted = false })
        ∷ [];
    added = ground arith;
    backed = (λ granted. cc, tt);
    term = ground arith;
    vote = ground arith;
    pending = ground arith;
  })
  | inr current ↦ elim (Bool-cases (can_grant r.state q)) [
    | inl yes_vote ↦ grant-Answers from q.candidate r t own (rw (current, yes_vote) at e)
    | inr denied ↦ inl (record {
      more =
          send_request_vote_response from (record { term = r.state.current_term; granted = false })
          ∷ [];
      added = ground arith;
      backed = (λ granted. cc, tt);
      term = ground arith;
      vote = ground arith;
      pending = ground arith;
    })
  ]
]

alone-Quietly : (r : StepResult) → QuietlyTo r (win_if_alone r)
unfolding win_if_alone
alone-Quietly r t e = elim (Bool-cases (majority r.state == 1)) [
  | inl h ↦ initialize-Quietly r t (rw h at e)
  | inr h ↦ subst (Quietly r) (ok-injective (rw h at e)) (Quietly-refl r)
]

-- The effects of an election after its write.
campaign : StepResult → StepResult
campaign w = record w {
  effects = (w.effects ++ reset_election_timer ∷ []) ++ request_votes w.state w.state.peers;
}

requests-Backed : (s t : State) (peers : List NodeId) → Backed s (request_votes t peers)
unfolding request_votes
requests-Backed s t [] = tt
requests-Backed s t (p ∷ ps) = requests-Backed s t ps

campaign-StartsWithWrite :
    (q : PersistRaftHardState) (w t : StepResult)
    → w.effects ≡ persist_raft_hard_state q ∷ []
    → Records w.state q
    → Quietly (campaign w) t
    → StartsWithWrite t.state t.effects
unfolding campaign
campaign-StartsWithWrite q w t e (h, v) k = (
  q,
  (reset_election_timer ∷ request_votes w.state w.state.peers) ++ k.more,
  k.added
      ∙ ap
          (λ es.
            ((es ++ reset_election_timer ∷ []) ++ request_votes w.state w.state.peers) ++ k.more)
          e,
  inl (
    Backed-append t.state (reset_election_timer ∷ request_votes w.state w.state.peers) k.more
        (requests-Backed t.state w.state w.state.peers) (quiet-Backed t.state k.more k.quiet),
    (h ∙ sym k.term, v ∙ sym k.vote),
  ),
)

start_election-Shape :
    (r t : StepResult) → r.effects ≡ [] → start_election r ≡ ok t → Shape r.state t
unfolding start_election campaign written
start_election-Shape r t none_yet e = elim (Bool-cases (r.state.current_term == u64_max)) [
  | inl full ↦ absurd (ground arith)
  | inr room ↦
      let stood : StepResult =
        push_rule RuleId.candidate_start_election (with_state (become_candidate r.state) r) in
      let (w, persists, rest) = >>=-eq-ok (persist_hard_state stood) _ (rw room at e) in
      let (adds, term, vote) = persist-adds stood w persists in
      inr (
        campaign-StartsWithWrite (written stood.state) w t
          (adds ∙ ap (λ es. es ++ persist_raft_hard_state (written stood.state) ∷ []) none_yet)
          (sym term, sym vote) (alone-Quietly (campaign w) t rest))
]

pub timeout_in-Shape :
    (role : RaftRole) (s : State) (t : StepResult) → timeout_in role (begin s) ≡ ok t → Shape s t
unfolding timeout_in
timeout_in-Shape leader s t e = quiet-Shape (begin s) t refl (
    Quietly-then
      (Quietly-same (begin s) (push_rule RuleId.leader_heartbeat (begin s)) refl refl refl refl)
      (send_appends-Quietly s.peers (push_rule RuleId.leader_heartbeat (begin s))) t e)
timeout_in-Shape follower s t e =
    start_election-Shape (push_rule RuleId.follower_election_timeout (begin s)) t refl e
timeout_in-Shape candidate s t e =
    start_election-Shape (push_rule RuleId.candidate_restart_election (begin s)) t refl e
timeout_in-Shape learner s t e =
    quiet-Shape (begin s) t refl
      (subst (Quietly (begin s)) (ok-injective e) (Quietly-refl (begin s)))
