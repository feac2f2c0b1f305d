-- ===== src/Figure2/Gate/Shapes.antt =====
-- What a handler of src/figure2_spec.cpp makes of its event: effects that the state backs, or a
-- hard-state write with what waits for it.
use kura_metadata_store.Prelude.{◌≡◌, ◌⊎◌, inl, inr, refl, sym, ap, ◌∙◌, subst, List, [], ◌∷◌, ◌++◌}
use kura_metadata_store.Prelude.Exception.{Result, ok, ◌>>=◌, >>=-eq-ok}
use kura_metadata_store.Raft.{Term, PersistRaftHardState}
use kura_metadata_store.Figure2.Types.{State, StepResult, Effect, persist_raft_hard_state}
use kura_metadata_store.Figure2.Outcome.{observe_higher_term}
use kura_metadata_store.Figure2.Step.{begin}
use kura_metadata_store.Figure2.Gate.{
  Backed, Records, StartsWithWrite, observe-Continues, quiet-Backed,
}
use kura_metadata_store.Figure2.Gate.Quiet.{Quietly}

-- What a handler makes of `r` where `r` has no effects yet: effects that the state backs, under the
-- same term and vote, or effects that begin with the write of the new hard state.
abbrev pub Shape : State → StepResult → Type 0
Shape s r =
    (Backed r.state r.effects
      × (r.state.current_term ≡ s.current_term)
      × (r.state.voted_for ≡ s.voted_for)
      × (r.state.pending_hard_state ≡ s.pending_hard_state))
    ⊎ StartsWithWrite r.state r.effects

-- Effects that the state backs are added, and the term and the vote stay.
pub record Backs (r t : StepResult) : Type 0 where
  pub more : List Effect
  pub added : t.effects ≡ r.effects ++ more
  pub backed : Backed t.state more
  pub term : t.state.current_term ≡ r.state.current_term
  pub vote : t.state.voted_for ≡ r.state.voted_for
  pub pending : t.state.pending_hard_state ≡ r.state.pending_hard_state

pub quiet-Backs : (r t : StepResult) → Quietly r t → Backs r t
quiet-Backs r t q = record {
  more = q.more;
  added = q.added;
  backed = quiet-Backed t.state q.more q.quiet;
  term = q.term;
  vote = q.vote;
  pending = q.pending;
}

-- What a handler adds once the term is observed: the same, or a write and what waits for it, and
-- the term stays.
abbrev pub Answers : StepResult → StepResult → Type 0
Answers r t =
    Backs r t
    ⊎ ((q : PersistRaftHardState) × (rest : List Effect) × (t.effects
          ≡ r.effects ++ persist_raft_hard_state q ∷ rest)
        × Backed t.state rest
        × Records t.state q)

Backs-Shape : (r t : StepResult) → r.effects ≡ [] → Backs r t → Shape r.state t
Backs-Shape r t e q = inl (
  subst (Backed t.state) (sym (q.added ∙ ap (λ es. es ++ q.more) e)) q.backed,
  q.term,
  q.vote,
  q.pending,
)

pub quiet-Shape : (r t : StepResult) → r.effects ≡ [] → Quietly r t → Shape r.state t
quiet-Shape r t e q = Backs-Shape r t e (quiet-Backs r t q)

answer-Shape : (r t : StepResult) → r.effects ≡ [] → Answers r t → Shape r.state t
answer-Shape r t e (inl q) = Backs-Shape r t e q
answer-Shape r t e (inr (w, rest, a, h, k)) =
    inr (w, rest, a ∙ ap (λ es. es ++ persist_raft_hard_state w ∷ rest) e, inl (h, k))

-- A handler behind `observe_higher_term`.
pub observed-Shape :
    (s : State) (term : Term) (k : StepResult → Result StepResult) (t : StepResult)
    → ((r t : StepResult) → k r ≡ ok t → Answers r t)
    → (observe_higher_term term (begin s) >>= k) ≡ ok t
    → Shape s t
observed-Shape s term k t answers e =
    let (r, observes, rest) = >>=-eq-ok (observe_higher_term term (begin s)) k e in
    observed r (observe-Continues term (begin s) r observes) (answers r t rest)
  where
    observed :
        (r : StepResult)
        → (r ≡ begin s)
          ⊎ ((q : PersistRaftHardState) × (r.effects ≡ [] ++ persist_raft_hard_state q ∷ [])
              × Records r.state q)
        → Answers r t
        → Shape s t
    observed r (inl same) a = answer-Shape (begin s) t refl (subst (λ x. Answers x t) same a)
    observed r (inr (w, a, (h, v))) (inl q) = inr (
      w,
      q.more,
      q.added ∙ ap (λ es. es ++ q.more) a,
      inl (q.backed, (h ∙ sym q.term, v ∙ sym q.vote)),
    )
    observed r (inr (w, a, h)) (inr (v, rest, b, k, l)) = inr (
      w,
      persist_raft_hard_state v ∷ rest,
      b ∙ ap (λ es. es ++ persist_raft_hard_state v ∷ rest) a,
      inr (v, rest, refl, k, l),
    )
