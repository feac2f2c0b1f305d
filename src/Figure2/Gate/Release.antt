-- ===== src/Figure2/Gate/Release.antt =====
-- The other half of the gate in `step` of src/figure2_spec.cpp: what a completed write releases.
use kura_metadata_store.Prelude.{◌≡◌, ◌⊎◌, some, none, List, [], ◌∷◌}
use kura_metadata_store.Raft.{PersistRaftHardState, RaftHardStatePersisted}
use kura_metadata_store.Figure2.Types.{
  State, StepResult, Effect, PendingHardStatePersistence, persist_raft_hard_state,
}

-- What a completion that answers the pending write `p` leaves behind: every effect that was held
-- back is released, or, where the first of them is one more write, that one alone, and those after
-- it stay behind it.
pub record Released (s : State) (p : PendingHardStatePersistence) (d : RaftHardStatePersisted)
    (r : StepResult) : Type 0 where
  pub request : d.request_id ≡ p.request.request_id
  pub term : d.state.current_term ≡ p.request.state.current_term
  pub vote : d.state.voted_for ≡ p.request.state.voted_for
  pub outcome :
      ((r.effects ≡ p.deferred_effects) × (r.state ≡ record s { pending_hard_state = none }))
      ⊎ ((q : PersistRaftHardState) × (rest : List Effect) × (p.deferred_effects
            ≡ persist_raft_hard_state q ∷ rest)
          × (r.effects ≡ persist_raft_hard_state q ∷ [])
          × (r.state ≡ record s {
            pending_hard_state = some (record { request = q; deferred_effects = rest });
          }))

-- The gate on what was held back.
abbrev Releases : State → PendingHardStatePersistence → StepResult → Type 0
Releases s p r =
    ((r.effects ≡ p.deferred_effects) × (r.state ≡ record s { pending_hard_state = none }))
    ⊎ ((q : PersistRaftHardState) × (rest : List Effect) × (p.deferred_effects
          ≡ persist_raft_hard_state q ∷ rest)
        × (r.effects ≡ persist_raft_hard_state q ∷ [])
        × (r.state ≡ record s {
          pending_hard_state = some (record { request = q; deferred_effects = rest });
        }))
