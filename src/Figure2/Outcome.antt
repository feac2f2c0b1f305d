-- ===== src/Figure2/Outcome.antt =====
-- What a step builds up: `persist_hard_state`, `gate_on_hard_state` and `observe_higher_term` of
-- src/figure2_spec.cpp.
use kura_metadata_store.Prelude.{
  ◌+◌, ◌||◌, Option, none, some, List, [], ◌∷◌, ◌++◌, ltb, ◌==◌, if◌then◌else◌, u64_max,
}
use kura_metadata_store.Prelude.Exception.{Result, ok, err, overflow_error, logic_error}
use kura_metadata_store.Raft.{Term, follower, RaftHardState, PersistRaftHardState}
use kura_metadata_store.Figure2.Types.{
  State, StepResult, RuleId, Effect, persist_raft_hard_state, PendingHardStatePersistence,
}

-- `result.rules.push_back(rule)`, `result.effects.push_back(effect)`, and a write to the state.
abbrev pub push_rule : RuleId → StepResult → StepResult
push_rule rule r = record r { rules = r.rules ++ rule ∷ [] }

abbrev pub push_effect : Effect → StepResult → StepResult
push_effect effect r = record r { effects = r.effects ++ effect ∷ [] }

abbrev pub with_state : State → StepResult → StepResult
with_state s r = record r { state = s }

unfoldable pub hard_state : State → RaftHardState
hard_state s = record { current_term = s.current_term; voted_for = s.voted_for }

unfoldable pub persist_hard_state : StepResult → Result StepResult
unfolding hard_state
persist_hard_state r =
    if r.state.next_hard_state_request_id == 0 || r.state.next_hard_state_request_id == u64_max
    then err (overflow_error "Raft hard-state request ID exhausted")
    else ok (
        push_effect
          (persist_raft_hard_state (record {
            request_id = r.state.next_hard_state_request_id;
            state = hard_state r.state;
          }))
          (with_state
            (record (r.state) {
              next_hard_state_request_id = r.state.next_hard_state_request_id + 1;
            })
            r))

-- What `find_if` splits the effects into: those before the first hard-state write, it, the rest.
pub record Split : Type 0 where
  pub before : List Effect
  pub request : PersistRaftHardState
  pub after : List Effect

abbrev keep_before : Effect → Option Split → Option Split
keep_before e none = none
keep_before e (some p) = some (record p { before = e ∷ p.before })

unfoldable pub split_at_persist : List Effect → Option Split
split_at_persist [] = none
split_at_persist (persist_raft_hard_state q ∷ es) =
    some (record { before = []; request = q; after = es })
split_at_persist (e ∷ es) = keep_before e (split_at_persist es)

unfoldable pub gate_split :
    Option Split → Option PendingHardStatePersistence → StepResult → Result StepResult
gate_split none pending r = ok r
gate_split (some p) (some q) r = err (logic_error "Raft hard-state persistence is already pending")
gate_split (some p) none r = ok (record r {
  state = record (r.state) {
    pending_hard_state = some (record { request = p.request; deferred_effects = p.after });
  };
  effects = p.before ++ persist_raft_hard_state p.request ∷ [];
})

unfoldable pub gate_on_hard_state : StepResult → Result StepResult
unfolding gate_split
gate_on_hard_state r = gate_split (split_at_persist r.effects) r.state.pending_hard_state r

-- The writes of `observe_higher_term` once the observed term is higher.
abbrev pub adopt_term : Term → State → State
adopt_term observed s = record s {
  persistent = record (s.persistent) { current_term = observed; voted_for = none };
  role = follower;
  known_leader = none;
  votes_received = [];
  leader = none;
}

unfoldable pub observe_higher_term : Term → StepResult → Result StepResult
unfolding persist_hard_state
observe_higher_term observed r =
    if ltb r.state.current_term observed
    then persist_hard_state
        (push_rule RuleId.observe_higher_term (with_state (adopt_term observed r.state) r))
    else ok r
