-- ===== src/Storage/HardState/Follows.antt =====
-- The order on the hard states of src/raft_hard_state_store.cpp, and what its file stands for.
use kura_metadata_store.Prelude.{
  ℕ, ◌^◌, ◌<◌, ◌≤◌, ◌≡◌, refl, true, Option, none, some, List, arith, not,
}
use kura_metadata_store.Prelude.Exception.{ok}
use kura_metadata_store.Raft.{RaftHardState}
use kura_metadata_store.Storage.Codec.{StorageLimits}
use kura_metadata_store.Storage.HardState.{
  DecodedHardState, decode, validate_transition, vote_value, votes_differ,
}
use kura_metadata_store.Storage.HardState.Persist.{same_state, no_hard_state}

-- What the final file stands for: no file for the default state, else a record that decodes.
abbrev pub Stores : StorageLimits → Option (List ℕ) → DecodedHardState → Type 0
Stores limits none d = d ≡ no_hard_state
Stores limits (some bytes) d = decode limits bytes ≡ ok d

-- The numbers of a state fit a record.
abbrev pub StateFits : RaftHardState → Type 0
StateFits state = (state.current_term < 2 ^ 64) × (vote_value state.voted_for < 2 ^ 64)

-- A later hard state: the term does not fall, and within a term a vote stays.
pub record Follows (a b : RaftHardState) : Type 0 where
  pub term : a.current_term ≤ b.current_term
  pub vote : (c : ℕ) → a.voted_for ≡ some c → b.current_term ≡ a.current_term → b.voted_for ≡ some c

pub Follows-refl : (a : RaftHardState) → Follows a a
Follows-refl a = record { term = omega arith; vote = λ c h same. h }

pub valid-Follows :
    (a b : RaftHardState) (u : Unit {0}) → validate_transition a b ≡ ok u → Follows a b
unfolding validate_transition
valid-Follows a b u h = record { term = ground arith; vote = λ c v same. ground arith }

same_vote : (a b : Option ℕ) → not (votes_differ a b) ≡ true → a ≡ b
same_vote none none h = refl
same_vote none (some y) h = cc
same_vote (some x) none h = cc
same_vote (some x) (some y) h = ground arith

pub same-eq : (a b : RaftHardState) → same_state a b ≡ true → a ≡ b
same-eq a b h =
    let term : a.current_term ≡ b.current_term = ground arith in
    let vote : a.voted_for ≡ b.voted_for = same_vote a.voted_for b.voted_for (ground arith) in
    ground arith
