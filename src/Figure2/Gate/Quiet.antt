-- ===== src/Figure2/Gate/Quiet.antt =====
-- What it is for a part of src/figure2_spec.cpp to write no hard state, and the rules for it.
use mathlib.Core.List.{append_assoc, append-nil}
use kura_metadata_store.Prelude.{
  ℕ, ◌≡◌, refl, sym, ap, ◌∙◌, subst, Bool, true, false, Option, List, [], ◌∷◌, ◌++◌, arith,
  if◌then◌else◌,
}
use kura_metadata_store.Prelude.Exception.{Exception, Ensures, ok-injective, Result, ok, err, ◌>>=◌}
use kura_metadata_store.OrderedMap.{nat_ord}
use kura_metadata_store.Raft.{NodeId}
use kura_metadata_store.Figure2.Types.{StepResult, RuleId, Effect}
use kura_metadata_store.Figure2.Outcome.{push_rule, push_effect, with_state}
use kura_metadata_store.Figure2.Leader.{become_leader, send_append, send_appends, initialize_leader}
use kura_metadata_store.Figure2.Advances.{state-send_append, state-send_appends}
use kura_metadata_store.Figure2.Gate.{
  first_promise, IsQuiet, IsQuiet-append, send_append-Continues, send_appends-Continues,
}

-- `r'` adds effects to `r` with no hard-state write among them, and keeps the term,
-- the vote and the pending write.
pub record Quietly (r r' : StepResult) : Type 0 where
  pub more : List Effect
  pub added : r'.effects ≡ r.effects ++ more
  pub quiet : IsQuiet more
  pub term : r'.state.current_term ≡ r.state.current_term
  pub vote : r'.state.voted_for ≡ r.state.voted_for
  pub pending : r'.state.pending_hard_state ≡ r.state.pending_hard_state

pub Quietly-refl : (r : StepResult) → Quietly r r
unfolding first_promise
Quietly-refl r = record {
  more = [];
  added = sym (append-nil r.effects);
  quiet = refl;
  term = refl;
  vote = refl;
  pending = refl;
}

pub Quietly-trans : {r s t : StepResult} → Quietly r s → Quietly s t → Quietly r t
Quietly-trans {r} {s} {t} h k = record {
  more = h.more ++ k.more;
  added = k.added ∙ (ap (λ es. es ++ k.more) h.added ∙ append_assoc r.effects h.more k.more);
  quiet = IsQuiet-append h.more k.more h.quiet k.quiet;
  term = k.term ∙ h.term;
  vote = k.vote ∙ h.vote;
  pending = k.pending ∙ h.pending;
}

-- Nothing but the rest of the state and the rules changes.
pub Quietly-same :
    (r r' : StepResult)
    → r'.effects ≡ r.effects
    → r'.state.current_term ≡ r.state.current_term
    → r'.state.voted_for ≡ r.state.voted_for
    → r'.state.pending_hard_state ≡ r.state.pending_hard_state
    → Quietly r r'
unfolding first_promise
Quietly-same r r' e t v w = record {
  more = [];
  added = e ∙ sym (append-nil r.effects);
  quiet = refl;
  term = t;
  vote = v;
  pending = w;
}

-- One effect that is no hard-state write.
pub Quietly-push : (e : Effect) (r : StepResult) → IsQuiet (e ∷ []) → Quietly r (push_effect e r)
Quietly-push e r q = record {
  more = e ∷ [];
  added = refl;
  quiet = q;
  term = refl;
  vote = refl;
  pending = refl;
}

pub send_append-Quietly :
    (p : NodeId) (c : Option ℕ) (r r' : StepResult) → send_append p c r ≡ ok r' → Quietly r r'
send_append-Quietly p c r r' e =
    let (more, added, quiet) = send_append-Continues p c r r' e in
    record {
      more = more;
      added = added;
      quiet = quiet;
      term = ap (λ s. s.current_term) (state-send_append p c r r' e);
      vote = ap (λ s. s.voted_for) (state-send_append p c r r' e);
      pending = ap (λ s. s.pending_hard_state) (state-send_append p c r r' e);
    }

pub send_appends-Quietly :
    (ps : List NodeId) (r r' : StepResult) → send_appends ps r ≡ ok r' → Quietly r r'
send_appends-Quietly ps r r' e =
    let (more, added, quiet) = send_appends-Continues ps r r' e in
    record {
      more = more;
      added = added;
      quiet = quiet;
      term = ap (λ s. s.current_term) (state-send_appends ps r r' e);
      vote = ap (λ s. s.voted_for) (state-send_appends ps r r' e);
      pending = ap (λ s. s.pending_hard_state) (state-send_appends ps r r' e);
    }

pub initialize-Quietly : (r r' : StepResult) → initialize_leader r ≡ ok r' → Quietly r r'
unfolding initialize_leader
initialize-Quietly r r' e =
    Quietly-trans
      (Quietly-same r
        (push_rule RuleId.leader_initialize
          (push_rule RuleId.candidate_win_election (with_state (become_leader r.state) r)))
        refl refl refl refl)
      (send_appends-Quietly r.state.peers _ r' (ground arith))

-- A result that succeeds only quietly.
abbrev pub QuietlyTo : StepResult → Result StepResult → Type 0
QuietlyTo r = Ensures (Quietly r)

pub returns : {r : StepResult} (t : StepResult) → Quietly r t → QuietlyTo r (ok t)
returns {r} t h u e = subst (Quietly r) (ok-injective e) h

pub throws : {r : StepResult} (x : Exception) → QuietlyTo r (err x)
throws x t e = cc

pub either :
    {r : StepResult} (b : Bool) {m n : Result StepResult}
    → QuietlyTo r m
    → QuietlyTo r n
    → QuietlyTo r (if b then m else n)
either true hm hn = hm
either false hm hn = hn

-- A part that may throw, and whose value the rest uses.
pub after {ℓ} :
    {B : Type ℓ} {r : StepResult} (m : Result B) (k : B → Result StepResult)
    → ((b : B) → QuietlyTo r (k b))
    → QuietlyTo r (m >>= k)
after (ok b) k h = h b
after (err x) k h = λ t e. cc

pub Quietly-then :
    {r s : StepResult} {m : Result StepResult} → Quietly r s → QuietlyTo s m → QuietlyTo r m
Quietly-then h k t e = Quietly-trans h (k t e)
