-- ===== src/Job/Request.antt =====
-- Requests to the state machine of crates/engine/src/job/state.rs, and the answers that it gives.
use kdown.Prelude.{true, false, ◌≡◌, ◌⊎◌, inl, inr, refl, List, [], ◌∷◌, Bool-cases}
use kdown.Job.State.{
  JobState, cancelling, failing, cancelled, failed, ordinal, is_terminal, allowed, StateMachine,
  Outcome, accepted, invalid_transition, get, settle, transition, or_else, fail, cancel,
}
use kdown.Job.Edges.{decode-ordinal}

-- The calls that change a machine.
pub data Request : Type 0 where
  moves : JobState → Request
  fails : Request
  cancels : Request

unfoldable pub request : Request → StateMachine → StateMachine × Outcome
request (moves to) sm = transition to sm
request fails sm = fail sm
request cancels sm = cancel sm

unfoldable pub run : StateMachine → List Request → StateMachine
run sm [] = sm
run sm (r ∷ rs) = run (request r sm).0 rs

-- The edges that a machine takes, the last one first.
abbrev pub record_edge :
    JobState → JobState → Outcome → List (JobState × JobState) → List (JobState × JobState)
record_edge from to accepted past = (from, to) ∷ past
record_edge from to (invalid_transition f t) past = past

unfoldable pub edges :
    StateMachine → List (JobState × JobState) → List Request → List (JobState × JobState)
unfolding request
edges sm past [] = past
edges sm past (r ∷ rs) =
    let next = request r sm in edges next.0 (record_edge (get sm) (get next.0) next.1 past) rs

abbrev pub at : JobState → StateMachine
at s = record { state = ordinal s }

pub get-at : (s : JobState) → get (at s) ≡ s
unfolding get
get-at s = decode-ordinal s

-- An answer to a request: it is refused and changes nothing, or takes an edge of the graph.
abbrev pub Answer : StateMachine → StateMachine × Outcome → Type 0
Answer sm r =
    ((f : JobState) × (t : JobState) × (r ≡ (sm, invalid_transition f t)))
    ⊎ ((t : JobState) × (is_terminal (get sm) ≡ false)
        × (allowed (get sm) t ≡ true)
        × (r ≡ (at t, accepted)))

transition-Answer : (to : JobState) (sm : StateMachine) → Answer sm (transition to sm)
unfolding transition settle
transition-Answer to sm = elim (Bool-cases (is_terminal (get sm))) [
  | inl e ↦ inl (get sm, to, rw e refl)
  | inr e ↦ elim (Bool-cases (allowed (get sm) to)) [
    | inl a ↦ inr (to, e, a, rw e (rw a refl))
    | inr a ↦ inl (get sm, to, rw e (rw a refl))
  ]
]

or_else-Answer :
    (first second : JobState) (sm : StateMachine)
    → Answer sm (or_else (transition first sm) (transition second))
unfolding or_else
or_else-Answer first second sm = elim (transition-Answer first sm) [
  | inl (f, t, e) ↦ rw e (transition-Answer second sm)
  | inr (t, n, a, e) ↦ inr (t, n, a, rw e refl)
]

pub request-Answer : (r : Request) (sm : StateMachine) → Answer sm (request r sm)
unfolding request fail cancel
request-Answer (moves to) sm = transition-Answer to sm
request-Answer fails sm = or_else-Answer failing failed sm
request-Answer cancels sm = or_else-Answer cancelling cancelled sm
