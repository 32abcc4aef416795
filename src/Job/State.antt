-- ===== src/Job/State.antt =====
-- The state machine of crates/engine/src/job/state.rs. Its atomic cell holds the ordinal of a state;
-- a transition is a load and then a store, which are separate here as they are in the source.
use kdown.Prelude.{ℕ, Bool, true, false, if◌then◌else◌, ◌==◌}

pub data JobState : Type 0 where
  created : JobState
  probing : JobState
  preparing : JobState
  running : JobState
  pausing : JobState
  paused : JobState
  resuming : JobState
  verifying : JobState
  committing : JobState
  cancelling : JobState
  failing : JobState
  completed : JobState
  cancelled : JobState
  failed : JobState

-- `state as u8`.
abbrev pub ordinal : JobState → ℕ
ordinal created = 0
ordinal probing = 1
ordinal preparing = 2
ordinal running = 3
ordinal pausing = 4
ordinal paused = 5
ordinal resuming = 6
ordinal verifying = 7
ordinal committing = 8
ordinal cancelling = 9
ordinal failing = 10
ordinal completed = 11
ordinal cancelled = 12
ordinal failed = 13

-- The match of `get` on the loaded byte.
unfoldable pub decode : ℕ → JobState
decode n =
    if n == 0
    then created
    else if n == 1
    then probing
    else if n == 2
    then preparing
    else if n == 3
    then running
    else if n == 4
    then pausing
    else if n == 5
    then paused
    else if n == 6
    then resuming
    else if n == 7
    then verifying
    else if n == 8
    then committing
    else if n == 9
    then cancelling
    else if n == 10
    then failing
    else if n == 11
    then completed
    else if n == 12
    then cancelled
    else failed

abbrev pub is_terminal : JobState → Bool
is_terminal completed = true
is_terminal cancelled = true
is_terminal failed = true
is_terminal s = false

unfoldable pub allowed : JobState → JobState → Bool
allowed created probing = true
allowed created failing = true
allowed created cancelling = true
allowed probing preparing = true
allowed probing running = true
allowed probing failing = true
allowed probing cancelling = true
allowed preparing running = true
allowed preparing failing = true
allowed preparing cancelling = true
allowed running pausing = true
allowed running verifying = true
allowed running failing = true
allowed running cancelling = true
allowed paused resuming = true
allowed paused cancelling = true
allowed paused failing = true
allowed resuming running = true
allowed resuming failing = true
allowed resuming cancelling = true
allowed pausing paused = true
allowed pausing cancelling = true
allowed pausing failing = true
allowed verifying committing = true
allowed verifying failing = true
allowed verifying cancelling = true
allowed committing completed = true
allowed committing failing = true
allowed cancelling cancelled = true
allowed failing failed = true
allowed from to = false

pub record StateMachine : Type 0 where
  pub state : ℕ

-- `Result<(), InvalidTransition>`.
pub data Outcome : Type 0 where
  accepted : Outcome
  invalid_transition : JobState → JobState → Outcome

unfoldable pub new : StateMachine
new = record { state = 0 }

unfoldable pub get : StateMachine → JobState
unfolding decode
get sm = decode sm.state

-- What `transition` does with the state that it loaded, on the machine as it is by then.
unfoldable pub settle : JobState → JobState → StateMachine → StateMachine × Outcome
settle from to sm =
    if is_terminal from
    then (sm, invalid_transition from to)
    else if allowed from to
    then (record { state = ordinal to }, accepted)
    else (sm, invalid_transition from to)

unfoldable pub transition : JobState → StateMachine → StateMachine × Outcome
unfolding get settle
transition to sm = settle (get sm) to sm

-- `first.or_else(|_| second)` on one machine.
unfoldable pub or_else :
    StateMachine × Outcome → (StateMachine → StateMachine × Outcome) → StateMachine × Outcome
or_else (sm, accepted) next = (sm, accepted)
or_else (sm, invalid_transition from to) next = next sm

unfoldable pub fail : StateMachine → StateMachine × Outcome
unfolding transition or_else
fail sm = or_else (transition failing sm) (transition failed)

unfoldable pub cancel : StateMachine → StateMachine × Outcome
unfolding transition or_else
cancel sm = or_else (transition cancelling sm) (transition cancelled)
