-- ===== src/Io/Frontier/Examples.antt =====
-- Tests of crates/engine/src/io/write_frontier.rs, and instances of its theorems.
use kdown.Prelude.{
  ℕ, max, ◌≤◌, ◌<◌, true, false, ◌≡◌, refl, Option, none, some, List, [], ◌∷◌, arith, All,
}
use kdown.Interval.Coverage.{hits}
use kdown.Interval.{first_gap_from, len, insert}
use kdown.Io.Frontier.{
  last_byte, LeaseFrontier, new, record_completion, record_submission, acknowledged_through,
  failed_bytes,
}
use kdown.Io.Frontier.Published.{IsFrontier}
use kdown.Io.Frontier.Event.{Event, submits, completes, run, handle, written, IsEvent}
use kdown.Io.Frontier.History.{run-acknowledged_through}

-- Lease 42 of generation 7 over [100, 299], as in the tests of the source.
abbrev frontier : LeaseFrontier
frontier = record {
  lease_id = 42;
  generation = 7;
  start = 100;
  end = 299;
  received_through = 100;
  received_high_water = 100;
  submitted = [];
  outstanding = [];
  acknowledged = [];
  failed = [];
}

new_is_frontier : new 42 7 100 299 ≡ some frontier
unfolding new
new_is_frontier = refl

new_refuses : new 42 7 300 299 ≡ none
unfolding new
new_refuses = refl

frontier-IsFrontier : IsFrontier frontier
frontier-IsFrontier = record {
  ordered = omega arith;
  fits = omega arith;
  submitted_ok = tt;
  outstanding_ok = tt;
  acknowledged_ok = tt;
  failed_ok = tt;
  bounded = λ x b. refl;
}

-- The later half completes first, the earlier one fails and is written again.
abbrev events : List Event
events =
    submits 100 100
    ∷ submits 200 100
    ∷ completes 42 7 200 100 true
    ∷ completes 42 7 100 100 false
    ∷ completes 42 6 100 100 true
    ∷ completes 42 7 100 100 true
    ∷ []

events-IsEvent : All (IsEvent frontier) events
events-IsEvent = (
  (omega arith, omega arith, omega arith),
  (
    (omega arith, omega arith, omega arith),
    (
      (omega arith, omega arith, omega arith),
      (
        (omega arith, omega arith, omega arith),
        ((omega arith, omega arith, omega arith), ((omega arith, omega arith, omega arith), tt)),
      ),
    ),
  ),
)

-- What was published at each point, and that a failure counts also after its retry.
abbrev observed : Option LeaseFrontier → Option (ℕ × ℕ)
observed none = none
observed (some f) = some (acknowledged_through f, failed_bytes f)

first_two :
    observed (run frontier (submits 100 100 ∷ completes 42 7 200 100 true ∷ [])) ≡ some (100, 0)
unfolding run handle record_submission acknowledged_through failed_bytes first_gap_from len
    record_completion insert last_byte
first_two = refl

all_events : observed (run frontier events) ≡ some (300, 100)
unfolding run handle record_submission acknowledged_through failed_bytes first_gap_from len
    record_completion insert last_byte
all_events = refl

run-acknowledged_through_example :
    (g : LeaseFrontier) × (run frontier events ≡ some g)
    × (acknowledged_through frontier ≤ acknowledged_through g)
    × (acknowledged_through g ≤ 300)
    × ((x : ℕ)
        → 100 ≤ x
        → x < acknowledged_through g
        → max (hits frontier.acknowledged x) (written 42 7 events x) ≡ 1)
    × (max
          (hits frontier.acknowledged (acknowledged_through g))
          (written 42 7 events (acknowledged_through g))
        ≡ 0)
run-acknowledged_through_example =
    run-acknowledged_through frontier events frontier-IsFrontier events-IsEvent
