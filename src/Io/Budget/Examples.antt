-- ===== src/Io/Budget/Examples.antt =====
-- Tests of crates/engine/src/io/write_budget.rs, and instances of its theorems.
use kdown.Prelude.{ℕ, ◌≡◌, refl, some, List, [], ◌∷◌, arith}
use kdown.Io.Budget.{reserve, poll, cancel, reconcile, acquire, try_acquire, release}
use kdown.Io.Budget.System.{
  Event, start, call, polls, cancels, reconciles, act, act_at, step, run, initial, Inv,
  run-initial-Inv,
}
use kdown.Io.Budget.Frames.{split_oversize_frame, split_from}

-- One worker reserves 8 of 10 bytes and keeps 3; another waits for 9, and gives up.
abbrev events : List Event
events =
    start 8
    ∷ call 0 polls
    ∷ call 0 polls
    ∷ start 9
    ∷ call 0 polls
    ∷ call 1 (reconciles 3)
    ∷ call 0 cancels
    ∷ []

three_left : (run (initial 10 10) events).budget.job.outstanding ≡ 3
unfolding run step act_at act reserve poll cancel reconcile acquire try_acquire release
three_left = refl

run-initial-Inv_example : Inv (run (initial 10 10) events)
run-initial-Inv_example = run-initial-Inv 10 10 events (omega arith) (omega arith)

abbrev frame : List ℕ
frame = 1 ∷ 2 ∷ 3 ∷ 4 ∷ 5 ∷ []

frame_split : split_oversize_frame frame 2 ≡ some ((1 ∷ 2 ∷ []) ∷ (3 ∷ 4 ∷ []) ∷ (5 ∷ []) ∷ [])
unfolding split_oversize_frame split_from
frame_split = refl
