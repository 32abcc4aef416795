-- ===== src/Scheduler/Examples.antt =====
-- Tests of crates/engine/src/scheduler, and instances of its theorems.
use kdown.Prelude.{
  ℕ, ◌+◌, ◌*◌, ◌/◌, ◌-◌, max, ◌≤◌, ◌<◌, ◌≡◌, ◌↔◌, ◌⊎◌, refl, true, false, Option, none, some, List,
  [], ◌∷◌, ltb, arith, All, sum_by,
}
use kdown.Interval.Coverage.{hits}
use kdown.Interval.{len, from_ranges, complement_within}
use kdown.Scheduler.Lease.{SegmentLease, get, put}
use kdown.Scheduler.Policy.{
  Floats, TargetSelector, SchedulerPolicy, with_target, with_target-IsPolicy, apply_ready_work_cap,
  target_len, resolve_target, new_duration, next_size,
}
use kdown.Scheduler.Plan.{plan_segments, plan_segments_once, from_start, HasLength}
use kdown.Scheduler.Core.Invariant.{Inv}
use kdown.Scheduler.Core.Initialize.{initialize-Inv}
use kdown.Scheduler.Core.Clocks.{sampled, run-initialize-IsOnce, release_stale_clock}
use kdown.Scheduler.Core.Acquire.{acquire_gives, IsFreshLease}
use kdown.Scheduler.Core.Queries.{
  is_finished, is_complete, active_bytes, pending_bytes, acknowledged_bytes, invariants_hold,
}
use kdown.Scheduler.Core.Accounting.{bytes_add_up, invariants_hold_lem, is_finished-is_complete}
use kdown.Scheduler.Core.Trace.{
  acquires, reports, fails, splits, run, step, step-Inv, run-initialize-Inv,
}
use kdown.Scheduler.Core.Monotone.{completed_stays}
use kdown.Scheduler.Core.Absorb.{absorb_worker_progress_counts}
use kdown.Scheduler.Core.Drive.{drive, drive_completes}
use kdown.Scheduler.Core.{
  SegmentScheduler, ProgressRecord, initialize, acquire, fail, release, report_progress,
  absorb_worker_progress, clock_get, clock_put, complete, complete_prefix,
}

-- Floats that round to whole numbers.
abbrev coarse : Floats
coarse = record {
  F = ℕ;
  of_nat = λ n. n;
  to_nat = λ n. n;
  one = 1;
  two = 2;
  quarter = 0;
  add = ◌+◌;
  sub = ◌-◌;
  mul = ◌*◌;
  div = ◌/◌;
  fmax = max;
  lt = ltb;
}

abbrev small_policy : SchedulerPolicy
small_policy = with_target 8 32 (TargetSelector.explicit 16) 4

abbrev start : SegmentScheduler coarse
start = initialize coarse 100 ((10, 19) ∷ (15, 29) ∷ []) small_policy

start-Inv : Inv start
start-Inv =
    (initialize-Inv 100 (omega arith) coarse ((10, 19) ∷ (15, 29) ∷ []) small_policy
      (with_target-IsPolicy 8 32 (TargetSelector.explicit 16) 4)).0

-- One lease is out: bytes 0 to 9, of which 4 are acknowledged.
abbrev working : SegmentScheduler coarse
working = run coarse start (acquires 1 ∷ reports 1 1 4 ∷ [])

working-Inv : Inv working
working-Inv =
    run-initialize-Inv 100 ((10, 19) ∷ (15, 29) ∷ []) small_policy (acquires 1 ∷ reports 1 1 4 ∷ [])
      (omega arith) (with_target-IsPolicy 8 32 (TargetSelector.explicit 16) 4)

abbrev first_lease : SegmentLease
first_lease = record { id = 1; generation = 1; start = 0; stop = 9; next_offset = 4 }

first_lease_found : get working.active 1 ≡ some first_lease
unfolding run initialize acquire report_progress get with_target from_ranges complement_within put
    apply_ready_work_cap target_len resolve_target
first_lease_found = refl

completed_after_fail : (fail coarse working 7 1 1).1.completed ≡ (0, 3) ∷ (10, 29) ∷ []
unfolding run initialize acquire report_progress fail get with_target complete_prefix from_ranges
    complement_within put apply_ready_work_cap target_len resolve_target
completed_after_fail = refl

plan_segments_once_example :
    let plan = plan_segments 1000 2 64 128 in
    ((x : ℕ) → hits plan.1 x ≡ from_start 0 1000 x)
    × All (HasLength plan.0) plan.1
    × (0 < 1000 → (max 64 1 ≤ plan.0) × (plan.0 ≤ max 128 (max 64 1)))
plan_segments_once_example = plan_segments_once 1000 2 64 128 (omega arith)

run-initialize-Inv_example : Inv (run coarse start (acquires 1 ∷ fails 5 1 1 ∷ []))
run-initialize-Inv_example =
    run-initialize-Inv 100 ((10, 19) ∷ (15, 29) ∷ []) small_policy (acquires 1 ∷ fails 5 1 1 ∷ [])
      (omega arith) (with_target-IsPolicy 8 32 (TargetSelector.explicit 16) 4)

step-Inv_example : Inv (step coarse working (splits 3 1 1 1 5))
step-Inv_example = step-Inv working (splits 3 1 1 1 5) working-Inv

-- A lease of a scheduler that sizes by duration is acquired at 1 ms.
abbrev duration_policy : SchedulerPolicy
duration_policy = with_target 8 32 (TargetSelector.duration 50 16) 4

abbrev timed : SegmentScheduler coarse
timed = run coarse (initialize coarse 100 [] duration_policy) (acquires 1 ∷ [])

timed-Inv : Inv timed
timed-Inv =
    run-initialize-Inv 100 [] duration_policy (acquires 1 ∷ []) (omega arith)
      (with_target-IsPolicy 8 32 (TargetSelector.duration 50 16) 4)

abbrev timed_lease : SegmentLease
timed_lease = record { id = 1; generation = 1; start = 0; stop = 15; next_offset = 0 }

timed_lease_found : get timed.active 1 ≡ some timed_lease
unfolding run initialize acquire get with_target from_ranges complement_within put
    apply_ready_work_cap next_size new_duration
timed_lease_found = refl

timed_target : timed.duration_target ≡ some (new_duration coarse 50 16)
unfolding run initialize acquire with_target from_ranges complement_within
timed_target = refl

timed_clock : clock_get timed.acquired_at 1 ≡ some 1
unfolding run initialize acquire with_target clock_get clock_put from_ranges complement_within
timed_clock = refl

release_stale_clock_example :
    let kept = complete coarse timed 5 1 1 in
    ((release coarse timed 1 2).0 ≡ false)
    × (kept.0 ≡ true)
    × (kept.1.duration_target ≡ sampled (new_duration coarse 50 16) timed_lease 4)
    × (complete coarse (release coarse timed 1 2).1 5 1 1 ≡ (
      true,
      record kept.1 { duration_target = sampled (new_duration coarse 50 16) timed_lease 1 },
    ))
release_stale_clock_example =
    release_stale_clock timed 5 1 2 1 timed_lease (new_duration coarse 50 16) timed-Inv
      (run-initialize-IsOnce coarse 100 [] duration_policy (acquires 1 ∷ [])) timed_lease_found
      (λ h. absurd (omega arith)) timed_target timed_clock

acquire_gives_example :
    ((working.pending ≡ []) × (acquire coarse working 2 ≡ (none, working)))
    ⊎ ((l : SegmentLease) × ((acquire coarse working 2).0 ≡ some l) × IsFreshLease working l)
acquire_gives_example = acquire_gives working working-Inv 2

bytes_add_up_example :
    len working.completed
      + active_bytes coarse working
      + pending_bytes coarse working
      + acknowledged_bytes coarse working
    ≡ working.total_size
bytes_add_up_example = bytes_add_up working working-Inv

invariants_hold_lem_example : invariants_hold coarse working ≡ true
invariants_hold_lem_example = invariants_hold_lem working working-Inv

is_finished-is_complete_example :
    (is_finished coarse working ≡ true) ↔ (is_complete coarse working ≡ true)
is_finished-is_complete_example = is_finished-is_complete working working-Inv

completed_stays_example :
    hits working.completed 12
    ≤ hits (run coarse working (fails 9 1 1 ∷ acquires 10 ∷ [])).completed 12
completed_stays_example = completed_stays working (fails 9 1 1 ∷ acquires 10 ∷ []) 12 working-Inv

abbrev cells : List (Option ProgressRecord)
cells = some (record { lease_id = 1; record_generation = 1; written_through = 8 }) ∷ none ∷ []

absorb_worker_progress_counts_example :
    let r = absorb_worker_progress coarse working cells in
    Inv r.1
    × (acknowledged_bytes coarse r.1 ≡ acknowledged_bytes coarse working + sum_by (λ d. d) r.0)
absorb_worker_progress_counts_example = absorb_worker_progress_counts working cells working-Inv

drive_completes_example : is_complete coarse (drive coarse 81 start) ≡ true
unfolding initialize pending_bytes from_ranges complement_within len
drive_completes_example = drive_completes 81 start start-Inv refl (omega arith)
