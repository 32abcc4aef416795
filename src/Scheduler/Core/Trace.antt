-- ===== src/Scheduler/Core/Trace.antt =====
-- Histories of scheduler calls, in any order and with any arguments.
use kdown.Prelude.{ℕ, ◌≤◌, List, [], ◌∷◌, u64_max}
use kdown.Interval.{ByteRange}
use kdown.Scheduler.Policy.{Floats, SchedulerPolicy, IsPolicy}
use kdown.Scheduler.Core.Invariant.{Inv}
use kdown.Scheduler.Core.Settle.{complete-Inv, fail-Inv, release-Inv, bump_generation-Inv}
use kdown.Scheduler.Core.Initialize.{initialize-Inv}
use kdown.Scheduler.Core.Acquire.{acquire-Inv}
use kdown.Scheduler.Core.Reshape.{report_progress-Inv, split_tail-Inv}
use kdown.Scheduler.Core.{
  SegmentScheduler, initialize, acquire, report_progress, complete, fail, release, split_tail,
  bump_generation, set_ready_work_divisor,
}

-- The calls with their arguments; `now` comes first where the clock is read.
pub data Call : Type 0 where
  acquires : ℕ → Call
  reports : ℕ → ℕ → ℕ → Call
  completes : ℕ → ℕ → ℕ → Call
  fails : ℕ → ℕ → ℕ → Call
  releases : ℕ → ℕ → Call
  splits : ℕ → ℕ → ℕ → ℕ → ℕ → Call
  bumps : Call
  sets_divisor : ℕ → Call

module _ (fl : Floats) where
  unfoldable pub step : SegmentScheduler fl → Call → SegmentScheduler fl
  step s (acquires now) = (acquire fl s now).1
  step s (reports id gen through) = (report_progress fl s id gen through).1
  step s (completes now id gen) = (complete fl s now id gen).1
  step s (fails now id gen) = (fail fl s now id gen).1
  step s (releases id gen) = (release fl s id gen).1
  step s (splits now id gen min_tail received) = (split_tail fl s now id gen min_tail received).1
  step s bumps = bump_generation fl s
  step s (sets_divisor n) = set_ready_work_divisor fl s n

  unfoldable pub run : SegmentScheduler fl → List Call → SegmentScheduler fl
  unfolding step
  run s [] = s
  run s (c ∷ cs) = run (step s c) cs

module _ {fl : Floats} where
  set_ready_work_divisor-Inv :
      (s : SegmentScheduler fl) (n : ℕ) → Inv s → Inv (set_ready_work_divisor fl s n)
  unfolding set_ready_work_divisor
  set_ready_work_divisor-Inv s n v = record {
    policy_ok = record { min_pos = v.policy_ok.min_pos; ordered = v.policy_ok.ordered };
    total_fits = v.total_fits;
    ids = v.ids;
    leases = v.leases;
    partition = v.partition;
  }

  -- Every call keeps the invariant, whatever its arguments.
  pub step-Inv : (s : SegmentScheduler fl) (c : Call) → Inv s → Inv (step fl s c)
  unfolding step
  step-Inv s (acquires now) v = acquire-Inv s v now
  step-Inv s (reports id gen through) v = (report_progress-Inv s v id gen through).0
  step-Inv s (completes now id gen) v = (complete-Inv s v now id gen).0
  step-Inv s (fails now id gen) v = (fail-Inv s v now id gen).0
  step-Inv s (releases id gen) v = (release-Inv s v 0 id gen).0
  step-Inv s (splits now id gen min_tail received) v =
      split_tail-Inv s v now id gen min_tail received
  step-Inv s bumps v = (bump_generation-Inv s v).0
  step-Inv s (sets_divisor n) v = set_ready_work_divisor-Inv s n v

  run-Inv : (s : SegmentScheduler fl) (cs : List Call) → Inv s → Inv (run fl s cs)
  unfolding run
  run-Inv s [] v = v
  run-Inv s (c ∷ cs) v = run-Inv (step fl s c) cs (step-Inv s c v)

  -- After any history of calls of a scheduler that `initialize` made, for a file of at most 2^64 -
  -- 1 bytes and a policy with ordered positive bounds, the invariant holds: every byte of the file
  -- is in exactly one of pending, completed and one active lease, and no other byte is in any, ids
  -- are in order and each lease is of the current generation with its cursor in its range.
  pub run-initialize-Inv :
      (total : ℕ) (ranges : List ByteRange) (p : SchedulerPolicy) (cs : List Call)
      → total ≤ u64_max
      → IsPolicy p
      → Inv (run fl (initialize fl total ranges p) cs)
  run-initialize-Inv total ranges p cs fits ok =
      run-Inv (initialize fl total ranges p) cs (initialize-Inv total fits fl ranges p ok).0
