-- ===== src/Scheduler/Core.antt =====
-- crates/engine/src/scheduler/core.rs: the state of `SegmentScheduler` and its operations.
-- A method returns its result and the new state. `Instant::now()` is the argument `now`, in
-- milliseconds. Lease ids and generations count up from 1 and are not taken to wrap.
pub mod Invariant
pub mod Settle
pub mod Initialize
pub mod Acquire
pub mod Reshape
pub mod Queries
pub mod Accounting
pub mod Trace
pub mod Clocks
pub mod Monotone
pub mod Absorb
pub mod Drive
use kdown.Prelude.{
  ℕ, zero, suc, ◌+◌, ◌-◌, ◌*◌, ◌/◌, min, max, Bool, true, false, not, ◌&&◌, ◌||◌, Option, none,
  some, List, [], ◌∷◌, ltb, leb, ◌==◌, if◌then◌else◌, saturating_add, saturating_sub, clamp, sum_by,
}
use kdown.Interval.{
  ByteRange, IntervalSet, insert, subtract, from_ranges, complement_within, len, is_empty,
}
use kdown.Scheduler.Lease.{SegmentLease, Leases, remaining, get, remove, put}
use kdown.Scheduler.Policy.{
  Floats, TargetSelector, SchedulerPolicy, resolve_target, apply_ready_work_cap, target_len,
  DurationTarget, new_duration, observe, next_size,
}

-- `acquired_at`: when each lease was acquired or last resized.
abbrev pub Clocks : Type 0
Clocks = List (ℕ × ℕ)

unfoldable pub clock_get : Clocks → ℕ → Option ℕ
clock_get [] id = none
clock_get ((j, t) ∷ cs) id = if j == id then some t else clock_get cs id

unfoldable pub clock_remove : Clocks → ℕ → Clocks
clock_remove [] id = []
clock_remove ((j, t) ∷ cs) id = if j == id then cs else (j, t) ∷ clock_remove cs id

unfoldable pub clock_put : Clocks → ℕ → ℕ → Clocks
unfolding clock_remove
clock_put cs id t = (id, t) ∷ clock_remove cs id

-- `get_mut(&id)` with a write, if the lease has a clock.
unfoldable pub clock_restart : Clocks → ℕ → ℕ → Clocks
clock_restart [] id t = []
clock_restart ((j, u) ∷ cs) id t = if j == id then (j, t) ∷ cs else (j, u) ∷ clock_restart cs id t

-- The clamping loop of `initialize`.
unfoldable pub clamp_completed : ℕ → List ByteRange → IntervalSet → IntervalSet
clamp_completed total [] m = m
clamp_completed total ((s, e) ∷ rs) m =
    clamp_completed total rs (if leb total s then m else insert m s (min e (total - 1)))

-- What a lease leaves when it is settled: its tail to `pending`, its prefix to `completed`.
unfoldable pub requeue_tail : SegmentLease → IntervalSet → IntervalSet
requeue_tail l pending =
    if leb l.next_offset l.stop then insert pending l.next_offset l.stop else pending

unfoldable pub complete_prefix : SegmentLease → IntervalSet → IntervalSet
complete_prefix l completed =
    if ltb l.start l.next_offset then insert completed l.start (l.next_offset - 1) else completed

-- The loop of `bump_generation` over all leases.
unfoldable pub drain : Leases → IntervalSet → IntervalSet → IntervalSet × IntervalSet
unfolding requeue_tail complete_prefix
drain [] pending completed = (pending, completed)
drain (l ∷ ls) pending completed = drain ls (requeue_tail l pending) (complete_prefix l completed)

-- The first byte of the new lease, in the unconsumed tail of `tail_len` bytes.
unfoldable pub split_at : SegmentLease → ℕ → ℕ
split_at l tail_len = l.stop - clamp (tail_len / 2) 1 (tail_len - 1) + 1

-- What a worker last published of its lease, if anything (`LeaseProgress::snapshot`).
pub record ProgressRecord : Type 0 where
  pub lease_id : ℕ
  pub record_generation : ℕ
  pub written_through : ℕ

module _ (fl : Floats) where
  pub record SegmentScheduler : Type 0 where
    pub total_size : ℕ
    pub pending : IntervalSet
    pub active : Leases
    pub completed : IntervalSet
    pub next_lease : ℕ
    pub generation : ℕ
    pub policy : SchedulerPolicy
    pub resolved_target : Option ℕ
    pub duration_target : Option (DurationTarget fl)
    pub acquired_at : Clocks

  duration_of : TargetSelector → Option (DurationTarget fl)
  duration_of TargetSelector.unset = none
  duration_of (TargetSelector.explicit n) = none
  duration_of (TargetSelector.automatic w o) = none
  duration_of (TargetSelector.duration ms seed) = some (new_duration fl ms seed)

  unfoldable pub initialize : ℕ → List ByteRange → SchedulerPolicy → SegmentScheduler
  unfolding clamp_completed duration_of
  initialize total ranges p =
      let completed = clamp_completed total ranges [] in
      let pending = if total == 0 then [] else from_ranges (complement_within completed total) [] in
      record {
        total_size = total;
        pending = pending;
        active = [];
        completed = completed;
        next_lease = 1;
        generation = 1;
        policy = p;
        resolved_target =
            resolve_target p.min_segment_size p.max_segment_size p.target (len pending);
        duration_target = duration_of p.target;
        acquired_at = [];
      }

  wanted : SegmentScheduler → Option (DurationTarget fl) → ℕ → ℕ
  wanted s none gap_len = target_len s.policy gap_len s.resolved_target
  wanted s (some d) gap_len =
      next_size fl d s.policy.min_segment_size s.policy.max_segment_size gap_len

  unfoldable pub target_len_for_gap : SegmentScheduler → ℕ → ℕ
  unfolding wanted
  target_len_for_gap s gap_len =
      apply_ready_work_cap s.policy (wanted s s.duration_target gap_len) gap_len

  -- The lease that `acquire` carves from the front of the gap [lo, hi].
  unfoldable pub carve : SegmentScheduler → ℕ → ℕ → SegmentLease
  unfolding target_len_for_gap
  carve s lo hi =
      let want = target_len_for_gap s (hi - lo + 1) in
      record {
        id = s.next_lease;
        generation = s.generation;
        start = lo;
        stop = min (saturating_sub (saturating_add lo want) 1) hi;
        next_offset = lo;
      }

  acquire_from : SegmentScheduler → ℕ → IntervalSet → Option SegmentLease × SegmentScheduler
  unfolding carve
  acquire_from s now [] = (none, s)
  acquire_from s now ((lo, hi) ∷ rest) =
      let lease = carve s lo hi in
      (
        some lease,
        record s {
          next_lease = s.next_lease + 1;
          pending = subtract s.pending lo lease.stop;
          active = put s.active lease;
          acquired_at = clock_put s.acquired_at s.next_lease now;
        },
      )

  unfoldable pub acquire : SegmentScheduler → ℕ → Option SegmentLease × SegmentScheduler
  unfolding acquire_from
  acquire s now = acquire_from s now s.pending

  report_on : SegmentScheduler → Option SegmentLease → ℕ → ℕ → Bool × SegmentScheduler
  report_on s none gen through = (false, s)
  report_on s (some l) gen through =
      if not (l.generation == gen)
      then (false, s)
      else if leb through l.next_offset
      then (true, s)
      else (
        true,
        record s {
          active = put s.active (record l { next_offset = min through (saturating_add l.stop 1) });
        },
      )

  unfoldable pub report_progress : SegmentScheduler → ℕ → ℕ → ℕ → Bool × SegmentScheduler
  unfolding report_on
  report_progress s id gen through = report_on s (get s.active id) gen through

  held_for : Option ℕ → ℕ → ℕ
  held_for none now = 1
  held_for (some t) now = saturating_sub now t

  unfoldable pub observe_settled :
      Option (DurationTarget fl) → Option ℕ → ℕ → ℕ → Option (DurationTarget fl)
  unfolding held_for
  observe_settled none clock now bytes = none
  observe_settled (some d) clock now bytes =
      some (record (observe fl d bytes (held_for clock now)) { last_alloc = max bytes 1 })

  -- `observe_duration_sample`.
  unfoldable pub observe_duration_sample :
      SegmentScheduler → ℕ → SegmentLease → ℕ → Option (DurationTarget fl)
  unfolding observe_settled
  observe_duration_sample s now l bytes =
      observe_settled s.duration_target (clock_get s.acquired_at l.id) now bytes

  complete_on : SegmentScheduler → ℕ → Option SegmentLease → ℕ → ℕ → Bool × SegmentScheduler
  unfolding observe_duration_sample
  complete_on s now none id gen = (false, s)
  complete_on s now (some l) id gen =
      if not (l.generation == gen)
      then (false, record s { active = put (remove s.active id) l })
      else (
        true,
        record s {
          active = remove s.active id;
          duration_target = observe_duration_sample s now l (l.stop - l.start + 1);
          acquired_at = clock_remove s.acquired_at id;
          completed = insert s.completed l.start l.stop;
        },
      )

  unfoldable pub complete : SegmentScheduler → ℕ → ℕ → ℕ → Bool × SegmentScheduler
  unfolding complete_on
  complete s now id gen = complete_on s now (get s.active id) id gen

  fail_on : SegmentScheduler → ℕ → Option SegmentLease → ℕ → ℕ → Bool × SegmentScheduler
  unfolding observe_duration_sample
  fail_on s now none id gen = (false, s)
  fail_on s now (some l) id gen =
      if not (l.generation == gen)
      then (false, record s { active = put (remove s.active id) l })
      else (
        true,
        record s {
          active = remove s.active id;
          duration_target = observe_duration_sample s now l (saturating_sub l.next_offset l.start);
          acquired_at = clock_remove s.acquired_at id;
          pending = requeue_tail l s.pending;
          completed = complete_prefix l s.completed;
        },
      )

  unfoldable pub fail : SegmentScheduler → ℕ → ℕ → ℕ → Bool × SegmentScheduler
  unfolding fail_on
  fail s now id gen = fail_on s now (get s.active id) id gen

  -- The clock goes before the generation is looked at.
  release_on : SegmentScheduler → Option SegmentLease → ℕ → ℕ → Bool × SegmentScheduler
  release_on s none id gen = (false, s)
  release_on s (some l) id gen =
      let clocks = clock_remove s.acquired_at id in
      if not (l.generation == gen)
      then (false, record s { active = put (remove s.active id) l; acquired_at = clocks })
      else (
        true,
        record s {
          active = remove s.active id;
          acquired_at = clocks;
          pending = requeue_tail l s.pending;
          completed = complete_prefix l s.completed;
        },
      )

  unfoldable pub release : SegmentScheduler → ℕ → ℕ → Bool × SegmentScheduler
  unfolding release_on
  release s id gen = release_on s (get s.active id) id gen

  resized : Option (DurationTarget fl) → ℕ → Option (DurationTarget fl)
  resized none size = none
  resized (some d) size = some (record d { last_alloc = size })

  unfoldable pub split_lease : SegmentScheduler → SegmentLease → ℕ → SegmentLease
  split_lease s l new_start = record {
    id = s.next_lease;
    generation = s.generation;
    start = new_start;
    stop = l.stop;
    next_offset = new_start;
  }

  split_on :
      SegmentScheduler
      → ℕ
      → Option SegmentLease
      → ℕ
      → ℕ
      → ℕ
      → Option SegmentLease × SegmentScheduler
  unfolding resized
  split_on s now none gen min_tail received = (none, s)
  split_on s now (some l) gen min_tail received =
      let tail_start = max l.next_offset received in
      let tail_len = saturating_add (saturating_sub l.stop tail_start) 1 in
      let new_start = split_at l tail_len in
      let new_lease = split_lease s l new_start in
      let original = record l { stop = new_start - 1 } in
      if not (l.generation == gen)
      then (none, s)
      else if leb tail_len (max min_tail 1)
      then (none, s)
      else (
        some new_lease,
        record s {
          active = put (put s.active original) new_lease;
          next_lease = s.next_lease + 1;
          duration_target = resized s.duration_target (original.stop - original.start + 1);
          acquired_at = clock_put (clock_restart s.acquired_at l.id now) s.next_lease now;
        },
      )

  unfoldable pub split_tail :
      SegmentScheduler → ℕ → ℕ → ℕ → ℕ → ℕ → Option SegmentLease × SegmentScheduler
  unfolding split_on
  split_tail s now id gen min_tail received = split_on s now (get s.active id) gen min_tail received

  unfoldable pub bump_generation : SegmentScheduler → SegmentScheduler
  unfolding drain
  bump_generation s =
      let (pending, completed) = drain s.active s.pending s.completed in
      record s {
        generation = s.generation + 1;
        active = [];
        pending = pending;
        completed = completed;
      }

  unfoldable pub set_ready_work_divisor : SegmentScheduler → ℕ → SegmentScheduler
  set_ready_work_divisor s divisor = record s {
    policy = record s.policy { ready_work_divisor = divisor };
  }

  offset_of : Option SegmentLease → Option ℕ
  offset_of none = none
  offset_of (some l) = some l.next_offset

  unfoldable pub lease_next_offset : SegmentScheduler → ℕ → Option ℕ
  unfolding offset_of
  lease_next_offset s id = offset_of (get s.active id)

  -- The accepted delta of one published record.
  accept_delta : Bool × SegmentScheduler → ℕ → ℕ → ℕ × SegmentScheduler
  unfolding lease_next_offset
  accept_delta (false, s) id before = (0, s)
  accept_delta (true, s) id before = (
    elim (lease_next_offset s id) [
      | none ↦ saturating_sub before before
      | some after ↦ saturating_sub after before
    ],
    s,
  )

  absorb_from : SegmentScheduler → ProgressRecord → Option ℕ → ℕ × SegmentScheduler
  unfolding accept_delta report_progress
  absorb_from s r none = (0, s)
  absorb_from s r (some before) =
      accept_delta (report_progress s r.lease_id r.record_generation r.written_through) r.lease_id
        before

  unfoldable pub absorb_cell : SegmentScheduler → Option ProgressRecord → ℕ × SegmentScheduler
  unfolding absorb_from lease_next_offset
  absorb_cell s none = (0, s)
  absorb_cell s (some r) = absorb_from s r (lease_next_offset s r.lease_id)

  unfoldable pub absorb_worker_progress :
      SegmentScheduler → List (Option ProgressRecord) → List ℕ × SegmentScheduler
  unfolding absorb_cell
  absorb_worker_progress s [] = ([], s)
  absorb_worker_progress s (cell ∷ cells) =
      let (delta, s') = absorb_cell s cell in
      let (deltas, s'') = absorb_worker_progress s' cells in (delta ∷ deltas, s'')
