-- ===== src/Scheduler/Core/Clocks.antt =====
-- The clocks of the leases, crates/engine/src/scheduler/core.rs: no lease has two of them, and what
-- the samples of `complete` read from them.
use kdown.Prelude.{
  ℕ, ◌+◌, ◌-◌, max, ◌≡◌, ◌≢◌, inl, inr, refl, Bool, true, false, not, Option, none, some, List, [],
  ◌∷◌, ◌==◌, saturating_sub, arith, Bool-cases, eq→==, if_elim, leb,
}
use kdown.Interval.{ByteRange, IntervalSet}
use kdown.Scheduler.Lease.{SegmentLease, get, get-id}
use kdown.Scheduler.Policy.{Floats, SchedulerPolicy, DurationTarget, observe}
use kdown.Scheduler.Core.Invariant.{Inv}
use kdown.Scheduler.Core.Settle.{release_stale_lem}
use kdown.Scheduler.Core.Trace.{
  Call, acquires, reports, completes, fails, releases, splits, bumps, sets_divisor, step, run,
}
use kdown.Scheduler.Core.{
  Clocks, SegmentScheduler, initialize, clock_get, clock_remove, clock_put, clock_restart, acquire,
  acquire_from, report_progress, report_on, complete, complete_on, fail, fail_on, release,
  release_on, split_tail, split_on, bump_generation, set_ready_work_divisor,
}

-- No lease has two clocks.
abbrev pub IsOnce : Clocks → Type 0
IsOnce [] = Unit {0}
IsOnce ((j, t) ∷ cs) = (clock_get cs j ≡ none) × IsOnce cs

remove-absent :
    (cs : Clocks) (id j : ℕ) → clock_get cs j ≡ none → clock_get (clock_remove cs id) j ≡ none
unfolding clock_get clock_remove
remove-absent [] id j h = refl
remove-absent ((i, t) ∷ cs) id j h = ground (arith, remove-absent cs id j)

remove_none : (cs : Clocks) (id : ℕ) → clock_get cs id ≡ none → clock_remove cs id ≡ cs
unfolding clock_get clock_remove
remove_none [] id h = refl
remove_none ((i, t) ∷ cs) id h = ground (arith, remove_none cs id)

get-clock_remove : (cs : Clocks) (id : ℕ) → IsOnce cs → clock_get (clock_remove cs id) id ≡ none
unfolding clock_get clock_remove
get-clock_remove [] id v = refl
get-clock_remove ((i, t) ∷ cs) id v = ground (arith, get-clock_remove cs id v.1, v.0)

restart-absent :
    (cs : Clocks) (id t j : ℕ) → clock_get cs j ≡ none → clock_get (clock_restart cs id t) j ≡ none
unfolding clock_get clock_restart
restart-absent [] id t j h = refl
restart-absent ((i, u) ∷ cs) id t j h = ground (arith, restart-absent cs id t j)

clock_remove-IsOnce : (cs : Clocks) (id : ℕ) → IsOnce cs → IsOnce (clock_remove cs id)
unfolding clock_remove
clock_remove-IsOnce [] id v = tt
clock_remove-IsOnce ((i, t) ∷ cs) id v = elim (Bool-cases (i == id)) [
  | inl e ↦ rw e v.1
  | inr e ↦ rw e (remove-absent cs id i v.0, clock_remove-IsOnce cs id v.1)
]

clock_restart-IsOnce : (cs : Clocks) (id t : ℕ) → IsOnce cs → IsOnce (clock_restart cs id t)
unfolding clock_restart
clock_restart-IsOnce [] id t v = tt
clock_restart-IsOnce ((i, u) ∷ cs) id t v = elim (Bool-cases (i == id)) [
  | inl e ↦ rw e (v.0, v.1)
  | inr e ↦ rw e (restart-absent cs id t i v.0, clock_restart-IsOnce cs id t v.1)
]

clock_put-IsOnce : (cs : Clocks) (id t : ℕ) → IsOnce cs → IsOnce (clock_put cs id t)
unfolding clock_put
clock_put-IsOnce cs id t v = (get-clock_remove cs id v, clock_remove-IsOnce cs id v)

module _ {fl : Floats} (s : SegmentScheduler fl) (v : IsOnce s.acquired_at) where
  complete_on-IsOnce :
      (now id gen : ℕ) (o : Option SegmentLease)
      → IsOnce (complete_on fl s now o id gen).1.acquired_at
  unfolding complete_on
  complete_on-IsOnce now id gen none = v
  complete_on-IsOnce now id gen (some l) = elim (Bool-cases (l.generation == gen)) [
    | inl e ↦ rw e (clock_remove-IsOnce s.acquired_at id v)
    | inr e ↦ rw e v
  ]

  fail_on-IsOnce :
      (now id gen : ℕ) (o : Option SegmentLease) → IsOnce (fail_on fl s now o id gen).1.acquired_at
  unfolding fail_on
  fail_on-IsOnce now id gen none = v
  fail_on-IsOnce now id gen (some l) = elim (Bool-cases (l.generation == gen)) [
    | inl e ↦ rw e (clock_remove-IsOnce s.acquired_at id v)
    | inr e ↦ rw e v
  ]

  release_on-IsOnce :
      (id gen : ℕ) (o : Option SegmentLease) → IsOnce (release_on fl s o id gen).1.acquired_at
  unfolding release_on
  release_on-IsOnce id gen none = v
  release_on-IsOnce id gen (some l) = elim (Bool-cases (l.generation == gen)) [
    | inl e ↦ rw e (clock_remove-IsOnce s.acquired_at id v)
    | inr e ↦ rw e (clock_remove-IsOnce s.acquired_at id v)
  ]

  report_on-IsOnce :
      (gen through : ℕ) (o : Option SegmentLease)
      → IsOnce (report_on fl s o gen through).1.acquired_at
  unfolding report_on
  report_on-IsOnce gen through none = v
  report_on-IsOnce gen through (some l) =
      if_elim (λ (r : Bool × SegmentScheduler fl). IsOnce r.1.acquired_at)
        (not (l.generation == gen)) (λ a. v)
        (λ a.
          if_elim (λ (r : Bool × SegmentScheduler fl). IsOnce r.1.acquired_at)
            (leb through l.next_offset) (λ b. v) (λ b. v))

  split_on-IsOnce :
      (now gen min_tail received : ℕ) (o : Option SegmentLease)
      → IsOnce (split_on fl s now o gen min_tail received).1.acquired_at
  unfolding split_on
  split_on-IsOnce now gen min_tail received none = v
  split_on-IsOnce now gen min_tail received (some l) =
      if_elim (λ (r : Option SegmentLease × SegmentScheduler fl). IsOnce r.1.acquired_at)
        (not (l.generation == gen)) (λ a. v)
        (λ a.
          if_elim (λ (r : Option SegmentLease × SegmentScheduler fl). IsOnce r.1.acquired_at) _
            (λ b. v)
            (λ b.
              clock_put-IsOnce (clock_restart s.acquired_at l.id now) s.next_lease now
                (clock_restart-IsOnce s.acquired_at l.id now v)))

  acquire_from-IsOnce :
      (now : ℕ) (gaps : IntervalSet) → IsOnce (acquire_from fl s now gaps).1.acquired_at
  unfolding acquire_from
  acquire_from-IsOnce now [] = v
  acquire_from-IsOnce now ((lo, hi) ∷ rest) = clock_put-IsOnce s.acquired_at s.next_lease now v

-- No call gives a lease a second clock.
step-IsOnce :
    {fl : Floats} (s : SegmentScheduler fl) (c : Call)
    → IsOnce s.acquired_at
    → IsOnce (step fl s c).acquired_at
unfolding step acquire report_progress complete fail release split_tail bump_generation
    set_ready_work_divisor
step-IsOnce s (acquires now) v = acquire_from-IsOnce s v now s.pending
step-IsOnce s (reports id gen through) v = report_on-IsOnce s v gen through (get s.active id)
step-IsOnce s (completes now id gen) v = complete_on-IsOnce s v now id gen (get s.active id)
step-IsOnce s (fails now id gen) v = fail_on-IsOnce s v now id gen (get s.active id)
step-IsOnce s (releases id gen) v = release_on-IsOnce s v id gen (get s.active id)
step-IsOnce s (splits now id gen min_tail received) v =
    split_on-IsOnce s v now gen min_tail received (get s.active id)
step-IsOnce s bumps v = v
step-IsOnce s (sets_divisor n) v = v

run-IsOnce :
    {fl : Floats} (s : SegmentScheduler fl) (cs : List Call)
    → IsOnce s.acquired_at
    → IsOnce (run fl s cs).acquired_at
unfolding run
run-IsOnce s [] v = v
run-IsOnce {fl} s (c ∷ cs) v = run-IsOnce (step fl s c) cs (step-IsOnce s c v)

-- In any history no lease has two clocks.
pub run-initialize-IsOnce :
    (fl : Floats) (total : ℕ) (ranges : List ByteRange) (p : SchedulerPolicy) (cs : List Call)
    → IsOnce (run fl (initialize fl total ranges p) cs).acquired_at
unfolding initialize
run-initialize-IsOnce fl total ranges p cs = run-IsOnce (initialize fl total ranges p) cs tt

-- The sample of a lease that is complete after `held` milliseconds.
abbrev pub sampled :
    {fl : Floats} → DurationTarget fl → SegmentLease → ℕ → Option (DurationTarget fl)
sampled {fl} d l held =
    let bytes = l.stop - l.start + 1 in
    some (record (observe fl d bytes held) { last_alloc = max bytes 1 })

-- In a state with the invariant, where no lease has two clocks and segments are sized by duration,
-- let an active lease have a clock and a `release` of it be made with another generation. It is
-- refused, and a later `complete` of the lease succeeds as it does without it, with the same state
-- but for the duration estimate: `complete` alone samples the time since the clock, and after the
-- stale `release` it samples one millisecond.
pub release_stale_clock :
    {fl : Floats} (s : SegmentScheduler fl) (now id gen t : ℕ) (l : SegmentLease)
    (d : DurationTarget fl)
    → Inv s
    → IsOnce s.acquired_at
    → get s.active id ≡ some l
    → l.generation ≢ gen
    → s.duration_target ≡ some d
    → clock_get s.acquired_at id ≡ some t
    → let kept = complete fl s now id l.generation in
      ((release fl s id gen).0 ≡ false)
      × (kept.0 ≡ true)
      × (kept.1.duration_target ≡ sampled d l (saturating_sub now t))
      × (complete fl (release fl s id gen).1 now id l.generation
          ≡ (true, record kept.1 { duration_target = sampled d l 1 }))
unfolding complete
release_stale_clock {fl} s now id gen t l d v once found stale target clock =
    let same : l.id ≡ id = get-id s.active id found in
    let gone : clock_get (clock_remove s.acquired_at id) id ≡ none =
      get-clock_remove s.acquired_at id once in
    let twice : clock_remove (clock_remove s.acquired_at id) id ≡ clock_remove s.acquired_at id =
      remove_none (clock_remove s.acquired_at id) id gone in
    rw
      (
        release_stale_lem s id gen l v found stale,
        found,
        eq→== l.generation l.generation refl,
        same,
        target,
        clock,
        gone,
        twice,
      )
      (refl, refl, refl, refl)
