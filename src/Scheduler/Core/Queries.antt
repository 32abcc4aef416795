-- ===== src/Scheduler/Core/Queries.antt =====
-- The queries of `SegmentScheduler`, and its own check of the accounting.
use kdown.Prelude.{
  ℕ, ◌+◌, ◌-◌, max, Bool, true, false, not, ◌&&◌, ◌||◌, Option, none, some, List, [], ◌∷◌, ltb, leb,
  ◌==◌, if◌then◌else◌, saturating_sub, sum_by,
}
use kdown.Interval.{ByteRange, IntervalSet, insert, len, is_empty}
use kdown.Scheduler.Lease.{SegmentLease, Leases, remaining, get}
use kdown.Scheduler.Policy.{Floats}
use kdown.Scheduler.Core.{SegmentScheduler}

-- The pair test of the two inner loops.
unfoldable pub touches_any : ℕ → ℕ → List ByteRange → Bool
touches_any s e [] = false
touches_any s e ((cs, ce) ∷ rs) = (leb s ce && leb cs e) || touches_any s e rs

unfoldable pub overlap : List ByteRange → List ByteRange → Bool
unfolding touches_any
overlap [] cs = false
overlap ((s, e) ∷ ps) cs = touches_any s e cs || overlap ps cs

unfoldable pub leases_clash : ℕ → IntervalSet → IntervalSet → Leases → Bool
unfolding touches_any
leases_clash total pending completed [] = false
leases_clash total pending completed (l ∷ ls) =
    (leb l.next_offset l.stop
      && (touches_any l.next_offset l.stop completed || touches_any l.next_offset l.stop pending))
    || leb total l.stop
    || leases_clash total pending completed ls

abbrev pub is_nil : Leases → Bool
is_nil [] = true
is_nil (l ∷ ls) = false

-- The loop of `settled_ranges`: the prefixes of the active leases are added.
unfoldable pub settle_prefixes : Leases → IntervalSet → IntervalSet
settle_prefixes [] m = m
settle_prefixes (l ∷ ls) m =
    settle_prefixes ls
      (if ltb l.start l.next_offset then insert m l.start (l.next_offset - 1) else m)

-- The loop of `largest_splittable`: of equal leases the last counts.
unfoldable pub largest_from : ℕ → Option SegmentLease → Leases → Option SegmentLease
largest_from bound best [] = best
largest_from bound none (l ∷ ls) =
    largest_from bound (if ltb bound (remaining l) then some l else none) ls
largest_from bound (some b) (l ∷ ls) =
    largest_from bound
      (if ltb bound (remaining l) && leb (remaining b) (remaining l) then some l else some b) ls

module _ (fl : Floats) where
  unfoldable pub has_active : SegmentScheduler fl → Bool
  has_active s = not (is_nil s.active)

  unfoldable pub is_finished : SegmentScheduler fl → Bool
  unfolding is_empty
  is_finished s = is_empty s.pending && is_nil s.active

  unfoldable pub is_complete : SegmentScheduler fl → Bool
  is_complete s = s.total_size == 0 || len s.completed == s.total_size

  unfoldable pub active_bytes : SegmentScheduler fl → ℕ
  active_bytes s = sum_by remaining s.active

  unfoldable pub pending_bytes : SegmentScheduler fl → ℕ
  pending_bytes s = len s.pending

  -- `acknowledged_prefix`.
  unfoldable pub acknowledged_bytes : SegmentScheduler fl → ℕ
  acknowledged_bytes s = sum_by (λ l. saturating_sub l.next_offset l.start) s.active

  unfoldable pub largest_splittable : SegmentScheduler fl → ℕ → Option SegmentLease
  unfolding largest_from
  largest_splittable s min_tail = largest_from (max min_tail 1) none s.active

  unfoldable pub settled_ranges : SegmentScheduler fl → List ByteRange
  unfolding settle_prefixes
  settled_ranges s = settle_prefixes s.active s.completed

  end_if_current : Option SegmentLease → ℕ → Option ℕ
  end_if_current none gen = none
  end_if_current (some l) gen = if not (l.generation == gen) then none else some l.stop

  unfoldable pub lease_end : SegmentScheduler fl → ℕ → ℕ → Option ℕ
  unfolding end_if_current
  lease_end s id gen = end_if_current (get s.active id) gen

  unfoldable pub invariants_hold : SegmentScheduler fl → Bool
  unfolding overlap leases_clash active_bytes pending_bytes acknowledged_bytes is_empty
  invariants_hold s =
      if s.total_size == 0
      then is_empty s.pending && is_nil s.active && is_empty s.completed
      else if overlap s.pending s.completed
      then false
      else if leases_clash s.total_size s.pending s.completed s.active
      then false
      else len s.completed + active_bytes s + pending_bytes s + acknowledged_bytes s == s.total_size
