-- ===== src/Scheduler/Core/Acquire.antt =====
-- `initialize`, `acquire`, `report_progress` and `split_tail` keep the partition.
use kdown.Prelude.{
  ℕ, ◌+◌, ◌-◌, ◌≤◌, ◌<◌, ◌≡◌, ◌⊎◌, refl, sym, ap, subst, inl, inr, Option, none, some, [], ◌∷◌,
  u64_max, arith,
}
use kdown.Interval.{IntervalSet, subtract}
use kdown.Interval.Coverage.{inside, hits, IsNormal, inside_in, hits-le-one}
use kdown.Interval.Laws.{subtract_difference}
use kdown.Interval.Reference.{inside-le-one}
use kdown.Scheduler.Lease.{
  SegmentLease, HasIds, HasIds-mono, get, put, put-HasIds, sum_by-put, All-put, get_fresh,
}
use kdown.Scheduler.Policy.{
  Floats, IsPolicy, Fits, DurationTarget, apply_ready_work_cap-Fits, target_len-Fits,
  next_size-Fits,
}
use kdown.Scheduler.Core.Invariant.{
  IsLease, IsPartition, Inv, owned, domain, domain-le-one, inside_short,
}
use kdown.Scheduler.Core.{
  SegmentScheduler, wanted, target_len_for_gap, carve, acquire_from, acquire,
}

wanted-Fits :
    {fl : Floats} (s : SegmentScheduler fl) (o : Option (DurationTarget fl)) (gap_len : ℕ)
    → IsPolicy s.policy
    → 1 ≤ gap_len
    → Fits (wanted fl s o gap_len) s.policy.max_segment_size gap_len
unfolding wanted
wanted-Fits s none gap_len v g = target_len-Fits s.policy v gap_len g s.resolved_target
wanted-Fits {fl} s (some d) gap_len v g = next_size-Fits s.policy v gap_len g fl d

pub target_len_for_gap-Fits :
    {fl : Floats} (s : SegmentScheduler fl) (gap_len : ℕ)
    → IsPolicy s.policy
    → 1 ≤ gap_len
    → Fits (target_len_for_gap fl s gap_len) s.policy.max_segment_size gap_len
unfolding target_len_for_gap
target_len_for_gap-Fits s gap_len v g =
    apply_ready_work_cap-Fits s.policy v gap_len g _ (wanted-Fits s s.duration_target gap_len v g)

-- The carved lease starts at the gap and stays within it and the largest segment.
pub carve_fits :
    {fl : Floats} (s : SegmentScheduler fl) (lo hi : ℕ)
    → IsPolicy s.policy
    → lo ≤ hi
    → hi < u64_max
    → let l = carve fl s lo hi in
      (l.start ≡ lo)
      × (l.next_offset ≡ lo)
      × (lo ≤ l.stop)
      × (l.stop ≤ hi)
      × (l.stop - lo + 1 ≤ s.policy.max_segment_size)
      × (l.id ≡ s.next_lease)
      × (l.generation ≡ s.generation)
unfolding carve
carve_fits s lo hi v h b =
    let f = target_len_for_gap-Fits s (hi - lo + 1) v (omega arith) in
    (refl, refl, omega (arith, f), omega (arith, f), omega (arith, f), refl, refl)

-- A fresh, unread slice of pending bytes, not longer than the largest segment.
abbrev pub IsFreshLease : {fl : Floats} → SegmentScheduler fl → SegmentLease → Type 0
IsFreshLease s l =
    IsLease s.generation s.total_size l
    × (l.next_offset ≡ l.start)
    × (l.stop - l.start + 1 ≤ s.policy.max_segment_size)
    × (get s.active l.id ≡ none)
    × ((x : ℕ) → l.start ≤ x → x ≤ l.stop → hits s.pending x ≡ 1)

module _ {fl : Floats} (s : SegmentScheduler fl) (v : Inv s) where
  -- A new lease of the next id over bytes that no lease owns.
  pub add_ids :
      (l : SegmentLease) → l.id ≡ s.next_lease → HasIds 0 (s.next_lease + 1) (put s.active l)
  add_ids l e =
      put-HasIds 0 (s.next_lease + 1) l s.active
        (HasIds-mono {a = 0} {b = 0} {top = s.next_lease} {bound = s.next_lease + 1} s.active
          (omega arith) (omega arith) v.ids)
        (omega arith) (omega arith)

  pub add_owned :
      (l : SegmentLease) (x : ℕ)
      → l.id ≡ s.next_lease
      → owned (put s.active l) x ≡ owned s.active x + inside l.start l.stop x
  add_owned l x e =
      sum_by-put (λ a. inside a.start a.stop x) s.active l
        (get_fresh 0 s.next_lease l.id s.active v.ids (omega arith))

  gap_in_file :
      (k h : ℕ) (rest : IntervalSet) → s.pending ≡ (k, h) ∷ rest → (k ≤ h) × (h < s.total_size)
  gap_in_file k h rest e =
      let n : IsNormal 0 ((k, h) ∷ rest) = subst (IsNormal 0) e v.partition.pending_normal in
      let once : hits ((k, h) ∷ rest) h + hits s.completed h + owned s.active h
          ≡ domain s.total_size h =
        subst (λ p. hits p h + hits s.completed h + owned s.active h ≡ domain s.total_size h) e
          (v.partition.once h) in
      (n.1, ground (arith, once, inside_in k h h n.1))

  first_range_hits :
      (lo hi x : ℕ) (rest : IntervalSet)
      → s.pending ≡ (lo, hi) ∷ rest
      → inside lo hi x ≤ hits s.pending x
  first_range_hits lo hi x rest e = subst (λ p. inside lo hi x ≤ hits p x) (sym e) (omega arith)

  carve-IsPartition :
      (lo hi : ℕ) (rest : IntervalSet)
      → s.pending ≡ (lo, hi) ∷ rest
      → let l = carve fl s lo hi in
        IsLease s.generation s.total_size l
        × IsPartition s.total_size (subtract s.pending lo l.stop) s.completed (put s.active l)
  carve-IsPartition lo hi rest e =
      let (ordered, in_file) = gap_in_file lo hi rest e in
      let (c1, c2, c3, c4, c5, c6, c7) =
        carve_fits s lo hi v.policy_ok ordered (omega (arith, v.total_fits)) in
      let l = carve fl s lo hi in
      let (normal, bytes) = subtract_difference s.pending lo l.stop v.partition.pending_normal in
      (
        record {
          current = c7;
          ordered = omega arith;
          inside_file = omega arith;
          cursor_low = omega arith;
          cursor_high = omega arith;
        },
        record {
          pending_normal = normal;
          completed_normal = v.partition.completed_normal;
          once = λ x. omega (
            arith,
            bytes x,
            add_owned l x c6,
            v.partition.once x,
            domain-le-one s.total_size x,
            ap (λ a. inside a l.stop x) c1,
            inside_short lo l.stop hi x c4,
            first_range_hits lo hi x rest e,
            inside-le-one lo l.stop x,
          );
        },
      )

  acquire_from-Inv : (now : ℕ) (m : IntervalSet) → s.pending ≡ m → Inv (acquire_from fl s now m).1
  unfolding acquire_from
  acquire_from-Inv now [] e = v
  acquire_from-Inv now ((lo, hi) ∷ rest) e =
      let (lease, partition) = carve-IsPartition lo hi rest e in
      let l = carve fl s lo hi in
      let (ordered, in_file) = gap_in_file lo hi rest e in
      let c = carve_fits s lo hi v.policy_ok ordered (omega (arith, v.total_fits)) in
      record {
        policy_ok = v.policy_ok;
        total_fits = v.total_fits;
        ids = add_ids l c.5;
        leases = All-put (IsLease s.generation s.total_size) s.active l lease v.leases;
        partition = partition;
      }

  -- `acquire` keeps the invariant.
  pub acquire-Inv : (now : ℕ) → Inv (acquire fl s now).1
  unfolding acquire
  acquire-Inv now = acquire_from-Inv now s.pending refl

  acquire_from_gives :
      (now : ℕ) (m : IntervalSet)
      → s.pending ≡ m
      → ((m ≡ []) × (acquire_from fl s now m ≡ (none, s)))
        ⊎ ((l : SegmentLease) × ((acquire_from fl s now m).0 ≡ some l) × IsFreshLease s l)
  unfolding acquire_from
  acquire_from_gives now [] e = inl (refl, refl)
  acquire_from_gives now ((lo, hi) ∷ rest) e =
      let (lease, partition) = carve-IsPartition lo hi rest e in
      let l = carve fl s lo hi in
      let (ordered, in_file) = gap_in_file lo hi rest e in
      let (c1, c2, c3, c4, c5, c6, c7) =
        carve_fits s lo hi v.policy_ok ordered (omega (arith, v.total_fits)) in
      inr (
        l,
        refl,
        (
          lease,
          omega arith,
          omega arith,
          get_fresh 0 s.next_lease l.id s.active v.ids (omega arith),
          λ x a b. omega (
            arith,
            first_range_hits lo hi x rest e,
            hits-le-one 0 x s.pending v.partition.pending_normal,
            inside_in lo hi x,
          ),
        ),
      )

  -- In a state with the invariant `acquire` gives no lease exactly if nothing is pending, and
  -- changes nothing then; else it gives a slice of pending bytes under an id that is not in use,
  -- not longer than the largest segment.
  pub acquire_gives :
      (now : ℕ)
      → ((s.pending ≡ []) × (acquire fl s now ≡ (none, s)))
        ⊎ ((l : SegmentLease) × ((acquire fl s now).0 ≡ some l) × IsFreshLease s l)
  unfolding acquire
  acquire_gives now = acquire_from_gives now s.pending refl
