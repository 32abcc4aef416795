-- ===== src/Scheduler/Core/Reshape.antt =====
-- `report_progress` and `split_tail` keep the partition.
use kdown.Prelude.{
  ℕ, ◌+◌, ◌-◌, min, max, ◌≤◌, ◌<◌, ◌≡◌, refl, sym, subst, inl, inr, false, Option, none, some, leb,
  ◌==◌, All, arith, lt-cases, Bool-cases, leb→lt, saturating_add, saturating_sub,
}
use kdown.Interval.Coverage.{inside}
use kdown.Scheduler.Lease.{
  SegmentLease, Leases, HasIds, HasIds-mono, get, put, put-HasIds, sum_by-put, sum_by-put_over,
  All-put, All-get, get_fresh, get-id,
}
use kdown.Scheduler.Policy.{Floats}
use kdown.Scheduler.Core.Invariant.{IsLease, IsPartition, Inv, owned, inside_cut}
use kdown.Scheduler.Core.{
  SegmentScheduler, report_on, report_progress, split_at, split_lease, split_on, split_tail,
}

get_top :
    (lo top id : ℕ) (ls : Leases) {l : SegmentLease}
    → HasIds lo top ls
    → get ls id ≡ some l
    → id < top
get_top lo top id ls h found = elim (lt-cases id top) [
  | inl below ↦ below
  | inr above ↦ absurd (ground (arith, get_fresh lo top id ls h above))
]

module _ {fl : Floats} (s : SegmentScheduler fl) (v : Inv s) where
  -- A lease may move its cursor within its range, or give up its tail.
  rewrite_active :
      (l a : SegmentLease)
      → get s.active a.id ≡ some l
      → IsLease s.generation s.total_size a
      → HasIds 0 s.next_lease (put s.active a)
        × All (IsLease s.generation s.total_size) (put s.active a)
        × ((x : ℕ)
            → owned (put s.active a) x + inside l.start l.stop x
              ≡ owned s.active x + inside a.start a.stop x)
  rewrite_active l a found lease = (
    put-HasIds 0 s.next_lease a s.active v.ids (omega arith)
        (get_top 0 s.next_lease a.id s.active v.ids found),
    All-put (IsLease s.generation s.total_size) s.active a lease v.leases,
    λ x. sum_by-put_over (λ b. inside b.start b.stop x) 0 s.next_lease s.active a l v.ids found,
  )

  report_on-Inv :
      (id gen through : ℕ) (o : Option SegmentLease)
      → get s.active id ≡ o
      → Inv (report_on fl s o gen through).1
        × ((report_on fl s o gen through).0 ≡ false → (report_on fl s o gen through).1 ≡ s)
  unfolding report_on
  report_on-Inv id gen through none found = (v, λ h. refl)
  report_on-Inv id gen through (some l) found = elim (Bool-cases (l.generation == gen)) [
    | inr e ↦ rw e (v, λ h. refl)
    | inl e ↦ rw e (elim (Bool-cases (leb through l.next_offset)) [
      | inl back ↦ rw back (v, λ h. refl)
      | inr on ↦
          let live = All-get (IsLease s.generation s.total_size) s.active id v.leases found in
          let a : SegmentLease = record l { next_offset = min through (saturating_add l.stop 1) } in
          let same_id = get-id s.active id found in
          let (ids, leases, bytes) =
            rewrite_active l a (subst (λ j. get s.active j ≡ some l) (sym same_id) found) (record {
              current = live.current;
              ordered = live.ordered;
              inside_file = live.inside_file;
              cursor_low = omega (
                arith,
                leb→lt _ _ on,
                live.cursor_low,
                live.ordered,
                live.inside_file,
                v.total_fits,
              );
              cursor_high = omega arith;
            }) in
          rw on (
            record {
              policy_ok = v.policy_ok;
              total_fits = v.total_fits;
              ids = ids;
              leases = leases;
              partition = record {
                pending_normal = v.partition.pending_normal;
                completed_normal = v.partition.completed_normal;
                once = λ x. omega (arith, bytes x, v.partition.once x);
              };
            },
            λ h. cc,
          )
    ])
  ]

  -- `report_progress` keeps the invariant, and changes nothing when it answers `false`.
  pub report_progress-Inv :
      (id gen through : ℕ)
      → Inv (report_progress fl s id gen through).1
        × ((report_progress fl s id gen through).0 ≡ false
            → (report_progress fl s id gen through).1 ≡ s)
  unfolding report_progress
  report_progress-Inv id gen through = report_on-Inv id gen through (get s.active id) refl

module _ {fl : Floats} (s : SegmentScheduler fl) (v : Inv s) where
  -- The tail that a split takes is not empty, and leaves the original lease its cursor.
  split_at_bounds :
      (l : SegmentLease) (received : ℕ)
      → IsLease s.generation s.total_size l
      → let tail_start = max l.next_offset received in
        let tail_len = saturating_add (saturating_sub l.stop tail_start) 1 in
        1 < tail_len → (tail_start < split_at l tail_len) × (split_at l tail_len ≤ l.stop)
  unfolding split_at
  split_at_bounds l received live h = omega (arith, live.ordered, live.inside_file, v.total_fits)

  -- The state after a split, for a new lease that starts between the cursor and the end.
  split-IsPartition :
      (id cut : ℕ) (l : SegmentLease)
      → get s.active id ≡ some l
      → l.next_offset < cut
      → cut ≤ l.stop
      → let original = record l { stop = cut - 1 } in
        let active = put (put s.active original) (split_lease fl s l cut) in
        HasIds 0 (s.next_lease + 1) active
        × All (IsLease s.generation s.total_size) active
        × IsPartition s.total_size s.pending s.completed active
  unfolding split_lease
  split-IsPartition id cut l found low high =
      let live = All-get (IsLease s.generation s.total_size) s.active id v.leases found in
      let original : SegmentLease = record l { stop = cut - 1 } in
      let new_lease : SegmentLease = split_lease fl s l cut in
      let (ids, leases, bytes) =
        rewrite_active s v l original
          (subst (λ j. get s.active j ≡ some l) (sym (get-id s.active id found)) found)
          (record {
            current = live.current;
            ordered = omega (arith, live.cursor_low);
            inside_file = omega (arith, live.inside_file);
            cursor_low = live.cursor_low;
            cursor_high = omega arith;
          }) in
      let fresh = get_fresh 0 s.next_lease s.next_lease (put s.active original) ids (omega arith) in
      (
        put-HasIds 0 (s.next_lease + 1) new_lease (put s.active original)
            (HasIds-mono {a = 0} {b = 0} {top = s.next_lease} {bound = s.next_lease + 1}
              (put s.active original) (omega arith) (omega arith) ids)
            (omega arith) (omega arith),
        All-put (IsLease s.generation s.total_size) (put s.active original) new_lease
            (record {
              current = refl;
              ordered = high;
              inside_file = live.inside_file;
              cursor_low = omega arith;
              cursor_high = omega arith;
            })
            leases,
        record {
          pending_normal = v.partition.pending_normal;
          completed_normal = v.partition.completed_normal;
          once = λ x. omega (
            arith,
            bytes x,
            v.partition.once x,
            sum_by-put (λ b. inside b.start b.stop x) (put s.active original) new_lease fresh,
            inside_cut l.start cut l.stop x (omega (arith, live.cursor_low)) (omega arith),
          );
        },
      )

  split_on-Inv :
      (now id gen min_tail received : ℕ) (o : Option SegmentLease)
      → get s.active id ≡ o
      → Inv (split_on fl s now o gen min_tail received).1
  unfolding split_on
  split_on-Inv now id gen min_tail received none found = v
  split_on-Inv now id gen min_tail received (some l) found =
      let live = All-get (IsLease s.generation s.total_size) s.active id v.leases found in
      let tail_len = saturating_add (saturating_sub l.stop (max l.next_offset received)) 1 in
      elim (Bool-cases (l.generation == gen)) [
        | inr e ↦ rw e v
        | inl e ↦ rw e (elim (Bool-cases (leb tail_len (max min_tail 1))) [
          | inl small ↦ rw small v
          | inr large ↦
              let (low, high) = split_at_bounds l received live (omega (arith, leb→lt _ _ large)) in
              let (ids, leases, partition) =
                split-IsPartition id (split_at l tail_len) l found (omega arith) high in
              rw large (record {
                policy_ok = v.policy_ok;
                total_fits = v.total_fits;
                ids = ids;
                leases = leases;
                partition = partition;
              })
        ])
      ]

  -- `split_tail` keeps the invariant.
  pub split_tail-Inv :
      (now id gen min_tail received : ℕ) → Inv (split_tail fl s now id gen min_tail received).1
  unfolding split_tail
  split_tail-Inv now id gen min_tail received =
      split_on-Inv now id gen min_tail received (get s.active id) refl
