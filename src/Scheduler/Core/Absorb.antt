-- ===== src/Scheduler/Core/Absorb.antt =====
-- `absorb_worker_progress` counts each accepted byte once.
use kdown.Prelude.{
  ℕ, ◌+◌, ◌-◌, min, ◌<◌, ◌≡◌, refl, sym, ap, subst, ◌⊎◌, inl, inr, true, false, Option, none, some,
  List, [], ◌∷◌, leb, ◌==◌, saturating_add, saturating_sub, arith, Bool-cases, leb→lt, eq→==,
  sum_by,
}
use kdown.Scheduler.Lease.{SegmentLease, get, put, get-put, get-id, All-get, sum_by-put_over}
use kdown.Scheduler.Policy.{Floats}
use kdown.Scheduler.Core.Invariant.{Inv, IsLease}
use kdown.Scheduler.Core.Queries.{acknowledged_bytes}
use kdown.Scheduler.Core.Reshape.{report_progress-Inv}
use kdown.Scheduler.Core.{
  SegmentScheduler, ProgressRecord, report_on, report_progress, offset_of, lease_next_offset,
  accept_delta, absorb_from, absorb_cell, absorb_worker_progress,
}

moved : SegmentLease → ℕ → SegmentLease
moved l through = record l { next_offset = min through (saturating_add l.stop 1) }

module _ {fl : Floats} where
  -- The answer of one cell: the invariant is kept, and the acknowledged bytes grow by the delta.
  abbrev Counts : SegmentScheduler fl → ℕ × SegmentScheduler fl → Type 0
  Counts s r = Inv r.1 × (acknowledged_bytes fl r.1 ≡ acknowledged_bytes fl s + r.0)

  -- A report is refused, does not move the cursor, or moves it forward.
  report_on_outcome :
      (s : SegmentScheduler fl) (l : SegmentLease) (gen through : ℕ)
      → let w = report_on fl s (some l) gen through in
        (w ≡ (false, s))
        ⊎ ((w ≡ (true, s))
            ⊎ ((l.next_offset < through)
                × (w ≡ (true, record s { active = put s.active (moved l through) }))))
  unfolding report_on moved
  report_on_outcome s l gen through = elim (Bool-cases (l.generation == gen)) [
    | inr e ↦ inl (rw e)
    | inl e ↦ elim (Bool-cases (leb through l.next_offset)) [
      | inl back ↦ inr (inl (rw (e, back)))
      | inr on ↦ inr (inr (leb→lt _ _ on, rw (e, on)))
    ]
  ]

  accept_refused :
      (s : SegmentScheduler fl) (id before : ℕ) → accept_delta fl (false, s) id before ≡ (0, s)
  unfolding accept_delta
  accept_refused s id before = refl

  accept_taken :
      (s : SegmentScheduler fl) (id before : ℕ) (b : SegmentLease)
      → get s.active id ≡ some b
      → accept_delta fl (true, s) id before ≡ (b.next_offset - before, s)
  unfolding accept_delta offset_of
  accept_taken s id before b found = rw (found, accept_delta, lease_next_offset)

  module _ (s : SegmentScheduler fl) (v : Inv s) (id : ℕ) (l : SegmentLease)
      (found : get s.active id ≡ some l) where
    moved_found : (through : ℕ) → get (put s.active (moved l through)) id ≡ some (moved l through)
    unfolding moved
    moved_found through = rw (
      get-put 0 s.next_lease id (moved l through) s.active v.ids,
      eq→== l.id id (get-id s.active id found),
    )

    moved_bytes :
        (through : ℕ)
        → l.next_offset < through
        → acknowledged_bytes fl (record s { active = put s.active (moved l through) })
          ≡ acknowledged_bytes fl s + ((moved l through).next_offset - l.next_offset)
    unfolding acknowledged_bytes moved
    moved_bytes through on =
        let live = All-get (IsLease s.generation s.total_size) s.active id v.leases found in
        omega (
          arith,
          sum_by-put_over (λ a. saturating_sub a.next_offset a.start) 0 s.next_lease s.active
              (moved l through) l v.ids
              (subst (λ j. get s.active j ≡ some l) (sym (get-id s.active id found)) found),
          live.cursor_low,
          live.cursor_high,
          live.ordered,
          live.inside_file,
          v.total_fits,
        )

    accept-Counts :
        (gen through : ℕ)
        → Inv (report_on fl s (some l) gen through).1
        → Counts s (accept_delta fl (report_on fl s (some l) gen through) id l.next_offset)
    accept-Counts gen through = elim (report_on_outcome s l gen through) [
      | inl e ↦ rw (e, accept_refused s id l.next_offset) (λ after. (after, omega arith))
      | inr (inl e) ↦
          rw (e, accept_taken s id l.next_offset l found) (λ after. (after, omega arith))
      | inr (inr (on, e)) ↦
          let s' : SegmentScheduler fl = record s { active = put s.active (moved l through) } in
          rw (e, accept_taken s' id l.next_offset (moved l through) (moved_found through))
            (λ after. (after, moved_bytes through on))
    ]

  reported :
      (s : SegmentScheduler fl) (r : ProgressRecord) (l : SegmentLease)
      → get s.active r.lease_id ≡ some l
      → report_progress fl s r.lease_id r.record_generation r.written_through
        ≡ report_on fl s (some l) r.record_generation r.written_through
  unfolding report_progress
  reported s r l h = ap (λ o. report_on _ s o r.record_generation r.written_through) h

  absorb_some :
      (s : SegmentScheduler fl) (r : ProgressRecord) (o : Option SegmentLease)
      → Inv s
      → get s.active r.lease_id ≡ o
      → Counts s (absorb_from fl s r (offset_of fl o))
  unfolding absorb_from offset_of
  absorb_some s r none v found = (v, omega arith)
  absorb_some s r (some l) v found =
      let kept = (report_progress-Inv s v r.lease_id r.record_generation r.written_through).0 in
      rw (reported s r l found) (
        accept-Counts s v r.lease_id l found r.record_generation r.written_through
          (subst (λ w. Inv w.1) (reported s r l found) kept))

  absorb_cell-Counts :
      (s : SegmentScheduler fl) (cell : Option (ProgressRecord))
      → Inv s
      → Counts s (absorb_cell fl s cell)
  unfolding absorb_cell lease_next_offset
  absorb_cell-Counts s none v = (v, omega arith)
  absorb_cell-Counts s (some r) v = absorb_some s r (get s.active r.lease_id) v refl

  -- From a state with the invariant, absorbing the workers' records keeps it, and the reported
  -- deltas add up to the growth of the acknowledged bytes: no write is counted twice, and none
  -- that was refused.
  pub absorb_worker_progress_counts :
      (s : SegmentScheduler fl) (cells : List (Option (ProgressRecord)))
      → Inv s
      → let r = absorb_worker_progress fl s cells in
        Inv r.1 × (acknowledged_bytes fl r.1 ≡ acknowledged_bytes fl s + sum_by (λ d. d) r.0)
  unfolding absorb_worker_progress
  absorb_worker_progress_counts s [] v = (v, omega arith)
  absorb_worker_progress_counts s (cell ∷ cells) v =
      let (v1, h1) = absorb_cell-Counts s cell v in
      let (v2, h2) = absorb_worker_progress_counts (absorb_cell fl s cell).1 cells v1 in
      (v2, omega (arith, h1, h2))
