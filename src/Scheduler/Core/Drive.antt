-- ===== src/Scheduler/Core/Drive.antt =====
-- A worker that acquires and completes leases until there is none comes to the end of the file.
use kdown.Prelude.{
  ℕ, zero, suc, ◌-◌, ◌<◌, ◌≡◌, refl, sym, ap, ◌∙◌, subst, inl, inr, Bool, true, Option, none, some,
  [], ◌∷◌, arith, eq→==, sum_by, All,
}
use kdown.Interval.{IntervalSet, is_empty, len}
use kdown.Scheduler.Lease.{SegmentLease, get, put, remove, remaining}
use kdown.Scheduler.Policy.{Floats}
use kdown.Scheduler.Core.Invariant.{Inv, IsLease}
use kdown.Scheduler.Core.Settle.{complete-Inv}
use kdown.Scheduler.Core.Acquire.{acquire-Inv, acquire_gives}
use kdown.Scheduler.Core.Accounting.{bytes_add_up, is_finished-is_complete, lease_parts}
use kdown.Scheduler.Core.Queries.{
  is_nil, is_finished, is_complete, active_bytes, pending_bytes, acknowledged_bytes,
}
use kdown.Scheduler.Core.{SegmentScheduler, carve, acquire_from, acquire, complete_on, complete}

module _ (fl : Floats) where
  drive_on :
      (SegmentScheduler fl → SegmentScheduler fl)
      → Option SegmentLease × SegmentScheduler fl
      → SegmentScheduler fl
  drive_on next (none, s) = s
  drive_on next (some l, s) = next (complete fl s 0 l.id l.generation).1

  -- Rounds of `acquire` and `complete`, while leases are given.
  pub drive : ℕ → SegmentScheduler fl → SegmentScheduler fl
  drive zero s = s
  drive (suc fuel) s = drive_on (drive fuel) (acquire fl s 0)

get_only : (l : SegmentLease) → get (l ∷ []) l.id ≡ some l
unfolding get
get_only l = rw (eq→== l.id l.id refl)

put_only : (a : SegmentLease) → put [] a ≡ a ∷ []
unfolding put
put_only a = refl

remove_only : (l : SegmentLease) → remove (l ∷ []) l.id ≡ []
unfolding remove
remove_only l = rw (eq→== l.id l.id refl)

module _ {fl : Floats} (s : SegmentScheduler fl) (l : SegmentLease) where
  -- The only lease of a scheduler is completed.
  abbrev Settled : Bool × SegmentScheduler fl → Type 0
  Settled r = (r.1.active ≡ []) × (r.1.pending ≡ s.pending)

  complete_found : s.active ≡ l ∷ [] → Settled (complete_on fl s 0 (some l) l.id l.generation)
  unfolding complete_on
  complete_found e =
      rw (eq→== l.generation l.generation refl) (ap (λ a. remove a l.id) e ∙ remove_only l, refl)

  complete_only : s.active ≡ l ∷ [] → Settled (complete fl s 0 l.id l.generation)
  unfolding complete
  complete_only e =
      subst (λ o. Settled (complete_on fl s 0 o l.id l.generation))
        (sym (ap (λ a. get a l.id) e ∙ get_only l)) (complete_found e)

  -- The first lease of a scheduler is the only one.
  abbrev First : Option SegmentLease × SegmentScheduler fl → Type 0
  First r = (r.1.active ≡ l ∷ []) × (r.1.completed ≡ s.completed) × (r.1.total_size ≡ s.total_size)

  acquire_from-First :
      (m : IntervalSet)
      → s.active ≡ []
      → (acquire_from fl s 0 m).0 ≡ some l
      → First (acquire_from fl s 0 m)
  unfolding acquire_from
  acquire_from-First [] e g = cc
  acquire_from-First ((lo, hi) ∷ rest) e g =
      (ap (λ a. put a (carve fl s lo hi)) e ∙ put_only (carve fl s lo hi) ∙ cc, refl, refl)

  acquire-First : s.active ≡ [] → (acquire fl s 0).0 ≡ some l → First (acquire fl s 0)
  unfolding acquire
  acquire-First e g = acquire_from-First s.pending e g

module _ {fl : Floats} where
  -- A round makes the pending bytes fewer.
  round_shrinks :
      (s t : SegmentScheduler fl) (l : SegmentLease)
      → Inv s
      → Inv t
      → s.active ≡ []
      → First s l (none, t)
      → pending_bytes fl t < pending_bytes fl s
  unfolding active_bytes acknowledged_bytes
  round_shrinks s t l v w e f =
      let live : IsLease t.generation t.total_size l =
        (subst (All (IsLease t.generation t.total_size)) f.0 w.leases).0 in
      omega (
        arith,
        bytes_add_up s v,
        bytes_add_up t w,
        ap (sum_by remaining) e,
        ap (sum_by (λ a. a.next_offset - a.start)) e,
        ap (sum_by remaining) f.0,
        ap (sum_by (λ a. a.next_offset - a.start)) f.0,
        ap len f.1,
        f.2,
        lease_parts t.generation t.total_size l live,
        live.ordered,
      )

  drive_on-none :
      (k : SegmentScheduler fl → SegmentScheduler fl) (s : SegmentScheduler fl)
      → drive_on fl k (none, s) ≡ s
  unfolding drive_on
  drive_on-none k s = refl

  drive_on-some :
      (k : SegmentScheduler fl → SegmentScheduler fl)
      (r : Option SegmentLease × SegmentScheduler fl) (l : SegmentLease)
      → r.0 ≡ some l
      → drive_on fl k r ≡ k (complete fl r.1 0 l.id l.generation).1
  unfolding drive_on
  drive_on-some k (none, t) l h = cc
  drive_on-some k (some a, t) l h =
      let same : a ≡ l = cc in ap (λ b. k (complete fl t 0 b.id b.generation).1) same

  pending_bytes_same :
      (s t : SegmentScheduler fl) → s.pending ≡ t.pending → pending_bytes fl s ≡ pending_bytes fl t
  unfolding pending_bytes
  pending_bytes_same s t h = ap len h

  pending_bytes_nil :
      (s : SegmentScheduler fl) → s.pending ≡ [] → s.active ≡ [] → is_finished fl s ≡ true
  unfolding is_finished
  pending_bytes_nil s e g = rw (ap is_empty e, ap is_nil g)

  -- From a state with the invariant and no active lease, rounds of acquiring a lease and
  -- completing it, one more than there are pending bytes, complete the file.
  pub drive_completes :
      (fuel : ℕ) (s : SegmentScheduler fl)
      → Inv s
      → s.active ≡ []
      → pending_bytes fl s < fuel
      → is_complete fl (drive fl fuel s) ≡ true
  unfolding drive
  drive_completes zero s v e h = absurd (omega arith)
  drive_completes (suc fuel) s v e h = elim (acquire_gives s v 0) [
    | inl (empty, same) ↦
        rw (same, drive_on-none (drive fl fuel) s)
          ((is_finished-is_complete s v).0 (pending_bytes_nil s empty e))
    | inr (l, given, fresh) ↦
        let t = (acquire fl s 0).1 in
        let w = acquire-Inv s v 0 in
        let first = acquire-First s l e given in
        let (none_left, same_pending) = complete_only t l first.0 in
        let less = round_shrinks s t l v w e first in
        rw (drive_on-some (drive fl fuel) (acquire fl s 0) l given) (
          drive_completes fuel (complete fl t 0 l.id l.generation).1
            (complete-Inv t w 0 l.id l.generation).0 none_left
            (omega
              (arith, pending_bytes_same (complete fl t 0 l.id l.generation).1 t same_pending)))
  ]
