-- ===== src/Scheduler/Core/Monotone.antt =====
-- A complete byte stays complete, whatever is called.
use kdown.Prelude.{
  ℕ, ◌-◌, max, ◌≤◌, ◌≡◌, refl, inl, inr, Option, none, some, List, [], ◌∷◌, leb, ◌==◌, u64_max,
  saturating_add, saturating_sub, arith, lt-cases, Bool-cases, lt→ltb, le→ltb, All,
}
use native.Mathlib.Nat.{le_refl, le_trans}
use kdown.Interval.{IntervalSet, insert}
use kdown.Interval.Coverage.{hits, IsNormal}
use kdown.Interval.Laws.{insert_union}
use kdown.Scheduler.Lease.{SegmentLease, Leases, get, All-get}
use kdown.Scheduler.Policy.{Floats}
use kdown.Scheduler.Core.Invariant.{Inv, IsLease}
use kdown.Scheduler.Core.Trace.{
  Call, acquires, reports, completes, fails, releases, splits, bumps, sets_divisor, step, run,
  step-Inv,
}
use kdown.Scheduler.Core.{
  SegmentScheduler, acquire, acquire_from, report_progress, report_on, complete, complete_on, fail,
  fail_on, release, release_on, split_tail, split_on, bump_generation, drain, complete_prefix,
  requeue_tail, set_ready_work_divisor,
}

-- In normal form, and at least as much.
abbrev Grows : IntervalSet → IntervalSet → Type 0
Grows m m' = IsNormal 0 m' × ((x : ℕ) → hits m x ≤ hits m' x)

insert-Grows : (m : IntervalSet) (s e : ℕ) → IsNormal 0 m → e ≤ u64_max → Grows m (insert m s e)
insert-Grows m s e n b = let (n1, h1) = insert_union m s e n b in (n1, λ x. omega (arith, h1 x))

complete_prefix-Grows :
    (gen total : ℕ) (l : SegmentLease) (m : IntervalSet)
    → IsLease gen total l
    → total ≤ u64_max
    → IsNormal 0 m
    → Grows m (complete_prefix l m)
unfolding complete_prefix
complete_prefix-Grows gen total l m v fits n = elim (lt-cases l.start l.next_offset) [
  | inl some_bytes ↦
      rw (lt→ltb _ _ some_bytes)
        (insert-Grows m l.start (l.next_offset - 1) n (omega (arith, v.inside_file, v.cursor_high)))
  | inr same ↦ rw (le→ltb _ _ same) (n, λ x. le_refl (hits m x))
]

drain-Grows :
    (gen total : ℕ) (ls : Leases) (pending m : IntervalSet)
    → total ≤ u64_max
    → All (IsLease gen total) ls
    → IsNormal 0 m
    → Grows m (drain ls pending m).1
unfolding drain
drain-Grows gen total [] pending m fits v n = (n, λ x. le_refl (hits m x))
drain-Grows gen total (l ∷ ls) pending m fits v n =
    let (n1, h1) = complete_prefix-Grows gen total l m v.0 fits n in
    let (n2, h2) =
      drain-Grows gen total ls (requeue_tail l pending) (complete_prefix l m) fits v.1 n1 in
    (n2, λ x. le_trans (h1 x) (h2 x))

module _ {fl : Floats} (s : SegmentScheduler fl) (v : Inv s) where
  keeps : Grows s.completed s.completed
  keeps = (v.partition.completed_normal, λ x. le_refl (hits s.completed x))

  acquire_from-Grows :
      (now : ℕ) (m : IntervalSet) → Grows s.completed (acquire_from fl s now m).1.completed
  unfolding acquire_from
  acquire_from-Grows now [] = keeps
  acquire_from-Grows now ((lo, hi) ∷ rest) = keeps

  report_on-Grows :
      (gen through : ℕ) (o : Option SegmentLease)
      → Grows s.completed (report_on fl s o gen through).1.completed
  unfolding report_on
  report_on-Grows gen through none = keeps
  report_on-Grows gen through (some l) = elim (Bool-cases (l.generation == gen)) [
    | inr e ↦ rw e keeps
    | inl e ↦
        rw e (elim (Bool-cases (leb through l.next_offset)) [
          | inl b ↦ rw b keeps
          | inr b ↦ rw b keeps
        ])
  ]

  split_on-Grows :
      (now gen min_tail received : ℕ) (o : Option SegmentLease)
      → Grows s.completed (split_on fl s now o gen min_tail received).1.completed
  unfolding split_on
  split_on-Grows now gen min_tail received none = keeps
  split_on-Grows now gen min_tail received (some l) =
      let tail_len = saturating_add (saturating_sub l.stop (max l.next_offset received)) 1 in
      elim (Bool-cases (l.generation == gen)) [
        | inr e ↦ rw e keeps
        | inl e ↦ rw e (elim (Bool-cases (leb tail_len (max min_tail 1))) [
          | inl b ↦ rw b keeps
          | inr b ↦ rw b keeps
        ])
      ]

  live :
      (id : ℕ) (l : SegmentLease) → get s.active id ≡ some l → IsLease s.generation s.total_size l
  live id l found = All-get (IsLease s.generation s.total_size) s.active id v.leases found

  complete_on-Grows :
      (now id gen : ℕ) (o : Option SegmentLease)
      → get s.active id ≡ o
      → Grows s.completed (complete_on fl s now o id gen).1.completed
  unfolding complete_on
  complete_on-Grows now id gen none found = keeps
  complete_on-Grows now id gen (some l) found = elim (Bool-cases (l.generation == gen)) [
    | inr e ↦ rw e keeps
    | inl e ↦ rw e (
        insert-Grows s.completed l.start l.stop v.partition.completed_normal
          (omega (arith, (live id l found).inside_file, v.total_fits)))
  ]

  prefix-Grows :
      (id : ℕ) (l : SegmentLease)
      → get s.active id ≡ some l
      → Grows s.completed (complete_prefix l s.completed)
  prefix-Grows id l found =
      complete_prefix-Grows s.generation s.total_size l s.completed (live id l found) v.total_fits
        v.partition.completed_normal

  fail_on-Grows :
      (now id gen : ℕ) (o : Option SegmentLease)
      → get s.active id ≡ o
      → Grows s.completed (fail_on fl s now o id gen).1.completed
  unfolding fail_on
  fail_on-Grows now id gen none found = keeps
  fail_on-Grows now id gen (some l) found = elim (Bool-cases (l.generation == gen)) [
    | inr e ↦ rw e keeps
    | inl e ↦ rw e (prefix-Grows id l found)
  ]

  release_on-Grows :
      (id gen : ℕ) (o : Option SegmentLease)
      → get s.active id ≡ o
      → Grows s.completed (release_on fl s o id gen).1.completed
  unfolding release_on
  release_on-Grows id gen none found = keeps
  release_on-Grows id gen (some l) found = elim (Bool-cases (l.generation == gen)) [
    | inr e ↦ rw e keeps
    | inl e ↦ rw e (prefix-Grows id l found)
  ]

  step-Grows : (c : Call) → Grows s.completed (step fl s c).completed
  unfolding step acquire report_progress complete fail release split_tail bump_generation
      set_ready_work_divisor
  step-Grows (acquires now) = acquire_from-Grows now s.pending
  step-Grows (reports id gen through) = report_on-Grows gen through (get s.active id)
  step-Grows (completes now id gen) = complete_on-Grows now id gen (get s.active id) refl
  step-Grows (fails now id gen) = fail_on-Grows now id gen (get s.active id) refl
  step-Grows (releases id gen) = release_on-Grows id gen (get s.active id) refl
  step-Grows (splits now id gen min_tail received) =
      split_on-Grows now gen min_tail received (get s.active id)
  step-Grows bumps =
      drain-Grows s.generation s.total_size s.active s.pending s.completed v.total_fits v.leases
        v.partition.completed_normal
  step-Grows (sets_divisor n) = keeps

-- From a state with the invariant, no history of calls loses a completed byte.
pub completed_stays :
    {fl : Floats} (s : SegmentScheduler fl) (cs : List Call) (x : ℕ)
    → Inv s
    → hits s.completed x ≤ hits (run fl s cs).completed x
unfolding run
completed_stays s [] x v = le_refl (hits s.completed x)
completed_stays {fl} s (c ∷ cs) x v =
    le_trans ((step-Grows s v c).1 x) (completed_stays (step fl s c) cs x (step-Inv s c v))
