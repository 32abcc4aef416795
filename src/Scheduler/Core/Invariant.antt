-- ===== src/Scheduler/Core/Invariant.antt =====
-- The partition invariant of the scheduler: every byte of the file has one owner.
use kdown.Prelude.{
  ℕ, ◌+◌, ◌-◌, ◌≤◌, ◌<◌, ◌≡◌, inl, inr, ltb, if◌then◌else◌, sum_by, All, u64_max, arith, lt-cases,
  lt→leb, le→leb, lt→ltb, le→ltb,
}
use kdown.Interval.{IntervalSet}
use kdown.Interval.Coverage.{inside, hits, IsNormal}
use kdown.Interval.Reference.{inside_empty}
use kdown.Interval.Laws.{insert_union}
use kdown.Scheduler.Lease.{SegmentLease, Leases, HasIds}
use kdown.Scheduler.Policy.{Floats, IsPolicy}
use kdown.Scheduler.Core.{SegmentScheduler, requeue_tail, complete_prefix}

-- A lease of the current generation over bytes of the file, with its cursor in [start, stop + 1].
pub record IsLease (gen total : ℕ) (l : SegmentLease) : Type 0 where
  pub current : l.generation ≡ gen
  pub ordered : l.start ≤ l.stop
  pub inside_file : l.stop < total
  pub cursor_low : l.start ≤ l.next_offset
  pub cursor_high : l.next_offset ≤ l.stop + 1

-- The number of leases whose range holds the byte x.
abbrev pub owned : Leases → ℕ → ℕ
owned ls x = sum_by (λ l. inside l.start l.stop x) ls

-- 1 for the bytes of the file, else 0.
abbrev pub domain : ℕ → ℕ → ℕ
domain total x = if ltb x total then 1 else 0

-- The parts that `owned`, `pending` and `completed` play.
pub record IsPartition (total : ℕ) (pending completed : IntervalSet) (active : Leases)
    : Type 0 where
  pub pending_normal : IsNormal 0 pending
  pub completed_normal : IsNormal 0 completed
  pub once : (x : ℕ) → hits pending x + hits completed x + owned active x ≡ domain total x

pub record Inv {fl : Floats} (s : SegmentScheduler fl) : Type 0 where
  pub policy_ok : IsPolicy s.policy
  pub total_fits : s.total_size ≤ u64_max
  pub ids : HasIds 0 s.next_lease s.active
  pub leases : All (IsLease s.generation s.total_size) s.active
  pub partition : IsPartition s.total_size s.pending s.completed s.active

pub domain-le-one : (total x : ℕ) → domain total x ≤ 1
domain-le-one total x = ground arith

-- A range that starts at a and is cut before b.
pub inside_cut :
    (a b c x : ℕ) → a < b → b ≤ c + 1 → inside a c x ≡ inside a (b - 1) x + inside b c x
unfolding inside
inside_cut a b c x h g = ground arith

pub inside_short : (a b c x : ℕ) → b ≤ c → inside a b x ≤ inside a c x
unfolding inside
inside_short a b c x h = ground arith

pub inside_tail : (a b c x : ℕ) → a ≤ b → inside b c x ≤ inside a c x
unfolding inside
inside_tail a b c x h = ground arith

module _ (gen total : ℕ) (l : SegmentLease) (v : IsLease gen total l) (fits : total ≤ u64_max) where
  -- The tail of a lease goes back to `pending`.
  pub requeue_tail-hits :
      (pending : IntervalSet)
      → IsNormal 0 pending
      → ((x : ℕ) → hits pending x + inside l.start l.stop x ≤ 1)
      → IsNormal 0 (requeue_tail l pending)
        × ((x : ℕ)
            → hits (requeue_tail l pending) x ≡ hits pending x + inside l.next_offset l.stop x)
  unfolding requeue_tail
  requeue_tail-hits pending n free = elim (lt-cases l.stop l.next_offset) [
    | inl over ↦
        rw (lt→leb _ _ over) (n, λ x. omega (arith, inside_empty l.next_offset l.stop x over))
    | inr rest ↦
        let (normal, bytes) =
          insert_union pending l.next_offset l.stop n (omega (arith, v.inside_file)) in
        rw (le→leb _ _ rest) (
          normal,
          λ x.
              omega
                (arith, bytes x, free x, inside_tail l.start l.next_offset l.stop x v.cursor_low),
        )
  ]

  -- Its prefix goes to `completed`.
  pub complete_prefix-hits :
      (completed : IntervalSet)
      → IsNormal 0 completed
      → ((x : ℕ) → hits completed x + inside l.start l.stop x ≤ 1)
      → IsNormal 0 (complete_prefix l completed)
        × ((x : ℕ)
            → hits (complete_prefix l completed) x + inside l.next_offset l.stop x
              ≡ hits completed x + inside l.start l.stop x)
  unfolding complete_prefix
  complete_prefix-hits completed n free = elim (lt-cases l.start l.next_offset) [
    | inr same ↦
        let e : l.next_offset ≡ l.start = omega (arith, v.cursor_low) in
        rw (le→ltb _ _ same) (n, λ x. rw e)
    | inl some_bytes ↦
        let (normal, bytes) =
          insert_union completed l.start (l.next_offset - 1) n
            (omega (arith, v.inside_file, v.cursor_high)) in
        rw (lt→ltb _ _ some_bytes) (
          normal,
          λ x. omega (
            arith,
            bytes x,
            free x,
            inside_cut l.start l.next_offset l.stop x some_bytes v.cursor_high,
          ),
        )
  ]
