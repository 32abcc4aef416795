-- ===== src/Scheduler/Core/Accounting.antt =====
-- What the partition means for the queries: the byte counts add up, the scheduler's own check
-- passes, and a finished scheduler is complete.
use kdown.Prelude.{
  ℕ, ◌+◌, ◌-◌, max, ◌≤◌, ◌≡◌, ◌↔◌, refl, ◌∙◌, inl, inr, Bool, true, false, ◌||◌, List, [], ◌∷◌,
  ◌==◌, sum_by, All, arith, lt-cases, eq→==, ne→==, lt→ltb, lt→leb, saturating_sub, sum_below,
  sum_below-zero, sum_below-add, sum_below-one,
}
use native.Mathlib.Nat.{le_trans}
use kdown.Interval.{ByteRange, IntervalSet, len, is_empty}
use kdown.Interval.Coverage.{inside, hits, IsNormal, inside_in}
use kdown.Interval.Size.{IsWithin, len-sum_below, IsWithin-of_hits, sum_below-inside}
use kdown.Scheduler.Lease.{SegmentLease, Leases, remaining}
use kdown.Scheduler.Policy.{Floats}
use kdown.Scheduler.Core.Invariant.{IsLease, Inv, owned, domain-le-one}
use kdown.Scheduler.Core.{SegmentScheduler}
use kdown.Scheduler.Core.Queries.{
  touches_any, overlap, leases_clash, is_nil, is_finished, is_complete, active_bytes, pending_bytes,
  acknowledged_bytes, invariants_hold,
}

pub lease_parts :
    (gen total : ℕ) (l : SegmentLease)
    → IsLease gen total l
    → remaining l + saturating_sub l.next_offset l.start ≡ l.stop - l.start + 1
unfolding remaining
lease_parts gen total l v = ground arith

-- Each lease counts its range once: what is left and what is acknowledged.
lease_bytes :
    (gen total : ℕ) (ls : Leases)
    → All (IsLease gen total) ls
    → sum_below total (owned ls)
      ≡ sum_by remaining ls + sum_by (λ l. saturating_sub l.next_offset l.start) ls
lease_bytes gen total [] v = sum_below-zero total
lease_bytes gen total (l ∷ ls) v = omega (
  arith,
  sum_below-add total (inside l.start l.stop) (owned ls),
  sum_below-inside total l.start l.stop v.0.ordered,
  v.0.inside_file,
  v.0.ordered,
  lease_parts gen total l v.0,
  lease_bytes gen total ls v.1,
)

module _ {fl : Floats} (s : SegmentScheduler fl) (v : Inv s) where
  pending-IsWithin : IsWithin s.total_size s.pending
  pending-IsWithin =
      IsWithin-of_hits 0 s.total_size s.pending v.partition.pending_normal
        (λ x a. ground (arith, v.partition.once x))

  completed-IsWithin : IsWithin s.total_size s.completed
  completed-IsWithin =
      IsWithin-of_hits 0 s.total_size s.completed v.partition.completed_normal
        (λ x a. ground (arith, v.partition.once x))

  all_bytes :
      sum_below s.total_size (λ x. hits s.pending x + hits s.completed x + owned s.active x)
      ≡ s.total_size
  all_bytes =
      sum_below-one s.total_size _ (λ x h. v.partition.once x ∙ rw (lt→ltb x s.total_size h))

  -- In every state with the invariant the completed, active, pending and acknowledged bytes add up
  -- to the size of the file.
  pub bytes_add_up :
      len s.completed + active_bytes fl s + pending_bytes fl s + acknowledged_bytes fl s
      ≡ s.total_size
  unfolding active_bytes pending_bytes acknowledged_bytes
  bytes_add_up = omega (
    arith,
    all_bytes,
    sum_below-add s.total_size (λ x. hits s.pending x + hits s.completed x) (owned s.active),
    sum_below-add s.total_size (hits s.pending) (hits s.completed),
    len-sum_below 0 s.total_size s.pending v.partition.pending_normal pending-IsWithin,
    len-sum_below 0 s.total_size s.completed v.partition.completed_normal completed-IsWithin,
    lease_bytes s.generation s.total_size s.active v.leases,
  )

no_touch :
    (lo s e : ℕ) (rs : List ByteRange)
    → IsNormal lo rs
    → s ≤ e
    → ((x : ℕ) → s ≤ x → x ≤ e → hits rs x ≡ 0)
    → touches_any s e rs ≡ false
unfolding touches_any
no_touch lo s e [] n h free = refl
no_touch lo s e ((k, w) ∷ rs) n h free = ground (
  arith,
  free (max s k),
  inside_in k w (max s k),
  no_touch (w + 2) s e rs n.3 h (λ x a b. omega (arith, free x a b)),
)

no_overlap :
    (lo low : ℕ) (ps cs : List ByteRange)
    → IsNormal lo ps
    → IsNormal low cs
    → ((x : ℕ) → hits ps x + hits cs x ≤ 1)
    → overlap ps cs ≡ false
unfolding overlap
no_overlap lo low [] cs n m free = refl
no_overlap lo low ((k, w) ∷ ps) cs n m free = rw (
  no_touch low k w cs m n.1 (λ x a b. omega (arith, free x, inside_in k w x a b)),
  no_overlap (w + 2) low ps cs n.3 m (λ x. omega (arith, free x)),
)

no_clash :
    (gen total : ℕ) (pending completed : IntervalSet) (ls : Leases)
    → IsNormal 0 pending
    → IsNormal 0 completed
    → All (IsLease gen total) ls
    → ((x : ℕ) → hits pending x + hits completed x + owned ls x ≤ 1)
    → leases_clash total pending completed ls ≡ false
unfolding leases_clash
no_clash gen total pending completed [] n m v free = refl
no_clash gen total pending completed (l ∷ ls) n m v free =
    let rest = no_clash gen total pending completed ls n m v.1 (λ x. omega (arith, free x)) in
    let mine = λ (x : ℕ) (a : l.next_offset ≤ x) (b : x ≤ l.stop).
      inside_in l.start l.stop x (le_trans v.0.cursor_low a) b in
    rw (rest, lt→leb total l.stop v.0.inside_file)
      (elim (lt-cases l.stop l.next_offset) [
        | inl over ↦ rw (lt→leb l.next_offset l.stop over)
        | inr left ↦
            rw
              (
                no_touch 0 l.next_offset l.stop completed m left
                    (λ x a b. omega (arith, free x, mine x a b)),
                no_touch 0 l.next_offset l.stop pending n left
                    (λ x a b. omega (arith, free x, mine x a b)),
              )
              (ground arith)
      ])

nil_bytes :
    (ls : Leases)
    → is_nil ls ≡ true
    → sum_by remaining ls + sum_by (λ l. saturating_sub l.next_offset l.start) ls ≡ 0
nil_bytes [] h = omega arith
nil_bytes (l ∷ ls) h = cc

or_true : (b : Bool) → (b || true) ≡ true
or_true true = refl
or_true false = refl

len_empty : (m : IntervalSet) → is_empty m ≡ true → len m ≡ 0
unfolding len is_empty
len_empty [] h = refl
len_empty ((k, w) ∷ m) h = cc

empty_of_len : (m : IntervalSet) → len m ≡ 0 → is_empty m ≡ true
unfolding len is_empty
empty_of_len [] h = refl
empty_of_len ((k, w) ∷ m) h = absurd (omega arith)

no_leases :
    (gen total : ℕ) (ls : Leases)
    → All (IsLease gen total) ls
    → sum_by remaining ls + sum_by (λ l. saturating_sub l.next_offset l.start) ls ≡ 0
    → ls ≡ []
no_leases gen total [] v h = refl
no_leases gen total (l ∷ ls) v h = absurd (omega (arith, lease_parts gen total l v.0))

module _ {fl : Floats} (s : SegmentScheduler fl) (v : Inv s) where
  at_most_one : (x : ℕ) → hits s.pending x + hits s.completed x + owned s.active x ≤ 1
  at_most_one x = omega (arith, v.partition.once x, domain-le-one s.total_size x)

  counts :
      len s.completed
        + (sum_by remaining s.active + sum_by (λ l. saturating_sub l.next_offset l.start) s.active)
        + len s.pending
      ≡ s.total_size
  unfolding active_bytes pending_bytes acknowledged_bytes
  counts = omega (arith, bytes_add_up s v)

  nothing_active :
      sum_by remaining s.active + sum_by (λ l. saturating_sub l.next_offset l.start) s.active ≡ 0
      → is_nil s.active ≡ true
  nothing_active h = rw (no_leases s.generation s.total_size s.active v.leases h)

  no_active_bytes :
      is_nil s.active ≡ true
      → sum_by remaining s.active + sum_by (λ l. saturating_sub l.next_offset l.start) s.active ≡ 0
  no_active_bytes h = nil_bytes s.active h

  -- The scheduler's own check of its accounting passes in every state with the invariant.
  pub invariants_hold_lem : invariants_hold fl s ≡ true
  unfolding invariants_hold
  invariants_hold_lem = elim (lt-cases 0 s.total_size) [
    | inl some_bytes ↦
        rw
          (
            ne→== s.total_size 0 (omega arith),
            no_overlap 0 0 s.pending s.completed v.partition.pending_normal
                v.partition.completed_normal (λ x. omega (arith, at_most_one x)),
            no_clash s.generation s.total_size s.pending s.completed s.active
                v.partition.pending_normal v.partition.completed_normal v.leases at_most_one,
          )
          (eq→== _ _ (bytes_add_up s v))
    | inr no_bytes ↦ rw (
      eq→== s.total_size 0 (omega arith),
      empty_of_len s.pending (omega (arith, counts)),
      nothing_active (omega (arith, counts)),
      empty_of_len s.completed (omega (arith, counts)),
    )
  ]

  -- In a state with the invariant a scheduler is finished, with nothing pending and no lease
  -- active, exactly if every byte of the file is completed.
  pub is_finished-is_complete : (is_finished fl s ≡ true) ↔ (is_complete fl s ≡ true)
  unfolding is_finished is_complete
  is_finished-is_complete = (
    λ done.
        let size : len s.completed ≡ s.total_size =
          ground (arith, counts, len_empty s.pending, no_active_bytes) in
        rw (eq→== (len s.completed) s.total_size size) (or_true (s.total_size == 0)),
    λ all.
        let size : len s.completed ≡ s.total_size = ground (arith, counts) in
        rw (empty_of_len s.pending (omega (arith, counts)), nothing_active (omega (arith, counts))),
  )
