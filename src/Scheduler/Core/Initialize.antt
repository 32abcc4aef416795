-- ===== src/Scheduler/Core/Initialize.antt =====
-- `initialize` establishes the partition, for completed ranges of any shape.
use kdown.Prelude.{
  ℕ, ◌-◌, min, max, ◌≤◌, ◌<◌, ◌≡◌, inl, inr, List, [], ◌∷◌, ◌==◌, if◌then◌else◌, All, u64_max,
  arith, lt-cases, eq→==, ne→==, lt→leb, le→leb,
}
use kdown.Interval.{IntervalSet, ByteRange, insert, from_ranges, complement_within}
use kdown.Interval.Coverage.{inside, hits, IsNormal, inside_above, inside_below}
use kdown.Interval.Laws.{insert_union, from_ranges-covered, covered}
use kdown.Interval.Size.{IsWithin, complement_within-hits, hits_within, IsWithin-of_hits}
use kdown.Interval.Reference.{inside-le-one}
use kdown.Scheduler.Policy.{Floats, SchedulerPolicy, IsPolicy}
use kdown.Scheduler.Core.Invariant.{IsPartition, Inv}
use kdown.Scheduler.Core.{clamp_completed, initialize}

inside-min : (total a b x : ℕ) → x < total → inside a (min b (total - 1)) x ≡ inside a b x
unfolding inside
inside-min total a b x h = ground arith

module _ (total : ℕ) (fits : total ≤ u64_max) where
  -- The ranges are cut to the file, and nothing else of them is lost.
  clamp_completed-covered :
      (rs : List ByteRange) (m : IntervalSet)
      → IsNormal 0 m
      → IsWithin total m
      → IsNormal 0 (clamp_completed total rs m)
        × IsWithin total (clamp_completed total rs m)
        × ((x : ℕ)
            → x < total
            → hits (clamp_completed total rs m) x ≡ max (hits m x) (covered rs x))
  unfolding clamp_completed
  clamp_completed-covered [] m n w = (n, w, λ x h. omega arith)
  clamp_completed-covered ((s, e) ∷ rs) m n w = elim (lt-cases s total) [
    | inr out ↦ rw (le→leb total s out) (
      (clamp_completed-covered rs m n w).0,
      (clamp_completed-covered rs m n w).1,
      λ x h. omega (arith, (clamp_completed-covered rs m n w).2 x h, inside_below s e x),
    )
    | inl start ↦
        let (n1, h1) = insert_union m s (min e (total - 1)) n (omega arith) in
        let w1 = IsWithin-of_hits 0 total (insert m s (min e (total - 1))) n1 (λ x a.
          omega (arith, h1 x, hits_within total x m w a, inside_above s (min e (total - 1)) x)) in
        let (n2, w2, h2) = clamp_completed-covered rs (insert m s (min e (total - 1))) n1 w1 in
        rw (lt→leb total s start) (
          n2,
          w2,
          λ x h. omega (arith, h1 x, h2 x h, inside-min total s e x h, inside-le-one s e x),
        )
  ]

  pending_of : IntervalSet → IntervalSet
  pending_of m = if total == 0 then [] else from_ranges (complement_within m total) []

  pending-IsPartition :
      (m : IntervalSet) → IsNormal 0 m → IsWithin total m → IsPartition total (pending_of m) m []
  unfolding pending_of
  pending-IsPartition m n w = elim (lt-cases 0 total) [
    | inl some_bytes ↦
        let (cn, cw, ch) = complement_within-hits m total n w fits in
        let (n1, h1) =
          from_ranges-covered (complement_within m total) [] tt
            (bounded (complement_within m total) cw) in
        rw (ne→== total 0 (omega arith)) (record {
          pending_normal = n1;
          completed_normal = n;
          once = λ x. elim (lt-cases x total) [
            | inl in_file ↦ ground (arith, h1 x, ch x in_file)
            | inr out ↦ ground (
              arith,
              h1 x,
              hits_within total x m w out,
              hits_within total x (complement_within m total) cw out,
            )
          ];
        })
    | inr no_bytes ↦ rw (eq→== total 0 (omega arith)) (record {
      pending_normal = tt;
      completed_normal = n;
      once = λ x. ground (arith, hits_within total x m w);
    })
  ]
    where
      bounded : (c : IntervalSet) → IsWithin total c → All (λ r. r.1 ≤ u64_max) c
      bounded [] h = tt
      bounded ((k, v) ∷ c) h = (omega arith, bounded c h.1)

  -- For a policy with ordered positive bounds and a file of at most 2^64 - 1 bytes, `initialize`
  -- establishes the invariant, and takes as completed exactly the bytes of the file that the given
  -- ranges hold, whatever their order, overlaps and ends.
  pub initialize-Inv :
      (fl : Floats) (ranges : List ByteRange) (p : SchedulerPolicy)
      → IsPolicy p
      → Inv (initialize fl total ranges p)
        × ((x : ℕ) → x < total → hits (initialize fl total ranges p).completed x ≡ covered ranges x)
  unfolding initialize pending_of
  initialize-Inv fl ranges p ok =
      let (n, w, h) = clamp_completed-covered ranges [] tt tt in
      (
        record {
          policy_ok = ok;
          total_fits = fits;
          ids = tt;
          leases = tt;
          partition = pending-IsPartition (clamp_completed total ranges []) n w;
        },
        λ x b. omega (arith, h x b),
      )
