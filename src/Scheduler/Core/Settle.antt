-- ===== src/Scheduler/Core/Settle.antt =====
-- `complete`, `fail`, `release` and `bump_generation` keep the partition; a callback of a lease that
-- is not live changes nothing.
use kdown.Prelude.{
  ℕ, ◌+◌, ◌≤◌, ◌≡◌, ◌≢◌, ◌⊎◌, refl, inl, inr, false, Option, none, some, [], ◌∷◌, ◌==◌, All,
  u64_max, arith, Bool-cases, ne→==,
}
use kdown.Interval.{IntervalSet, insert}
use kdown.Interval.Coverage.{inside, hits}
use kdown.Interval.Laws.{insert_union}
use kdown.Interval.Reference.{inside-le-one}
use kdown.Scheduler.Lease.{
  SegmentLease, Leases, HasIds, get, remove, put, put-remove, remove-HasIds, sum_by-remove,
  All-remove, All-get,
}
use kdown.Scheduler.Policy.{Floats}
use kdown.Scheduler.Core.Invariant.{
  IsLease, IsPartition, Inv, owned, domain, domain-le-one, requeue_tail-hits, complete_prefix-hits,
}
use kdown.Scheduler.Core.{
  SegmentScheduler, requeue_tail, complete_prefix, drain, complete_on, complete, fail_on, fail,
  release_on, release, bump_generation, clock_remove,
}

module _ {fl : Floats} (s : SegmentScheduler fl) (v : Inv s) (id : ℕ) (l : SegmentLease)
    (found : get s.active id ≡ some l) where
  live : IsLease s.generation s.total_size l
  live = All-get (IsLease s.generation s.total_size) s.active id v.leases found

  -- Before it is settled a lease owns its bytes alone.
  alone :
      (x : ℕ)
      → hits s.pending x
          + hits s.completed x
          + (owned (remove s.active id) x + inside l.start l.stop x)
        ≡ domain s.total_size x
  alone x =
      omega
        (arith, v.partition.once x, sum_by-remove (λ a. inside a.start a.stop x) s.active id found)

  pending_free : (x : ℕ) → hits s.pending x + inside l.start l.stop x ≤ 1
  pending_free x = omega (arith, alone x, domain-le-one s.total_size x)

  completed_free : (x : ℕ) → hits s.completed x + inside l.start l.stop x ≤ 1
  completed_free x = omega (arith, alone x, domain-le-one s.total_size x)

  settled_ids : HasIds 0 s.next_lease (remove s.active id)
  settled_ids = remove-HasIds 0 s.next_lease id s.active v.ids

  settled_leases : All (IsLease s.generation s.total_size) (remove s.active id)
  settled_leases = All-remove (IsLease s.generation s.total_size) s.active id v.leases

  completed-IsPartition :
      IsPartition s.total_size s.pending (insert s.completed l.start l.stop) (remove s.active id)
  completed-IsPartition =
      let (normal, bytes) =
        insert_union s.completed l.start l.stop v.partition.completed_normal
          (omega (arith, live.inside_file, v.total_fits)) in
      record {
        pending_normal = v.partition.pending_normal;
        completed_normal = normal;
        once = λ x.
            omega (
              arith,
              bytes x,
              alone x,
              domain-le-one s.total_size x,
              inside-le-one l.start l.stop x,
            );
      }

  requeued-IsPartition :
      IsPartition s.total_size
        (requeue_tail l s.pending)
        (complete_prefix l s.completed)
        (remove s.active id)
  requeued-IsPartition =
      let (n1, h1) =
        requeue_tail-hits s.generation s.total_size l live v.total_fits s.pending
          v.partition.pending_normal pending_free in
      let (n2, h2) =
        complete_prefix-hits s.generation s.total_size l live v.total_fits s.completed
          v.partition.completed_normal completed_free in
      record {
        pending_normal = n1;
        completed_normal = n2;
        once = λ x. omega (arith, h1 x, h2 x, alone x);
      }

  put_back : put (remove s.active id) l ≡ s.active
  put_back = put-remove 0 s.next_lease id s.active v.ids found

module _ {fl : Floats} (s : SegmentScheduler fl) (v : Inv s) (now id gen : ℕ) where
  complete_on_settles :
      (o : Option SegmentLease)
      → get s.active id ≡ o
      → Inv (complete_on fl s now o id gen).1
        × ((complete_on fl s now o id gen).0 ≡ false → (complete_on fl s now o id gen).1 ≡ s)
  unfolding complete_on
  complete_on_settles none found = (v, λ h. refl)
  complete_on_settles (some l) found = elim (Bool-cases (l.generation == gen)) [
    | inl e ↦ rw e (
      record {
        policy_ok = v.policy_ok;
        total_fits = v.total_fits;
        ids = settled_ids s v id l found;
        leases = settled_leases s v id l found;
        partition = completed-IsPartition s v id l found;
      },
      λ h. cc,
    )
    | inr e ↦ rw (e, put_back s v id l found) (v, λ h. refl)
  ]

  -- From a state with the invariant, `complete` keeps it, and changes nothing when it answers
  -- false.
  pub complete-Inv :
      Inv (complete fl s now id gen).1
      × ((complete fl s now id gen).0 ≡ false → (complete fl s now id gen).1 ≡ s)
  unfolding complete
  complete-Inv = complete_on_settles (get s.active id) refl

  fail_on_settles :
      (o : Option SegmentLease)
      → get s.active id ≡ o
      → Inv (fail_on fl s now o id gen).1
        × ((fail_on fl s now o id gen).0 ≡ false → (fail_on fl s now o id gen).1 ≡ s)
  unfolding fail_on
  fail_on_settles none found = (v, λ h. refl)
  fail_on_settles (some l) found = elim (Bool-cases (l.generation == gen)) [
    | inl e ↦ rw e (
      record {
        policy_ok = v.policy_ok;
        total_fits = v.total_fits;
        ids = settled_ids s v id l found;
        leases = settled_leases s v id l found;
        partition = requeued-IsPartition s v id l found;
      },
      λ h. cc,
    )
    | inr e ↦ rw (e, put_back s v id l found) (v, λ h. refl)
  ]

  -- From a state with the invariant, `fail` keeps it, and changes nothing when it answers false.
  pub fail-Inv :
      Inv (fail fl s now id gen).1
      × ((fail fl s now id gen).0 ≡ false → (fail fl s now id gen).1 ≡ s)
  unfolding fail
  fail-Inv = fail_on_settles (get s.active id) refl

  release_on_settles :
      (o : Option SegmentLease)
      → get s.active id ≡ o
      → Inv (release_on fl s o id gen).1
        × ((release_on fl s o id gen).0 ≡ false
            → ((release_on fl s o id gen).1 ≡ s)
              ⊎ ((release_on fl s o id gen).1
                  ≡ record s { acquired_at = clock_remove s.acquired_at id }))
  unfolding release_on
  release_on_settles none found = (v, λ h. inl refl)
  release_on_settles (some l) found = elim (Bool-cases (l.generation == gen)) [
    | inl e ↦ rw e (
      record {
        policy_ok = v.policy_ok;
        total_fits = v.total_fits;
        ids = settled_ids s v id l found;
        leases = settled_leases s v id l found;
        partition = requeued-IsPartition s v id l found;
      },
      λ h. cc,
    )
    | inr e ↦
        rw (e, put_back s v id l found)
          (
            record {
              policy_ok = v.policy_ok;
              total_fits = v.total_fits;
              ids = v.ids;
              leases = v.leases;
              partition = v.partition;
            },
            λ h. inr refl,
          )
  ]

  -- `release` keeps the invariant, and when it answers `false` changes at most the clocks.
  pub release-Inv :
      Inv (release fl s id gen).1
      × ((release fl s id gen).0 ≡ false
          → ((release fl s id gen).1 ≡ s)
            ⊎ ((release fl s id gen).1 ≡ record s { acquired_at = clock_remove s.acquired_at id }))
  unfolding release
  release-Inv = release_on_settles (get s.active id) refl

pub release_stale_lem :
    {fl : Floats} (s : SegmentScheduler fl) (id gen : ℕ) (l : SegmentLease)
    → Inv s
    → get s.active id ≡ some l
    → l.generation ≢ gen
    → release fl s id gen ≡ (false, record s { acquired_at = clock_remove s.acquired_at id })
unfolding release release_on
release_stale_lem s id gen l v found stale =
    rw (found, ne→== l.generation gen stale, put_back s v id l found)

drain-IsPartition :
    (gen total : ℕ) (ls : Leases) (pending completed : IntervalSet)
    → total ≤ u64_max
    → All (IsLease gen total) ls
    → IsPartition total pending completed ls
    → IsPartition total (drain ls pending completed).0 (drain ls pending completed).1 []
unfolding drain
drain-IsPartition gen total [] pending completed fits v p = p
drain-IsPartition gen total (l ∷ ls) pending completed fits v p =
    let (n1, h1) =
      requeue_tail-hits gen total l v.0 fits pending p.pending_normal
        (λ x. omega (arith, p.once x, domain-le-one total x)) in
    let (n2, h2) =
      complete_prefix-hits gen total l v.0 fits completed p.completed_normal
        (λ x. omega (arith, p.once x, domain-le-one total x)) in
    drain-IsPartition gen total ls (requeue_tail l pending) (complete_prefix l completed) fits v.1
      (record {
        pending_normal = n1;
        completed_normal = n2;
        once = λ x. omega (arith, h1 x, h2 x, p.once x);
      })

-- From a state with the invariant, `bump_generation` keeps it, leaves no lease active and raises
-- the generation by one.
pub bump_generation-Inv :
    {fl : Floats} (s : SegmentScheduler fl)
    → Inv s
    → Inv (bump_generation fl s)
      × ((bump_generation fl s).active ≡ [])
      × ((bump_generation fl s).generation ≡ s.generation + 1)
unfolding bump_generation
bump_generation-Inv s v = (
  record {
    policy_ok = v.policy_ok;
    total_fits = v.total_fits;
    ids = tt;
    leases = tt;
    partition =
        drain-IsPartition s.generation s.total_size s.active s.pending s.completed v.total_fits
          v.leases v.partition;
  },
  refl,
  refl,
)
