-- ===== src/Io/Frontier/Event.antt =====
-- Events on a frontier of crates/engine/src/io/write_frontier.rs, and what each adds.
use kdown.Prelude.{
  ℕ, max, ◌≤◌, Bool, true, false, ◌&&◌, ◌≡◌, inl, inr, refl, Option, none, some, List, [], ◌∷◌,
  ◌==◌, if◌then◌else◌, u64_max, arith, Bool-cases, lt→ltb,
}
use kdown.Interval.Coverage.{hits, inside, inside_above}
use kdown.Interval.Laws.{insert_union, subtract_difference}
use kdown.Io.Frontier.{
  LeaseFrontier, last_byte, record_received, record_submission, record_completion, settle_write,
}
use kdown.Io.Frontier.Published.{IsFrontier, IsRange, last_byte_lem, in_lease_lem}

-- What is called on a frontier.
pub data Event : Type 0 where
  receives : ℕ → ℕ → Event
  submits : ℕ → ℕ → Event
  completes : ℕ → ℕ → ℕ → ℕ → Bool → Event

unfoldable pub handle : LeaseFrontier → Event → Option LeaseFrontier
handle f (receives offset len) = record_received f offset len
handle f (submits offset len) = record_submission f offset len
handle f (completes lease_id generation offset len success) =
    some (record_completion f lease_id generation offset len success).0

unfoldable pub run : LeaseFrontier → List Event → Option LeaseFrontier
run f [] = some f
run f (e ∷ es) = elim (handle f e) [ some g ↦ run g es | none ↦ none ]

abbrev pub IsEvent : LeaseFrontier → Event → Type 0
IsEvent f (receives offset len) = IsRange f offset len
IsEvent f (submits offset len) = IsRange f offset len
IsEvent f (completes lease_id generation offset len success) = IsRange f offset len

-- The bytes that successful completions of the attempt (id, gen) write.
abbrev pub written_by : ℕ → ℕ → Event → ℕ → ℕ
written_by id gen (receives offset len) x = 0
written_by id gen (submits offset len) x = 0
written_by id gen (completes lease_id generation offset len success) x =
    if (lease_id == id) && (generation == gen) && success
    then inside offset (last_byte offset len) x
    else 0

abbrev pub written : ℕ → ℕ → List Event → ℕ → ℕ
written id gen [] x = 0
written id gen (e ∷ es) x = max (written_by id gen e x) (written id gen es x)

-- One event keeps the frontier well-formed, the lease as it is, and adds the bytes written.
pub record IsAdvance (f g : LeaseFrontier) (more : ℕ → ℕ) : Type 0 where
  pub still : IsFrontier g
  pub same_id : g.lease_id ≡ f.lease_id
  pub same_gen : g.generation ≡ f.generation
  pub same_start : g.start ≡ f.start
  pub same_end : g.end ≡ f.end
  pub adds : (x : ℕ) → hits g.acknowledged x ≡ max (hits f.acknowledged x) (more x)

settle_write-IsAdvance :
    (f : LeaseFrontier) (offset len : ℕ) (success : Bool)
    → IsFrontier f
    → IsRange f offset len
    → IsAdvance f
        (settle_write f offset len success).0
        (λ x. if success then inside offset (last_byte offset len) x else 0)
unfolding settle_write
settle_write-IsAdvance f offset len true v r =
    let last = last_byte_lem offset len r.0 (omega (arith, r.2, v.fits)) in
    let (n1, h1) =
      insert_union f.acknowledged offset (last_byte offset len) v.acknowledged_ok
        (omega (arith, last, r.2, v.fits)) in
    let (n2, h2) =
      subtract_difference f.outstanding offset (last_byte offset len) v.outstanding_ok in
    record {
      still = record {
        ordered = v.ordered;
        fits = v.fits;
        submitted_ok = v.submitted_ok;
        outstanding_ok = n2;
        acknowledged_ok = n1;
        failed_ok = v.failed_ok;
        bounded = λ x b.
            omega
              (arith, h1 x, v.bounded x b, last, r.2, inside_above offset (last_byte offset len) x);
      };
      same_id = refl;
      same_gen = refl;
      same_start = refl;
      same_end = refl;
      adds = h1;
    }
settle_write-IsAdvance f offset len false v r =
    let last = last_byte_lem offset len r.0 (omega (arith, r.2, v.fits)) in
    let (n1, h1) =
      insert_union f.failed offset (last_byte offset len) v.failed_ok
        (omega (arith, last, r.2, v.fits)) in
    let (n2, h2) =
      subtract_difference f.outstanding offset (last_byte offset len) v.outstanding_ok in
    record {
      still = record {
        ordered = v.ordered;
        fits = v.fits;
        submitted_ok = v.submitted_ok;
        outstanding_ok = n2;
        acknowledged_ok = v.acknowledged_ok;
        failed_ok = n1;
        bounded = v.bounded;
      };
      same_id = refl;
      same_gen = refl;
      same_start = refl;
      same_end = refl;
      adds = λ x. omega arith;
    }

pub same-IsAdvance : (f : LeaseFrontier) → IsFrontier f → IsAdvance f f (λ x. 0)
same-IsAdvance f v = record {
  still = v;
  same_id = refl;
  same_gen = refl;
  same_start = refl;
  same_end = refl;
  adds = λ x. omega arith;
}

pub IsAdvance-cong :
    {f g : LeaseFrontier} {more other : ℕ → ℕ}
    → IsAdvance f g more
    → ((x : ℕ) → more x ≡ other x)
    → IsAdvance f g other
IsAdvance-cong a h = record {
  still = a.still;
  same_id = a.same_id;
  same_gen = a.same_gen;
  same_start = a.same_start;
  same_end = a.same_end;
  adds = λ x. omega (arith, a.adds x, h x);
}

pub handle-IsAdvance :
    (f : LeaseFrontier) (e : Event)
    → IsFrontier f
    → IsEvent f e
    → (g : LeaseFrontier) × (handle f e ≡ some g)
      × IsAdvance f g (written_by f.lease_id f.generation e)
unfolding handle record_received record_submission record_completion
handle-IsAdvance f (receives offset len) v r = rw (in_lease_lem f offset len r) (
  _,
  refl,
  record {
    still = record {
      ordered = v.ordered;
      fits = v.fits;
      submitted_ok = v.submitted_ok;
      outstanding_ok = v.outstanding_ok;
      acknowledged_ok = v.acknowledged_ok;
      failed_ok = v.failed_ok;
      bounded = v.bounded;
    };
    same_id = refl;
    same_gen = refl;
    same_start = refl;
    same_end = refl;
    adds = λ x. omega arith;
  },
)
handle-IsAdvance f (submits offset len) v r =
    let last = last_byte_lem offset len r.0 (omega (arith, r.2, v.fits)) in
    let fit : last_byte offset len ≤ u64_max = omega (arith, last, r.2, v.fits) in
    rw (lt→ltb 0 len r.0, in_lease_lem f offset len r)
      (
        _,
        refl,
        record {
          still = record {
            ordered = v.ordered;
            fits = v.fits;
            submitted_ok =
                (insert_union f.submitted offset (last_byte offset len) v.submitted_ok fit).0;
            outstanding_ok =
                (insert_union f.outstanding offset (last_byte offset len) v.outstanding_ok fit).0;
            acknowledged_ok = v.acknowledged_ok;
            failed_ok = v.failed_ok;
            bounded = v.bounded;
          };
          same_id = refl;
          same_gen = refl;
          same_start = refl;
          same_end = refl;
          adds = λ x. omega arith;
        },
      )
handle-IsAdvance f (completes lease_id generation offset len success) v r =
    elim (Bool-cases (lease_id == f.lease_id)) [
      | inr e ↦ rw e (f, refl, IsAdvance-cong (same-IsAdvance f v) (λ x. rw e refl))
      | inl e ↦ elim (Bool-cases (generation == f.generation)) [
        | inr g ↦ rw (e, g) (f, refl, IsAdvance-cong (same-IsAdvance f v) (λ x. rw (e, g) refl))
        | inl g ↦
            rw (e, g)
              (
                _,
                refl,
                IsAdvance-cong (settle_write-IsAdvance f offset len success v r)
                    (λ x. rw (e, g) refl),
              )
      ]
    ]
