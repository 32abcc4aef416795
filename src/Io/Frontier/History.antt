-- ===== src/Io/Frontier/History.antt =====
-- Histories of events on a frontier of crates/engine/src/io/write_frontier.rs, in any order.
use kdown.Prelude.{
  ℕ, ◌+◌, ◌-◌, min, max, ◌≤◌, ◌<◌, Bool, true, false, ◌≡◌, ◌≢◌, ◌⊎◌, inl, inr, refl, ap, some, List,
  [], ◌∷◌, ◌==◌, if◌then◌else◌, arith, All, lt-cases, Bool-cases, eq→==, ==_iff,
}
use kdown.Interval.Coverage.{hits, inside}
use kdown.Interval.Laws.{insert_union, subtract_difference}
use kdown.Io.Frontier.{
  LeaseFrontier, acknowledges, fails, stale_generation, last_byte, record_completion, settle_write,
  acknowledged_through,
}
use kdown.Io.Frontier.Published.{
  IsFrontier, IsRange, last_byte_lem, acknowledged_through-IsPublished,
}
use kdown.Io.Frontier.Event.{
  Event, receives, submits, completes, run, IsEvent, written_by, written, IsAdvance, same-IsAdvance,
  IsAdvance-cong, handle-IsAdvance,
}

-- Events keep what they may refer to.
IsEvent-same :
    (f g : LeaseFrontier) (e : Event)
    → f.start ≡ g.start
    → f.end ≡ g.end
    → IsEvent f e
    → IsEvent g e
IsEvent-same f g (receives offset len) a b h = (h.0, omega (arith, h.1), omega (arith, h.2))
IsEvent-same f g (submits offset len) a b h = (h.0, omega (arith, h.1), omega (arith, h.2))
IsEvent-same f g (completes i n offset len success) a b h =
    (h.0, omega (arith, h.1), omega (arith, h.2))

IsEvents-same :
    (f g : LeaseFrontier) (es : List Event)
    → f.start ≡ g.start
    → f.end ≡ g.end
    → All (IsEvent f) es
    → All (IsEvent g) es
IsEvents-same f g [] a b h = tt
IsEvents-same f g (e ∷ es) a b h = (IsEvent-same f g e a b h.0, IsEvents-same f g es a b h.1)

written-same :
    {i j m n : ℕ} (es : List Event) (x : ℕ) → i ≡ j → m ≡ n → written i m es x ≡ written j n es x
written-same es x h k = rw (h, k) refl

IsAdvance-trans :
    {f g k : LeaseFrontier} {more other : ℕ → ℕ}
    → IsAdvance f g more
    → IsAdvance g k other
    → IsAdvance f k (λ x. max (more x) (other x))
IsAdvance-trans a b = record {
  still = b.still;
  same_id = omega (arith, a.same_id, b.same_id);
  same_gen = omega (arith, a.same_gen, b.same_gen);
  same_start = omega (arith, a.same_start, b.same_start);
  same_end = omega (arith, a.same_end, b.same_end);
  adds = λ x. omega (arith, a.adds x, b.adds x);
}

-- No event within the lease panics, and after any sequence of them the bytes acknowledged are
-- those that were and those that successful completions of this very attempt wrote: receipts,
-- submissions, failures and stale completions add none.
pub run-IsAdvance :
    (f : LeaseFrontier) (es : List Event)
    → IsFrontier f
    → All (IsEvent f) es
    → (g : LeaseFrontier) × (run f es ≡ some g) × IsAdvance f g (written f.lease_id f.generation es)
unfolding run
run-IsAdvance f [] v h = (f, refl, same-IsAdvance f v)
run-IsAdvance f (e ∷ es) v h =
    let (g, ok, step) = handle-IsAdvance f e v h.0 in
    let rest =
      IsEvents-same f g es (omega (arith, step.same_start)) (omega (arith, step.same_end)) h.1 in
    let (k, all, steps) = run-IsAdvance g es step.still rest in
    rw (run, ok)
      (
        k,
        all,
        IsAdvance-cong (IsAdvance-trans step steps) (λ x.
            ap (max (written_by f.lease_id f.generation e x))
              (written-same es x step.same_id step.same_gen)),
      )

-- On a well-formed frontier, events with ranges that are not empty and lie in the lease never
-- panic, the published frontier does not move back, and after them it is the first byte of the
-- lease, or the byte after it, that neither was acknowledged nor was written by a successful
-- completion of this attempt.
pub run-acknowledged_through :
    (f : LeaseFrontier) (es : List Event)
    → IsFrontier f
    → All (IsEvent f) es
    → (g : LeaseFrontier) × (run f es ≡ some g)
      × (acknowledged_through f ≤ acknowledged_through g)
      × (acknowledged_through g ≤ f.end + 1)
      × ((x : ℕ)
          → f.start ≤ x
          → x < acknowledged_through g
          → max (hits f.acknowledged x) (written f.lease_id f.generation es x) ≡ 1)
      × (max
            (hits f.acknowledged (acknowledged_through g))
            (written f.lease_id f.generation es (acknowledged_through g))
          ≡ 0)
run-acknowledged_through f es v h =
    let (g, ok, all) = run-IsAdvance f es v h in
    let (a1, a2, a3, a4) = acknowledged_through-IsPublished f v in
    let (b1, b2, b3, b4) = acknowledged_through-IsPublished g all.still in
    let t = acknowledged_through g in
    (
      g,
      ok,
      elim (lt-cases t (acknowledged_through f)) [
        | inr fine ↦ fine
        | inl less ↦
            absurd (omega (arith, all.adds t, b4, a3 t (omega (arith, b1, all.same_start)) less))
      ],
      omega (arith, b2, all.same_end),
      λ x c d. omega (arith, all.adds x, b3 x (omega (arith, all.same_start)) d),
      omega (arith, all.adds t, b4),
    )

-- On a well-formed frontier and for a range of the lease that is not empty, a completion under
-- another id or generation changes nothing and is answered as stale; one of the live attempt tells
-- the frontier if it succeeded, takes its bytes from the outstanding ones, and adds them to the
-- failed ones exactly if it failed.
pub record_completion_lem :
    (f : LeaseFrontier) (lease_id generation offset len : ℕ) (success : Bool)
    → IsFrontier f
    → IsRange f offset len
    → let r = record_completion f lease_id generation offset len success in
      ((r ≡ (f, stale_generation)) × ((lease_id ≢ f.lease_id) ⊎ (generation ≢ f.generation)))
      ⊎ (((lease_id ≡ f.lease_id) × (generation ≡ f.generation))
          × (r.1 ≡ (if success then acknowledges (acknowledged_through r.0) else fails))
          × ((x : ℕ)
              → hits r.0.outstanding x
                  + min (hits f.outstanding x) (inside offset (offset + len - 1) x)
                ≡ hits f.outstanding x)
          × ((x : ℕ)
              → hits r.0.failed x
                ≡ max
                    (hits f.failed x)
                    (if success then 0 else inside offset (offset + len - 1) x)))
unfolding record_completion settle_write
record_completion_lem f lease_id generation offset len success v r =
    elim (Bool-cases (lease_id == f.lease_id)) [
      | inr e ↦ rw e (inl (refl, inl (λ h. cc (eq→== lease_id f.lease_id h))))
      | inl e ↦ elim (Bool-cases (generation == f.generation)) [
        | inr g ↦ rw (e, g) (inl (refl, inr (λ h. cc (eq→== generation f.generation h))))
        | inl g ↦
            let (told, out, bad) = live success in
            let both : (lease_id ≡ f.lease_id) × (generation ≡ f.generation) =
              ((==_iff lease_id f.lease_id).0 e, (==_iff generation f.generation).0 g) in
            rw (e, g) (inr (both, told, out, bad))
      ]
    ]
  where
    last : last_byte offset len + 1 ≡ offset + len
    last = last_byte_lem offset len r.0 (omega (arith, r.2, v.fits))

    same_last : offset + len - 1 ≡ last_byte offset len
    same_last = omega (arith, last)

    live :
        (ok : Bool)
        → let w = settle_write f offset len ok in
          (w.1 ≡ (if ok then acknowledges (acknowledged_through w.0) else fails))
          × ((x : ℕ)
              → hits w.0.outstanding x
                  + min (hits f.outstanding x) (inside offset (offset + len - 1) x)
                ≡ hits f.outstanding x)
          × ((x : ℕ)
              → hits w.0.failed x
                ≡ max (hits f.failed x) (if ok then 0 else inside offset (offset + len - 1) x))
    live true = rw same_last (
      refl,
      (subtract_difference f.outstanding offset (last_byte offset len) v.outstanding_ok).1,
      λ x. omega arith,
    )
    live false = rw same_last (
      refl,
      (subtract_difference f.outstanding offset (last_byte offset len) v.outstanding_ok).1,
      (insert_union f.failed offset (last_byte offset len) v.failed_ok
          (omega (arith, last, r.2, v.fits))).1,
    )
