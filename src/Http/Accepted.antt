-- ===== src/Http/Accepted.antt =====
-- Which responses crates/engine/src/http/range.rs accepts, and where their bodies lie.
use kdown.Prelude.{
  ℕ, ◌+◌, ◌-◌, ◌≤◌, ◌<◌, true, false, ◌≡◌, ◌⊎◌, inl, inr, Option, none, some, ltb, ltb→le, ◌==◌,
  ==_iff, saturating_add, u64_max, arith, Bool-cases, Option-cases, subst,
}
use kdown.Http.Validators.{ResourceValidators, ContentRange, same, same_generation, sizes_differ}
use kdown.Http.Evidence.{Agree, sizes_differ_iff}
use kdown.Http.Range.{
  ValidatedRange, ResponseHead, accepts, validate_partial, contradicts, validate_range_response,
  body_overrun,
}

-- The job's validators, where it has some, are content with the response's.
abbrev pub IsSameGeneration : Option ResourceValidators → ResourceValidators → Type 0
IsSameGeneration (some v) found = same_generation v found ≡ same
IsSameGeneration none found = Unit

contradicts_lem :
    (expected : Option ResourceValidators) (found : ResourceValidators)
    → contradicts expected found ≡ false
    → IsSameGeneration expected found
contradicts_lem (some v) found h = ground (arith, h)
contradicts_lem none found h = tt

-- What a slice of a 206 response has passed.
pub record IsSlice (s e : ℕ) (response : ResponseHead) (established : Option ℕ)
    (expected : Option ResourceValidators) (cr : ContentRange) (r : ValidatedRange) : Type 0 where
  pub is_partial : response.status ≡ 206
  pub names : response.content_range ≡ some cr
  pub start_ok : cr.start ≡ s
  pub end_ok : cr.end ≤ e
  pub total_ok : Agree established cr.total
  pub generation_ok : IsSameGeneration expected response.validators
  pub start_is : r.start ≡ s
  pub end_is : r.end ≡ cr.end

validate_partial_lem :
    (s e : ℕ) (cr : ContentRange) (found : ResourceValidators) (established : Option ℕ)
    (expected : Option ResourceValidators) (r : ValidatedRange)
    → validate_partial s e cr found established expected ≡ accepts r
    → ((cr.start == s) ≡ true)
      × (ltb e cr.end ≡ false)
      × (sizes_differ established cr.total ≡ false)
      × (contradicts expected found ≡ false)
      × (r.start ≡ s)
      × (r.end ≡ cr.end)
validate_partial_lem s e cr found established expected r h = ground (arith, h)

-- A response is accepted only if it is a whole representation that answers a request from byte 0,
-- or a 206 whose Content-Range starts at the requested byte, ends within the request, and
-- contradicts neither the known size nor the job's validators; the accepted range is then the
-- requested one, or that of the Content-Range.
pub accepted_lem :
    (s e : ℕ) (response : ResponseHead) (established : Option ℕ)
    (expected : Option ResourceValidators) (r : ValidatedRange)
    → validate_range_response s e response established expected ≡ accepts r
    → ((response.status ≡ 200) × (s ≡ 0) × (r.start ≡ 0) × (r.end ≡ e))
      ⊎ ((cr : ContentRange) × IsSlice s e response established expected cr r)
unfolding validate_range_response
accepted_lem s e response established expected r h = elim (Bool-cases (response.status == 200)) [
  | inl w ↦
      let ok = (==_iff response.status 200).0 w in
      let (zero_start, from, to) : (s ≡ 0) × (r.start ≡ 0) × (r.end ≡ e) = ground (arith, h, w) in
      inl (ok, zero_start, from, to)
  | inr w ↦ elim (Bool-cases (response.status == 206)) [
    | inr p ↦ absurd (ground (arith, h, w, p))
    | inl p ↦ elim (Option-cases response.content_range) [
      | inl n ↦ absurd (ground (arith, h, w, p, n))
      | inr (cr, n) ↦
          let (a, b, c, d, from, to) =
            validate_partial_lem s e cr response.validators established expected r
              (ground (arith, h, w, p, n)) in
          inr (
            cr,
            record {
              is_partial = (==_iff response.status 206).0 p;
              names = n;
              start_ok = (==_iff cr.start s).0 a;
              end_ok = ltb→le e cr.end b;
              total_ok = (sizes_differ_iff established cr.total).0 c;
              generation_ok = contradicts_lem expected response.validators d;
              start_is = from;
              end_is = to;
            },
          )
    ]
  ]
]

-- A Content-Range as the parser yields it, which refuses an end before the start.
abbrev pub IsOrdered : Option ContentRange → Type 0
IsOrdered (some cr) = cr.start ≤ cr.end
IsOrdered none = Unit

-- For a request of an ordered range that ends two below 2^64 - 1 or earlier and a Content-Range
-- that is ordered, a piece of the body of an accepted response that does not overrun the accepted
-- length lies within the requested bytes.
pub accepted_body_inside :
    (s e : ℕ) (response : ResponseHead) (established : Option ℕ)
    (expected : Option ResourceValidators) (r : ValidatedRange) (offset incoming : ℕ)
    → s ≤ e
    → e + 1 < u64_max
    → IsOrdered response.content_range
    → validate_range_response s e response established expected ≡ accepts r
    → body_overrun offset incoming (r.end - r.start + 1) ≡ false
    → (r.start ≡ s) × (r.start + offset + incoming ≤ e + 1)
unfolding body_overrun
accepted_body_inside s e response established expected r offset incoming h fits o ok small =
    let short = ltb→le (r.end - r.start + 1) (saturating_add offset incoming) small in
    elim (accepted_lem s e response established expected r ok) [
      | inl (w, zero_start, from, to) ↦ (omega arith, omega (arith, short))
      | inr (cr, k) ↦
          let ordered : cr.start ≤ cr.end = subst IsOrdered k.names o in
          (k.start_is, omega (arith, short, k.start_is, k.end_is, k.start_ok, k.end_ok, ordered))
    ]
