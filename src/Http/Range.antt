-- ===== src/Http/Range.antt =====
-- crates/engine/src/http/range.rs: the check of a range response before its body is read. The text
-- of a rejection's detail is left out.
use kdown.Prelude.{
  ℕ, Bool, true, false, not, Option, none, some, if◌then◌else◌, ltb, ◌==◌, saturating_add,
}
use kdown.Http.Validators.{
  ResourceValidators, ContentRange, Generation, same, same_generation, sizes_differ,
}

pub record ValidatedRange : Type 0 where
  pub start : ℕ
  pub end : ℕ
  pub total_size : Option ℕ

pub data RejectionKind : Type 0 where
  full_response_to_nonzero_range : RejectionKind
  unexpected_status : RejectionKind
  start_mismatch : RejectionKind
  end_overshoot : RejectionKind
  total_conflict : RejectionKind
  generation_changed : RejectionKind
  body_overruns : RejectionKind  -- `BodyOverrun`

-- The view that the trait `ResponseHead` gives of a response.
pub record ResponseHead : Type 0 where
  pub status : ℕ
  pub content_range : Option ContentRange
  pub validators : ResourceValidators
  pub total_size : Option ℕ

pub data Validation : Type 0 where
  accepts : ValidatedRange → Validation
  rejects : RejectionKind → Validation

abbrev pub range_request_is_nonzero : ℕ → Bool
range_request_is_nonzero start = ltb 0 start

-- `a.or(b)`.
abbrev pub or_option {ℓ} : {A : Type ℓ} → Option A → Option A → Option A
or_option (some a) b = some a
or_option none b = b

-- The response's validators contradict those of the job.
abbrev pub is_changed : Generation → Bool
is_changed same = false
is_changed g = true

abbrev pub contradicts : Option ResourceValidators → ResourceValidators → Bool
contradicts (some expected) found = is_changed (same_generation expected found)
contradicts none found = false

-- A 206 with a Content-Range.
abbrev pub validate_partial :
    ℕ → ℕ → ContentRange → ResourceValidators → Option ℕ → Option ResourceValidators → Validation
validate_partial s e cr found established expected =
    if not (cr.start == s)
    then rejects start_mismatch
    else if ltb e cr.end
    then rejects end_overshoot
    else if sizes_differ established cr.total
    then rejects total_conflict
    else if contradicts expected found
    then rejects generation_changed
    else accepts (record { start = s; end = cr.end; total_size = or_option cr.total established })

unfoldable pub validate_range_response :
    ℕ → ℕ → ResponseHead → Option ℕ → Option ResourceValidators → Validation
validate_range_response s e response established expected =
    if response.status == 200
    then (if range_request_is_nonzero s
        then rejects full_response_to_nonzero_range
        else accepts
            (record { start = 0; end = e; total_size = or_option response.total_size established }))
    else if not (response.status == 206)
    then rejects unexpected_status
    else elim response.content_range [
      | none ↦ rejects start_mismatch
      | some cr ↦ validate_partial s e cr response.validators established expected
    ]

unfoldable pub body_overrun : ℕ → ℕ → ℕ → Bool
body_overrun offset_in_range incoming_len accepted_len =
    ltb accepted_len (saturating_add offset_in_range incoming_len)
