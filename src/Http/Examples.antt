-- ===== src/Http/Examples.antt =====
-- Tests of crates/engine/src/http/range.rs and validators.rs, and instances of their theorems.
use kdown.Prelude.{ℕ, false, ◌≡◌, ◌⊎◌, refl, none, some, String}
use kdown.Http.Validators.{
  ResourceValidators, ContentRange, same_generation, comparable_generation, has_strong_etag,
}
use kdown.Http.Evidence.{resume_evidence}
use kdown.Http.Range.{
  ValidatedRange, ResponseHead, accepts, rejects, total_conflict, end_overshoot, generation_changed,
  validate_range_response,
}
use kdown.Http.Accepted.{IsSlice, accepted_lem}

abbrev tagged : String → ResourceValidators
tagged tag = record {
  etag = some tag;
  etag_is_weak = false;
  last_modified = none;
  total_size = some 1000;
}

abbrev slice : ℕ → ℕ → ResponseHead
slice start end = record {
  status = 206;
  content_range = some (record { start = start; end = end; total = some 1000 });
  validators = tagged "a";
  total_size = none;
}

abbrev requested : ℕ
requested = 100

abbrev slice_range : ValidatedRange
slice_range = record { start = 100; end = 150; total_size = some 1000 }

slice_accepted :
    validate_range_response 100 199 (slice 100 150) (some 1000) (some (tagged "a"))
    ≡ accepts slice_range
unfolding validate_range_response same_generation
slice_accepted = refl

overshoot : validate_range_response 100 199 (slice 100 200) none none ≡ rejects end_overshoot
unfolding validate_range_response
overshoot = refl

conflict : validate_range_response 100 199 (slice 100 150) (some 999) none ≡ rejects total_conflict
unfolding validate_range_response
conflict = refl

changed :
    validate_range_response 100 199 (slice 100 150) none (some (tagged "b"))
    ≡ rejects generation_changed
unfolding validate_range_response same_generation
changed = refl

-- A whole representation of 50 bytes answers a request of the first 200 of 1000: it is accepted as
-- the range up to 199, and neither its size nor its validators are compared.
whole_response_unchecked :
    validate_range_response 0 199
      (record { status = 200; content_range = none; validators = tagged "b"; total_size = some 50 })
      (some 1000)
      (some (tagged "a"))
    ≡ accepts (record { start = 0; end = 199; total_size = some 50 })
unfolding validate_range_response
whole_response_unchecked = refl

resume_evidence_example :
    ((tag : String) × ((tagged "a").etag ≡ some tag)
      × ((tagged "a").etag ≡ some tag)
      × ((tagged "a").etag_is_weak ≡ false)
      × ((tagged "a").etag_is_weak ≡ false))
    ⊎ ((date : String) × ((tagged "a").last_modified ≡ some date)
        × ((tagged "a").last_modified ≡ some date)
        × (has_strong_etag (tagged "a") ≡ false))
unfolding same_generation comparable_generation
resume_evidence_example = resume_evidence (tagged "a") (tagged "a") refl refl

accepted_lem_example :
    (((slice 100 150).status ≡ 200)
      × (requested ≡ 0)
      × (slice_range.start ≡ 0)
      × (slice_range.end ≡ 199))
    ⊎ ((cr : ContentRange) × IsSlice 100 199
          (slice 100 150)
          (some 1000)
          (some (tagged "a"))
          cr
          slice_range)
accepted_lem_example =
    accepted_lem 100 199 (slice 100 150) (some 1000) (some (tagged "a")) slice_range slice_accepted
