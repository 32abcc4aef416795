-- ===== src/Http/Validators.antt =====
-- crates/engine/src/http/validators.rs: the identity of a remote representation. An error's text is
-- the constructor with the values that it prints.
use kdown.Prelude.{
  ℕ, Bool, true, false, not, Option, none, some, if◌then◌else◌, ◌==◌, String, str_eq,
}

pub record ResourceValidators : Type 0 where
  pub etag : Option String
  pub etag_is_weak : Bool
  pub last_modified : Option String
  pub total_size : Option ℕ

-- Both present, and different.
abbrev pub texts_differ : Option String → Option String → Bool
texts_differ (some a) (some b) = not (str_eq a b)
texts_differ none b = false
texts_differ (some a) none = false

abbrev pub sizes_differ : Option ℕ → Option ℕ → Bool
sizes_differ (some a) (some b) = not (a == b)
sizes_differ none b = false
sizes_differ (some a) none = false

abbrev pub is_some {ℓ} : {A : Type ℓ} → Option A → Bool
is_some (some a) = true
is_some none = false

pub data Generation : Type 0 where
  same : Generation  -- `Ok(())`
  etag_changed : Option String → Option String → Generation
  last_modified_changed : Option String → Option String → Generation
  total_size_changed : Option ℕ → Option ℕ → Generation

unfoldable pub same_generation : ResourceValidators → ResourceValidators → Generation
same_generation v other =
    if texts_differ v.etag other.etag
    then etag_changed v.etag other.etag
    else if texts_differ v.last_modified other.last_modified
    then last_modified_changed v.last_modified other.last_modified
    else if sizes_differ v.total_size other.total_size
    then total_size_changed v.total_size other.total_size
    else same

abbrev pub has_strong_etag : ResourceValidators → Bool
has_strong_etag v = if is_some v.etag then not v.etag_is_weak else false

unfoldable pub resume_capable : ResourceValidators → Bool
resume_capable v = if has_strong_etag v then true else is_some v.last_modified

pub data Comparable : Type 0 where
  comparable : Comparable  -- `Ok(())`
  no_current_etag : Comparable
  no_current_last_modified : Comparable
  no_validator : Comparable

unfoldable pub comparable_generation : ResourceValidators → ResourceValidators → Comparable
comparable_generation saved current =
    if has_strong_etag saved
    then (if has_strong_etag current then comparable else no_current_etag)
    else if is_some saved.last_modified
    then (if is_some current.last_modified then comparable else no_current_last_modified)
    else no_validator

-- The value of the header.
unfoldable pub if_range_value : ResourceValidators → Option String
if_range_value v = if has_strong_etag v then v.etag else v.last_modified

pub record ContentRange : Type 0 where
  pub start : ℕ
  pub end : ℕ
  pub total : Option ℕ
