-- ===== src/Resume/Checkpoint.antt =====
-- crates/engine/src/resume/checkpoint.rs: the persisted state of a job. The texts of errors are left
-- out; the clock of `updated_at` is an argument.
pub mod Ranges
pub mod Validity
pub mod Size
pub mod Estimate
use kdown.Prelude.{
  ℕ, ◌+◌, ◌-◌, ◌*◌, max, Bool, true, false, not, ◌&&◌, ◌||◌, Option, none, some, List, [], ◌∷◌,
  ◌++◌, ltb, leb, sum_by, ◌==◌, if◌then◌else◌, String, str_eq, length, saturating_add, u64_max,
  Result, ok, err, ◌>>=◌, ◌>>◌, require,
}
use kdown.Interval.{ByteRange}
use kdown.Http.Validators.{ResourceValidators}

abbrev pub checkpoint_format_version : ℕ
checkpoint_format_version = 2

pub data CheckpointError : Type 0 where
  unsupported_version : ℕ → ℕ → CheckpointError
  corrupt : CheckpointError
  inconsistent : CheckpointError
  too_large : ℕ → ℕ → CheckpointError
  overflow : CheckpointError

pub record ExpectedDigest : Type 0 where
  pub algorithm : String
  pub hex : String

pub record Checkpoint : Type 0 where
  pub format_version : ℕ
  pub job_id : String
  pub original_url : String
  pub final_url : String
  pub temp_path_identity : String
  pub owned_temp_identity : Option String
  pub covered_digest : Option String
  pub total_size : Option ℕ
  pub validators : ResourceValidators
  pub completed_ranges : List ByteRange
  pub expected_hashes : List ExpectedDigest
  pub created_at : String
  pub updated_at : String

unfoldable pub new : String → String → String → String → Checkpoint
new now job_id original_url temp_path_identity = record {
  format_version = checkpoint_format_version;
  job_id = job_id;
  original_url = original_url;
  final_url = "";
  temp_path_identity = temp_path_identity;
  owned_temp_identity = none;
  covered_digest = none;
  total_size = none;
  validators = record {
    etag = none;
    etag_is_weak = false;
    last_modified = none;
    total_size = none;
  };
  completed_ranges = [];
  expected_hashes = [];
  created_at = now;
  updated_at = now;
}

-- The loop over the ranges, with the end of the one before.
unfoldable pub check_ranges : Option ℕ → List ByteRange → Result CheckpointError (Unit {0})
check_ranges prev [] = ok tt
check_ranges none ((start, end) ∷ rest) =
    if ltb end start then err inconsistent else check_ranges (some end) rest
check_ranges (some pe) ((start, end) ∷ rest) =
    if ltb end start
    then err inconsistent
    else if leb start pe
    then err inconsistent
    else check_ranges (some end) rest

abbrev pub last_end : List ByteRange → Option ℕ
last_end [] = none
last_end ((s, e) ∷ []) = some e
last_end (r ∷ q ∷ rest) = last_end (q ∷ rest)

abbrev within_total : Option ℕ → Option ℕ → Bool
within_total (some total) (some end) = ltb end total
within_total none end = true
within_total (some total) none = true

unfoldable pub validate : Checkpoint → Result CheckpointError (Unit {0})
unfolding check_ranges
validate cp = do
  require (cp.format_version == checkpoint_format_version)
      (unsupported_version cp.format_version checkpoint_format_version)
  require (not (str_eq cp.job_id "")) inconsistent
  check_ranges none cp.completed_ranges
  require (within_total cp.total_size (last_end cp.completed_ranges)) inconsistent

-- `ranges.sort()`: by start, and by end where the starts are equal.
abbrev range_le : ByteRange → ByteRange → Bool
range_le (a, b) (c, d) = ltb a c || (a == c && leb b d)

unfoldable pub sort_in : ByteRange → List ByteRange → List ByteRange
sort_in r [] = r ∷ []
sort_in r (q ∷ rest) = if range_le r q then r ∷ q ∷ rest else q ∷ sort_in r rest

unfoldable pub sort_ranges : List ByteRange → List ByteRange
unfolding sort_in
sort_ranges [] = []
sort_ranges (r ∷ rest) = sort_in r (sort_ranges rest)

-- The merging loop, with the last range of `merged`, which alone can still grow.
unfoldable pub merge_sorted : Option ByteRange → List ByteRange → List ByteRange
merge_sorted none [] = []
merge_sorted none (r ∷ rest) = merge_sorted (some r) rest
merge_sorted (some last) [] = last ∷ []
merge_sorted (some (ps, pe)) ((s, e) ∷ rest) = elim (leb s (saturating_add pe 1)) [
  | true ↦ merge_sorted (some (ps, max pe e)) rest
  | false ↦ (ps, pe) ∷ merge_sorted (some (s, e)) rest
]

unfoldable pub record_completed : String → Checkpoint → ℕ → ℕ → Checkpoint
unfolding sort_ranges merge_sorted
record_completed now cp start end = record cp {
  completed_ranges = merge_sorted none (sort_ranges (cp.completed_ranges ++ (start, end) ∷ []));
  updated_at = now;
}

unfoldable pub completed_bytes : Checkpoint → ℕ
completed_bytes cp = sum_by (λ r. r.1 - r.0 + 1) cp.completed_ranges

-- The evidence that the file system gives of a temporary file.
pub record LocalEvidence : Type 0 where
  pub identity : Option String  -- `owned_temp_identity`
  pub digest : List ByteRange → Option String  -- `covered_digest`

pub data BindingError : Type 0 where
  identity_unavailable : BindingError
  identity_mismatch : BindingError
  digest_unavailable : BindingError
  digest_mismatch : BindingError

-- One piece of evidence: nothing recorded, or the same text found.
abbrev pub agrees :
    BindingError → BindingError → Option String → Option String → Result BindingError (Unit {0})
agrees unavailable mismatch none actual = ok tt
agrees unavailable mismatch (some expected) none = err unavailable
agrees unavailable mismatch (some expected) (some actual) =
    require (str_eq actual expected) mismatch

unfoldable pub verify_local_binding : LocalEvidence → Checkpoint → Result BindingError (Unit {0})
verify_local_binding file cp = do
  agrees identity_unavailable identity_mismatch cp.owned_temp_identity file.identity
  agrees digest_unavailable digest_mismatch cp.covered_digest (file.digest cp.completed_ranges)

-- `set_owned_temp_identity` and `set_covered_digest`, which stamp what the file shows now.
unfoldable pub stamp : LocalEvidence → Checkpoint → Checkpoint
stamp file cp = record cp {
  owned_temp_identity = file.identity;
  covered_digest = file.digest cp.completed_ranges;
}
