-- ===== src/Resume/Examples.antt =====
-- Tests of crates/engine/src/resume, and instances of its theorems.
use Prim.Native.String.{len}
use kdown.Prelude.{
  ◌≤◌, ◌<◌, true, false, ◌≡◌, ◌↔◌, refl, none, some, Option, List, [], ◌∷◌, String, arith, ok,
}
use kdown.Interval.{insert}
use kdown.Interval.Coverage.{inside, hits}
use kdown.Http.Validators.{ResourceValidators, same_generation, comparable_generation}
use kdown.Resume.Checkpoint.{
  Checkpoint, validate, check_ranges, record_completed, sort_ranges, sort_in, merge_sorted,
  verify_local_binding, identity_mismatch,
}
use kdown.Resume.Checkpoint.Ranges.{record_completed-insert}
use kdown.Resume.Checkpoint.Validity.{record_completed-validate}
use kdown.Resume.Checkpoint.Size.{
  checked_serialized_size, check_serialized_within, json_string, json_optional_string, add_digests,
}
use kdown.Resume.Checkpoint.Estimate.{with_id, estimate_exceeded}
use kdown.Resume.Durable.{
  Ack, page_cache, fsync, performance, new as new_tracker, page_cache_ack, fsync_through, clip, run,
}
use kdown.Resume.Admission.{
  CheckpointStore, TempFile, PendingAdmission, ResumePlan, proceed, resuming, unusable_temp,
  binding, validate_temp_file, finalize, delete_restart_state,
}
use kdown.Resume.Admission.Finalize.{
  resumed, IsAdmitted, IsForgotten, finalize-IsAdmitted, finalize-IsForgotten,
}
use kdown.Resume.Admission.Reuse.{reused-in_file}
use kdown.Resume.Coordinated.{Coordinated, save_all, save_atomic, union_ranges, last_accepted}
use kdown.Resume.Coordinated.Monotone.{IsKept, save_all-IsKept}

abbrev validators : ResourceValidators
validators = record {
  etag = some "v1";
  etag_is_weak = false;
  last_modified = none;
  total_size = some 1000;
}

abbrev half_done : Checkpoint
half_done = record {
  format_version = 2;
  job_id = "job-1";
  original_url = "";
  final_url = "";
  temp_path_identity = "temp";
  owned_temp_identity = some "file.part|8:15";
  covered_digest = none;
  total_size = some 1000;
  validators = validators;
  completed_ranges = (0, 99) ∷ (200, 299) ∷ [];
  expected_hashes = [];
  created_at = "17";
  updated_at = "18";
}

half_done-validate : validate half_done ≡ ok tt
unfolding validate check_ranges
half_done-validate = refl

-- The gap is filled, so that the three ranges become one.
filled : (record_completed "19" half_done 100 199).completed_ranges ≡ (0, 299) ∷ []
unfolding record_completed sort_ranges sort_in merge_sorted
filled = refl

size_of_half_done : checked_serialized_size half_done ≡ ok 795
unfolding checked_serialized_size add_digests json_string json_optional_string
size_of_half_done = refl

record_completed-insert_example :
    (record_completed "19" half_done 100 199).completed_ranges
    ≡ insert ((0, 99) ∷ (200, 299) ∷ []) 100 199
record_completed-insert_example =
    record_completed-insert "19" half_done 100 199
      (omega arith, omega arith, omega arith, (omega arith, omega arith, omega arith, tt))
      (omega arith)

record_completed-validate_example : validate (record_completed "19" half_done 300 999) ≡ ok tt
record_completed-validate_example =
    record_completed-validate half_done 1000 refl half_done-validate "19" 300 999 (omega arith)
      (omega arith) (omega arith)

half_done_within : check_serialized_within 1024 half_done ≡ ok 795
unfolding check_serialized_within checked_serialized_size add_digests json_string
    json_optional_string
half_done_within = refl

-- An encoder of the job's id alone.
estimate_exceeded_example :
    (id : String) × (check_serialized_within 1024 (with_id half_done id) ≡ ok 795)
    × (1024 < len (with_id half_done id).job_id)
estimate_exceeded_example =
    estimate_exceeded (λ cp. cp.job_id) (λ cp. omega arith) 1024 795 half_done half_done_within

abbrev acks : List Ack
acks = page_cache 100 ∷ fsync 40 ∷ page_cache 150 ∷ []

clipped_by_acks : clip (run (new_tracker performance) acks) (120, 299) ≡ some (120, 149)
unfolding run page_cache_ack fsync_through clip new_tracker
clipped_by_acks = refl

-- A store that holds one checkpoint or none, whatever the identity.
abbrev one_slot : CheckpointStore (Option Checkpoint)
one_slot = record {
  load = λ s id. (s, ok s);
  save_atomic = λ s cp. (some cp, ok tt);
  delete = λ s id. (none, ok tt);
}

abbrev part_file : String → TempFile
part_file identity = record {
  owned_regular = true;
  size = some 1000;
  evidence = record { identity = some identity; digest = λ ranges. none };
}

abbrev pending : PendingAdmission
pending = record { identity = "job-1"; warnings = []; checkpoint = some half_done }

resumes :
    resumed (finalize one_slot (part_file "file.part|8:15") pending validators (some half_done)).1
    ≡ some half_done
unfolding finalize same_generation comparable_generation validate_temp_file verify_local_binding
    resuming
resumes = refl

-- The file was replaced: the plan is fresh, and the store is empty.
abbrev restarted : ResumePlan
restarted = record {
  checkpoint = none;
  completed_ranges = [];
  contiguous_prefix = 0;
  warnings = unusable_temp (binding identity_mismatch) ∷ [];
  notices = [];
}

restarts :
    finalize one_slot (part_file "file.part|8:16") pending validators (some half_done)
    ≡ (none, proceed restarted)
unfolding finalize same_generation comparable_generation validate_temp_file verify_local_binding
    delete_restart_state
restarts = refl

finalize-IsAdmitted_example :
    (resumed (finalize one_slot (part_file "file.part|8:15") pending validators (some half_done)).1
      ≡ some half_done)
    ↔ IsAdmitted (part_file "file.part|8:15") pending validators half_done
finalize-IsAdmitted_example =
    finalize-IsAdmitted one_slot (part_file "file.part|8:15") pending validators (some half_done)
      half_done

finalize-IsForgotten_example : IsForgotten one_slot "job-1" none restarted
finalize-IsForgotten_example =
    finalize-IsForgotten one_slot (part_file "file.part|8:16") pending (some half_done) none
      half_done restarted (λ e. refl) refl validators refl restarts

part_file-admitted : validate_temp_file (part_file "file.part|8:15") half_done ≡ ok tt
unfolding validate_temp_file verify_local_binding
part_file-admitted = refl

covers_250 : 1 ≤ hits half_done.completed_ranges 250
unfolding inside
covers_250 = omega arith

reused-in_file_example : 250 < 1000
reused-in_file_example =
    reused-in_file half_done 1000 refl (omega arith) half_done-validate (part_file "file.part|8:15")
      1000 250 refl part_file-admitted covers_250

-- Two saves, the second a stale one.
abbrev coordinated : Coordinated (Option Checkpoint)
coordinated = record { inner = some half_done; accepted = ("job-1", half_done) ∷ [] }

abbrev saves : List Checkpoint
saves =
    record half_done { completed_ranges = (100, 199) ∷ [] }
    ∷ record half_done { completed_ranges = (0, 49) ∷ [] }
    ∷ []

merged_saves :
    (save_all one_slot coordinated saves).inner
    ≡ some (record half_done { completed_ranges = (0, 299) ∷ [] })
unfolding save_all save_atomic union_ranges last_accepted sort_ranges sort_in merge_sorted
merged_saves = refl

abbrev half_done_kept : IsKept coordinated.accepted "job-1" half_done.completed_ranges
unfolding last_accepted
half_done_kept = (
  half_done,
  refl,
  ((omega arith, omega arith), ((omega arith, omega arith), tt)),
  λ x. omega arith,
)

save_all-IsKept_example :
    IsKept (save_all one_slot coordinated saves).accepted "job-1" half_done.completed_ranges
save_all-IsKept_example =
    save_all-IsKept one_slot "job-1" half_done.completed_ranges saves coordinated half_done_kept
      (((omega arith, omega arith), tt), (((omega arith, omega arith), tt), tt))
