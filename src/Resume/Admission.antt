-- ===== src/Resume/Admission.antt =====
-- crates/engine/src/resume/flow.rs: whether a job continues from its checkpoint. The store is the
-- caller's, so its two calls are parameters, over the state that they read and change; so is what
-- the file system says of the temporary file. A text is a constructor with the values it prints.
pub mod Finalize
pub mod Reuse
use kdown.Prelude.{
  ℕ, zero, suc, ◌+◌, ◌≤◌, Bool, true, false, not, Option, none, some, List, [], ◌∷◌, ◌++◌, ltb,
  ◌==◌, if◌then◌else◌, String, sum_by, saturating_add, saturating_sub, Result, ok, err, ◌>>=◌, ◌>>◌,
  require,
}
use kdown.Interval.{ByteRange}
use kdown.Http.Validators.{
  ResourceValidators, Generation, same, same_generation, Comparable, comparable,
  comparable_generation,
}
use kdown.Resume.Checkpoint.{
  Checkpoint, CheckpointError, BindingError, LocalEvidence, last_end, verify_local_binding,
}

pub data ResumePolicy : Type 0 where
  never : ResumePolicy
  allowed : ResumePolicy
  required : ResumePolicy

-- The calls of a store, on a state of it.
pub record CheckpointStore (S : Type 0) : Type 0 where
  pub load : S → String → S × Result CheckpointError (Option Checkpoint)
  pub save_atomic : S → Checkpoint → S × Result CheckpointError (Unit {0})
  pub delete : S → String → S × Result CheckpointError (Unit {0})

pub record TempFile : Type 0 where
  pub owned_regular : Bool  -- `validate_owned_regular_file` is content
  pub size : Option ℕ  -- `symlink_metadata`, none if it fails
  pub evidence : LocalEvidence

pub data TempError : Type 0 where
  not_owned : TempError
  missing : TempError
  too_small : ℕ → ℕ → TempError
  binding : BindingError → TempError

pub data ResumeNotice : Type 0 where
  resource_changed : ResumeNotice

pub data ResumeError : Type 0 where
  unreadable : CheckpointError → ResumeError
  required_missing : ResumeError
  cleanup_failed : CheckpointError → ResumeError
  generation_changed : ResumeError

pub record ResumeFailure : Type 0 where
  pub error : ResumeError
  pub notices : List ResumeNotice

pub data Warning : Type 0 where
  unusable_checkpoint : CheckpointError → Warning
  not_comparable : Comparable → Warning
  unusable_temp : TempError → Warning

pub record ResumePlan : Type 0 where
  pub checkpoint : Option Checkpoint
  pub completed_ranges : List ByteRange
  pub contiguous_prefix : ℕ
  pub warnings : List Warning
  pub notices : List ResumeNotice

pub data AdmissionDecision : Type 0 where
  proceed : ResumePlan → AdmissionDecision
  reject : ResumeFailure → AdmissionDecision

abbrev pub fresh : List Warning → List ResumeNotice → ResumePlan
fresh warnings notices = record {
  checkpoint = none;
  completed_ranges = [];
  contiguous_prefix = 0;
  warnings = warnings;
  notices = notices;
}

unfoldable pub prefix_end : List ByteRange → ℕ
prefix_end [] = 0
prefix_end ((s, e) ∷ rest) = if s == 0 then saturating_add e 1 else 0

unfoldable pub resuming : Checkpoint → ResumePlan
unfolding prefix_end
resuming cp = record {
  checkpoint = some cp;
  completed_ranges = cp.completed_ranges;
  contiguous_prefix = prefix_end cp.completed_ranges;
  warnings = [];
  notices = [];
}

abbrev pub is_resuming : ResumePlan → Bool
is_resuming plan = elim plan.completed_ranges [ [] ↦ false | r ∷ rest ↦ true ]

pub record SegmentedResume : Type 0 where
  pub ranges : List ByteRange
  pub reused_bytes : ℕ

pub record SequentialResume : Type 0 where
  pub offset : ℕ
  pub reused_bytes : ℕ

unfoldable pub completed_bytes : List ByteRange → ℕ
completed_bytes ranges = sum_by (λ r. saturating_sub r.1 r.0 + 1) ranges

unfoldable pub segmented : ResumePlan → SegmentedResume
unfolding completed_bytes
segmented plan = record {
  ranges = plan.completed_ranges;
  reused_bytes = completed_bytes plan.completed_ranges;
}

unfoldable pub sequential : ResumePlan → SequentialResume
sequential plan = record { offset = plan.contiguous_prefix; reused_bytes = plan.contiguous_prefix }

abbrev pub needed : Option ℕ → ℕ
needed none = 0
needed (some e) = saturating_add e 1

abbrev with_binding : Result BindingError (Unit {0}) → Result TempError (Unit {0})
with_binding (ok u) = ok tt
with_binding (err e) = err (binding e)

abbrev large_enough : Option ℕ → ℕ → Result TempError (Unit {0})
large_enough none n = err missing
large_enough (some size) n = if ltb size n then err (too_small size n) else ok tt

unfoldable pub validate_temp_file : TempFile → Checkpoint → Result TempError (Unit {0})
unfolding verify_local_binding
validate_temp_file file cp = do
  require file.owned_regular not_owned
  large_enough file.size (needed (last_end cp.completed_ranges))
  with_binding (verify_local_binding file.evidence cp)

pub data AdmissionPieces : Type 0 where
  fresh_pieces : List Warning → AdmissionPieces
  resuming_pieces : Checkpoint → AdmissionPieces
  required_missing_pieces : AdmissionPieces

pub data AdmissionDiscovery : Type 0 where
  absent : List Warning → AdmissionDiscovery
  found : Checkpoint → AdmissionDiscovery

pub record PendingAdmission : Type 0 where
  pub identity : String
  pub warnings : List Warning
  pub checkpoint : Option Checkpoint

abbrev cleanup_failure : CheckpointError → ResumeFailure
cleanup_failure e = record { error = cleanup_failed e; notices = [] }

abbrev clean :
    {S : Type 0} → S × Result CheckpointError (Unit {0}) → S × Result ResumeFailure (Unit {0})
clean (s, ok u) = (s, ok tt)
clean (s, err e) = (s, err (cleanup_failure e))

-- What `discover_admission_pieces` makes of the loaded checkpoint.
abbrev pieces_of : Option Checkpoint → AdmissionPieces
pieces_of none = fresh_pieces []
pieces_of (some cp) = resuming_pieces cp

abbrev required_pieces : Option Checkpoint → AdmissionPieces
required_pieces none = required_missing_pieces
required_pieces (some cp) = resuming_pieces cp

abbrev discovery : AdmissionPieces → AdmissionDiscovery
discovery (resuming_pieces cp) = found cp
discovery (fresh_pieces warnings) = absent warnings
discovery required_missing_pieces = absent []

abbrev begin_on : String → AdmissionPieces → Result ResumeFailure PendingAdmission
begin_on identity (resuming_pieces cp) =
    ok (record { identity = identity; warnings = []; checkpoint = some cp })
begin_on identity (fresh_pieces warnings) =
    ok (record { identity = identity; warnings = warnings; checkpoint = none })
begin_on identity required_missing_pieces = err (record { error = required_missing; notices = [] })

module _ {S : Type 0} (store : CheckpointStore S) where
  unfoldable pub delete_restart_state : S → String → S × Result ResumeFailure (Unit {0})
  delete_restart_state s identity = clean (store.delete s identity)

  abbrev pub after_cleanup :
      S × Result ResumeFailure (Unit {0}) → List Warning → S × AdmissionDecision
  after_cleanup (s, ok u) warnings = (s, proceed (fresh warnings []))
  after_cleanup (s, err failure) warnings = (s, reject failure)

  abbrev pub restart_pieces :
      CheckpointError
      → S × Result ResumeFailure (Unit {0})
      → S × Result ResumeFailure AdmissionPieces
  restart_pieces e (s, ok u) = (s, ok (fresh_pieces (unusable_checkpoint e ∷ [])))
  restart_pieces e (s, err failure) = (s, err failure)

  abbrev pub allowed_load :
      String
      → S × Result CheckpointError (Option Checkpoint)
      → S × Result ResumeFailure AdmissionPieces
  unfolding delete_restart_state
  allowed_load identity (s, ok loaded) = (s, ok (pieces_of loaded))
  allowed_load identity (s, err e) = restart_pieces e (delete_restart_state s identity)

  abbrev pub required_load :
      S × Result CheckpointError (Option Checkpoint) → S × Result ResumeFailure AdmissionPieces
  required_load (s, ok loaded) = (s, ok (required_pieces loaded))
  required_load (s, err e) = (s, err (record { error = unreadable e; notices = [] }))

  unfoldable pub discover_admission_pieces :
      ResumePolicy → String → S → S × Result ResumeFailure AdmissionPieces
  unfolding allowed_load
  discover_admission_pieces never identity s = (s, ok (fresh_pieces []))
  discover_admission_pieces allowed identity s = allowed_load identity (store.load s identity)
  discover_admission_pieces required identity s = required_load (store.load s identity)

  unfoldable pub discover_admission :
      ResumePolicy → String → S → S × Result ResumeFailure AdmissionDiscovery
  unfolding discover_admission_pieces
  discover_admission policy identity s =
      let (next, pieces) = discover_admission_pieces policy identity s in
      (next, do p ← pieces; ok (discovery p))

  unfoldable pub begin_admission :
      ResumePolicy → String → S → S × Result ResumeFailure PendingAdmission
  unfolding discover_admission_pieces
  begin_admission policy identity s =
      let (next, pieces) = discover_admission_pieces policy identity s in
      (next, pieces >>= begin_on identity)

  -- The checks of `finalize` on a loaded checkpoint, in their order.
  abbrev pub admit_temp :
      TempFile
      → PendingAdmission
      → Checkpoint
      → S
      → Result TempError (Unit {0})
      → S × AdmissionDecision
  unfolding delete_restart_state resuming
  admit_temp file p cp s (ok u) = (s, proceed (resuming cp))
  admit_temp file p cp s (err e) =
      after_cleanup (delete_restart_state s p.identity) (p.warnings ++ unusable_temp e ∷ [])

  abbrev pub admit_comparable :
      TempFile → PendingAdmission → Checkpoint → S → Comparable → S × AdmissionDecision
  unfolding delete_restart_state admit_temp validate_temp_file
  admit_comparable file p cp s comparable = admit_temp file p cp s (validate_temp_file file cp)
  admit_comparable file p cp s reason =
      after_cleanup (delete_restart_state s p.identity) (p.warnings ++ not_comparable reason ∷ [])

  abbrev pub admit_generation :
      TempFile → PendingAdmission → Checkpoint → S → Comparable → Generation → S × AdmissionDecision
  unfolding admit_comparable
  admit_generation file p cp s evidence same = admit_comparable file p cp s evidence
  admit_generation file p cp s evidence change =
      (s, reject (record { error = generation_changed; notices = resource_changed ∷ [] }))

  abbrev pub finalize_from :
      TempFile
      → PendingAdmission
      → ResourceValidators
      → S
      → Option Checkpoint
      → S × AdmissionDecision
  unfolding admit_generation same_generation comparable_generation
  finalize_from file p remote s none = (s, proceed (fresh p.warnings []))
  finalize_from file p remote s (some cp) =
      admit_generation file p cp s (comparable_generation cp.validators remote)
        (same_generation cp.validators remote)

  unfoldable pub finalize :
      TempFile → PendingAdmission → ResourceValidators → S → S × AdmissionDecision
  unfolding finalize_from
  finalize file p remote s = finalize_from file p remote s p.checkpoint
