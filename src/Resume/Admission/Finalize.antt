-- ===== src/Resume/Admission/Finalize.antt =====
-- What the second phase of admission decides, crates/engine/src/resume/flow.rs.
use kdown.Prelude.{
  ◌≡◌, ◌≢◌, ◌↔◌, refl, sym, ap, subst, inl, inr, Option, none, some, List, [], ◌∷◌, ◌++◌, String,
  Result, ok, err, Option-cases,
}
use kdown.Http.Validators.{
  ResourceValidators, Generation, same, same_generation, Comparable, comparable,
  comparable_generation, no_current_etag, no_current_last_modified, no_validator, etag_changed,
  last_modified_changed, total_size_changed,
}
use kdown.Resume.Checkpoint.{Checkpoint, CheckpointError}
use kdown.Resume.Admission.{
  CheckpointStore, TempFile, TempError, PendingAdmission, ResumePlan, ResumeFailure, Warning,
  AdmissionDecision, proceed, reject, fresh, resuming, validate_temp_file, delete_restart_state,
  after_cleanup, admit_temp, admit_comparable, admit_generation, finalize_from, finalize, clean,
}

-- The checkpoint that a decision continues from.
abbrev pub resumed : AdmissionDecision → Option Checkpoint
resumed (proceed plan) = plan.checkpoint
resumed (reject failure) = none

-- The checkpoint is loaded, of the resource that was probed on evidence, and of the file that is there.
abbrev pub IsAdmitted : TempFile → PendingAdmission → ResourceValidators → Checkpoint → Type 0
IsAdmitted file p remote cp =
    (p.checkpoint ≡ some cp)
    × (same_generation cp.validators remote ≡ same)
    × (comparable_generation cp.validators remote ≡ comparable)
    × (validate_temp_file file cp ≡ ok tt)

module _ {S : Type 0} (store : CheckpointStore S) where
  cleanup-none :
      (r : S × Result ResumeFailure (Unit {0})) (w : List Warning)
      → resumed (after_cleanup store r w).1 ≡ none
  cleanup-none (s, ok u) w = refl
  cleanup-none (s, err e) w = refl

  module _ (file : TempFile) (p : PendingAdmission) (cp : Checkpoint) (s : S) where
    admit_temp_iff :
        (r : Result TempError (Unit {0})) (c : Checkpoint)
        → (resumed (admit_temp store file p cp s r).1 ≡ some c) ↔ ((cp ≡ c) × (r ≡ ok tt))
    unfolding admit_temp resuming
    admit_temp_iff (ok u) c = (λ h. (cc, refl), λ h. ap some h.0)
    admit_temp_iff (err e) c =
        let no =
          cleanup-none (delete_restart_state store s p.identity)
            (p.warnings ++ Warning.unusable_temp e ∷ []) in
        (λ h. absurd (cc), λ h. absurd (cc))

    -- A discarded checkpoint is not continued from.
    discards :
        (reason : Warning) (c : Checkpoint)
        → resumed
            (after_cleanup store
              (delete_restart_state store s p.identity)
              (p.warnings ++ reason ∷ [])).1
          ≢ some c
    discards reason c h =
        let no =
          cleanup-none (delete_restart_state store s p.identity) (p.warnings ++ reason ∷ []) in
        absurd (cc)

    admit_comparable_iff :
        (e : Comparable) (c : Checkpoint)
        → (resumed (admit_comparable store file p cp s e).1 ≡ some c)
          ↔ ((cp ≡ c) × (e ≡ comparable) × (validate_temp_file file cp ≡ ok tt))
    unfolding admit_comparable
    admit_comparable_iff comparable c =
        let (f, g) = admit_temp_iff (validate_temp_file file cp) c in
        (λ h. ((f h).0, refl, (f h).1), λ h. g (h.0, h.2))
    admit_comparable_iff no_current_etag c =
        (λ h. absurd (discards (Warning.not_comparable no_current_etag) c h), λ h. absurd (cc))
    admit_comparable_iff no_current_last_modified c = (
      λ h. absurd (discards (Warning.not_comparable no_current_last_modified) c h),
      λ h. absurd (cc),
    )
    admit_comparable_iff no_validator c =
        (λ h. absurd (discards (Warning.not_comparable no_validator) c h), λ h. absurd (cc))

    admit_generation_iff :
        (e : Comparable) (g : Generation) (c : Checkpoint)
        → (resumed (admit_generation store file p cp s e g).1 ≡ some c)
          ↔ ((cp ≡ c) × (g ≡ same) × (e ≡ comparable) × (validate_temp_file file cp ≡ ok tt))
    unfolding admit_generation
    admit_generation_iff e same c =
        let (f, g) = admit_comparable_iff e c in
        (λ h. ((f h).0, refl, (f h).1, (f h).2), λ h. g (h.0, h.2, h.3))
    admit_generation_iff e (etag_changed a b) c = (λ h. absurd (cc), λ h. absurd (cc))
    admit_generation_iff e (last_modified_changed a b) c = (λ h. absurd (cc), λ h. absurd (cc))
    admit_generation_iff e (total_size_changed a b) c = (λ h. absurd (cc), λ h. absurd (cc))

  admitted-resumes :
      (file : TempFile) (p : PendingAdmission) (remote : ResourceValidators) (s : S)
      (cp : Checkpoint)
      → IsAdmitted file p remote cp
      → resumed (finalize store file p remote s).1 ≡ some cp
  unfolding finalize finalize_from
  admitted-resumes file p remote s cp h =
      let (f, g) =
        admit_generation_iff file p cp s (comparable_generation cp.validators remote)
          (same_generation cp.validators remote) cp in
      rw h.0 (g (refl, h.1, h.2, h.3))

  resumed-IsAdmitted :
      (file : TempFile) (p : PendingAdmission) (remote : ResourceValidators) (s : S)
      (cp : Checkpoint)
      → resumed (finalize store file p remote s).1 ≡ some cp
      → IsAdmitted file p remote cp
  unfolding finalize finalize_from
  resumed-IsAdmitted file p remote s cp h = elim (Option-cases p.checkpoint) [
    | inl e ↦ absurd (let no = rw e at h in cc)
    | inr (c, e) ↦
        let (f, g) =
          admit_generation_iff file p c s (comparable_generation c.validators remote)
            (same_generation c.validators remote) cp in
        let r = f (rw e at h) in
        let eq : c ≡ cp = r.0 in subst (λ d. IsAdmitted file p remote d) eq (e, r.1, r.2, r.3)
  ]

  -- A job continues from a checkpoint exactly if that checkpoint was loaded, its validators do not
  -- differ from the probed ones, they are comparable with them, and the temporary file passes its
  -- checks: it is owned, long enough for the last range, and of the recorded identity and digest.
  pub finalize-IsAdmitted :
      (file : TempFile) (p : PendingAdmission) (remote : ResourceValidators) (s : S)
      (cp : Checkpoint)
      → (resumed (finalize store file p remote s).1 ≡ some cp) ↔ IsAdmitted file p remote cp
  finalize-IsAdmitted file p remote s cp =
      (resumed-IsAdmitted file p remote s cp, admitted-resumes file p remote s cp)

  -- The plan reuses nothing, and the store has nothing left to load.
  abbrev pub IsForgotten : String → S → ResumePlan → Type 0
  IsForgotten id s plan = (plan.completed_ranges ≡ []) × ((store.load s id).1 ≡ ok none)

  cleanup-IsForgotten :
      (r : S × Result CheckpointError (Unit {0})) (w : List Warning) (id : String) (after : S)
      (plan : ResumePlan)
      → (r.1 ≡ ok tt → (store.load r.0 id).1 ≡ ok none)
      → after_cleanup store (clean r) w ≡ (after, proceed plan)
      → IsForgotten id after plan
  cleanup-IsForgotten (s, ok u) w id after plan gone e =
      let fst : s ≡ after = cc in
      let snd : fresh w [] ≡ plan = cc in
      (
        ap (λ q. q.completed_ranges) (sym snd),
        subst (λ t. (store.load t id).1 ≡ ok none) fst (gone refl),
      )
  cleanup-IsForgotten (s, err f) w id after plan gone e = absurd (cc)

  module _ (file : TempFile) (p : PendingAdmission) (s after : S) (cp : Checkpoint)
      (plan : ResumePlan)
      (gone : (store.delete s p.identity).1 ≡ ok tt
        → (store.load (store.delete s p.identity).0 p.identity).1 ≡ ok none)
      (nothing : plan.checkpoint ≡ none) where
    temp-IsForgotten :
        (r : Result TempError (Unit {0}))
        → admit_temp store file p cp s r ≡ (after, proceed plan)
        → IsForgotten p.identity after plan
    unfolding admit_temp delete_restart_state resuming
    temp-IsForgotten (ok u) e =
        let kept : some cp ≡ plan.checkpoint = ap (λ d. resumed d.1) e in absurd (cc)
    temp-IsForgotten (err f) e =
        cleanup-IsForgotten (store.delete s p.identity) (p.warnings ++ Warning.unusable_temp f ∷ [])
          p.identity after plan gone e

    discard-IsForgotten :
        (reason : Warning)
        → after_cleanup store (delete_restart_state store s p.identity) (p.warnings ++ reason ∷ [])
          ≡ (after, proceed plan)
        → IsForgotten p.identity after plan
    unfolding delete_restart_state
    discard-IsForgotten reason e =
        cleanup-IsForgotten (store.delete s p.identity) (p.warnings ++ reason ∷ []) p.identity after
          plan gone e

    comparable-IsForgotten :
        (c : Comparable)
        → admit_comparable store file p cp s c ≡ (after, proceed plan)
        → IsForgotten p.identity after plan
    unfolding admit_comparable
    comparable-IsForgotten comparable e = temp-IsForgotten (validate_temp_file file cp) e
    comparable-IsForgotten no_current_etag e =
        discard-IsForgotten (Warning.not_comparable no_current_etag) e
    comparable-IsForgotten no_current_last_modified e =
        discard-IsForgotten (Warning.not_comparable no_current_last_modified) e
    comparable-IsForgotten no_validator e =
        discard-IsForgotten (Warning.not_comparable no_validator) e

    generation-IsForgotten :
        (c : Comparable) (g : Generation)
        → admit_generation store file p cp s c g ≡ (after, proceed plan)
        → IsForgotten p.identity after plan
    unfolding admit_generation
    generation-IsForgotten c same e = comparable-IsForgotten c e
    generation-IsForgotten c (etag_changed a b) e = absurd (cc)
    generation-IsForgotten c (last_modified_changed a b) e = absurd (cc)
    generation-IsForgotten c (total_size_changed a b) e = absurd (cc)

    -- If a checkpoint was loaded and admission decides to proceed without one, then the plan
    -- reuses no range and the store has nothing left to load, for a store that after a successful
    -- `delete` loads nothing.
    pub finalize-IsForgotten :
        (remote : ResourceValidators)
        → p.checkpoint ≡ some cp
        → finalize store file p remote s ≡ (after, proceed plan)
        → IsForgotten p.identity after plan
    unfolding finalize finalize_from
    finalize-IsForgotten remote loaded e =
        generation-IsForgotten (comparable_generation cp.validators remote)
          (same_generation cp.validators remote) (rw loaded at e)
