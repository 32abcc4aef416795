-- ===== src/Job/Examples.antt =====
-- Tests of crates/engine/src/job/state.rs, and instances of its theorems.
use kdown.Prelude.{◌+◌, ◌*◌, ◌≤◌, ◌≡◌, ◌⊎◌, refl, List, [], ◌∷◌, length, sum_by}
use kdown.Job.State.{
  JobState, probing, running, pausing, paused, resuming, verifying, committing, cancelling,
  cancelled, completed, failed, get, new, settle, transition, fail, cancel, invalid_transition,
  allowed,
}
use kdown.Job.Request.{Request, moves, fails, cancels, run, request, edges, at}
use kdown.Job.Lifecycle.{edges_bounded, completed_verified, back}
use kdown.Job.Stop.{fail_ends, late_store}

abbrev whole_job : List Request
whole_job =
    moves probing
    ∷ moves running
    ∷ moves pausing
    ∷ moves paused
    ∷ moves running
    ∷ moves resuming
    ∷ moves running
    ∷ moves verifying
    ∷ moves committing
    ∷ moves completed
    ∷ cancels
    ∷ []

-- The direct edge from paused to running is refused, and a completed job is not cancelled.
whole_job_completes : get (run new whole_job) ≡ completed
unfolding run get request cancel new allowed
whole_job_completes = refl

commit_failure : get (run (at committing) (fails ∷ moves completed ∷ fails ∷ [])) ≡ failed
unfolding run get request fail allowed
commit_failure = refl

edges_bounded_example :
    length (edges new [] whole_job) ≤ 13 + 4 * sum_by back (edges new [] whole_job)
edges_bounded_example = edges_bounded whole_job

completed_verified_example :
    (old : List (JobState × JobState)) × (edges new [] whole_job
      ≡ (committing, completed) ∷ (verifying, committing) ∷ (running, verifying) ∷ old)
completed_verified_example = completed_verified whole_job whole_job_completes

fail_ends_example :
    ((get (at running) ≡ cancelling)
      × (fail (at running) ≡ (at running, invalid_transition cancelling failed)))
    ⊎ (get (run (at running) (fails ∷ fails ∷ [])) ≡ failed)
unfolding get
fail_ends_example = fail_ends (at running) refl

late_store_example :
    let ended = run (at running) (cancels ∷ cancels ∷ []) in
    (get ended ≡ cancelled)
    × ((transition verifying ended).1 ≡ invalid_transition cancelled verifying)
    × (get (settle (get (at running)) verifying ended).0 ≡ verifying)
unfolding get allowed
late_store_example =
    late_store (at running) verifying refl (λ h. absurd (cc)) (λ h. absurd (cc)) refl
