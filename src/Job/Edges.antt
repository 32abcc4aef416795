-- ===== src/Job/Edges.antt =====
-- Facts about all states and all edges of crates/engine/src/job/state.rs, by running a test on each.
use kdown.Prelude.{Bool, true, false, not, ◌&&◌, ◌||◌, ◌≡◌, refl, sym, ap, ◌∙◌, ◌==◌, ==_iff, arith}
use kdown.Job.State.{
  JobState, created, probing, preparing, running, pausing, paused, resuming, verifying, committing,
  cancelling, failing, completed, cancelled, failed, ordinal, decode, allowed,
}

abbrev pub all_states : (JobState → Bool) → Bool
all_states p =
    (p created
      && (p probing
          && (p preparing
              && (p running
                  && (p pausing
                      && (p paused
                          && (p resuming
                              && (p verifying
                                  && (p committing
                                      && (p cancelling
                                          && (p failing
                                              && (p completed
                                                  && (p cancelled && p failed)))))))))))))

pub by_states : (p : JobState → Bool) → all_states p ≡ true → (s : JobState) → p s ≡ true
by_states p h created = ground arith
by_states p h probing = ground arith
by_states p h preparing = ground arith
by_states p h running = ground arith
by_states p h pausing = ground arith
by_states p h paused = ground arith
by_states p h resuming = ground arith
by_states p h verifying = ground arith
by_states p h committing = ground arith
by_states p h cancelling = ground arith
by_states p h failing = ground arith
by_states p h completed = ground arith
by_states p h cancelled = ground arith
by_states p h failed = ground arith

-- The byte of a state is decoded to that state.
pub decode-ordinal : (s : JobState) → decode (ordinal s) ≡ s
unfolding decode
decode-ordinal created = refl
decode-ordinal probing = refl
decode-ordinal preparing = refl
decode-ordinal running = refl
decode-ordinal pausing = refl
decode-ordinal paused = refl
decode-ordinal resuming = refl
decode-ordinal verifying = refl
decode-ordinal committing = refl
decode-ordinal cancelling = refl
decode-ordinal failing = refl
decode-ordinal completed = refl
decode-ordinal cancelled = refl
decode-ordinal failed = refl

abbrev pub same : JobState → JobState → Bool
same f g = ordinal f == ordinal g

pub same→≡ : (f g : JobState) → same f g ≡ true → f ≡ g
same→≡ f g h =
    sym (decode-ordinal f) ∙ ap decode ((==_iff (ordinal f) (ordinal g)).0 h) ∙ decode-ordinal g

implies_lem : (a b : Bool) → (not a || b) ≡ true → a ≡ true → b ≡ true
implies_lem true b h e = h
implies_lem false b h e = absurd (ground arith)

-- A test that passes on every edge holds of every edge.
pub by_edges :
    (test : JobState → JobState → Bool)
    → all_states (λ f. all_states (λ t. not (allowed f t) || test f t)) ≡ true
    → (f t : JobState) → allowed f t ≡ true
    → test f t ≡ true
by_edges test h f t = implies_lem (allowed f t) (test f t) (
    by_states (λ t. not (allowed f t) || test f t)
      (by_states (λ f. all_states (λ t. not (allowed f t) || test f t)) h f) t)
