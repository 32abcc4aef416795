-- ===== src/Io/Buffers/Examples.antt =====
-- Tests of crates/engine/src/io/buffer_pool.rs, and instances of its theorems.
use kdown.Prelude.{◌≡◌, refl, List, [], ◌∷◌, arith}
use kdown.Io.Buffers.{try_acquire, acquire_inner, acquire_now, blocks, release, bytes_outstanding}
use kdown.Io.Buffers.Bounds.{
  Event, tries, step, run, initial, IsCounted, run-IsCounted, users, two_wait, two_wait-overshoots,
}

-- A pool of two buffers gives the third caller none.
abbrev three_calls : List Event
three_calls = tries ∷ tries ∷ tries ∷ []

third_refused : (run (initial 4 8) three_calls).in_use ≡ [] ∷ [] ∷ []
unfolding run step try_acquire acquire_inner
third_refused = refl

overshoot :
    bytes_outstanding (run (initial 4 4) (tries ∷ two_wait 4 1 [] [] (omega arith))).pool ≡ 8
unfolding run step try_acquire acquire_inner acquire_now blocks release
overshoot = refl

run-IsCounted_example : IsCounted 0 (run (initial 4 8) three_calls)
run-IsCounted_example = run-IsCounted 4 8 three_calls

two_wait-overshoots_example :
    run (users 4 1 [] [] (omega arith) [] 1 ([] ∷ []) 0 0) (two_wait 4 1 [] [] (omega arith))
    ≡ users 4 1 [] [] (omega arith) [] 2 ([] ∷ [] ∷ []) 0 0
two_wait-overshoots_example = two_wait-overshoots 4 1 [] [] (omega arith)
