-- ===== src/Resume/Checkpoint/Estimate.antt =====
-- What the estimate of crates/engine/src/resume/checkpoint.rs leaves out. The JSON text that
-- `serde_json` writes is a parameter.
use Prim.Native.String
use Prim.Native.String.{len}
use kdown.Prelude.{ℕ, zero, suc, ◌≤◌, ◌<◌, ◌≡◌, refl, String, ok, arith}
use kdown.Resume.Checkpoint.{Checkpoint}
use kdown.Resume.Checkpoint.Size.{check_serialized_within, checked_serialized_size}

abbrev pub with_id : Checkpoint → String → Checkpoint
with_id cp id = record cp { job_id = id }

abbrev repeated : ℕ → String
repeated zero = String.[]
repeated (suc n) = String.◌∷◌ "x" (repeated n)

len-repeated : (n : ℕ) → len (repeated n) ≡ n
len-repeated zero = refl
len-repeated (suc n) = rw (String.len.cons "x" (repeated n), len-repeated n) (omega arith)

-- Where the JSON text of a checkpoint is at least as long as its job's id: if a checkpoint passes
-- `check_serialized_within` for a budget, then with some other id of the job it passes with the
-- same estimate, and its JSON text is longer than the budget.
pub estimate_exceeded :
    (to_json : Checkpoint → String)
    → ((cp : Checkpoint) → len cp.job_id ≤ len (to_json cp))
    → (cap n : ℕ) (cp : Checkpoint) → check_serialized_within cap cp ≡ ok n
    → (id : String) × (check_serialized_within cap (with_id cp id) ≡ ok n)
      × (cap < len (to_json (with_id cp id)))
unfolding check_serialized_within checked_serialized_size
estimate_exceeded to_json writes cap n cp h =
    let id = repeated (suc cap) in
    (id, h, omega (arith, writes (with_id cp id), len-repeated (suc cap)))
