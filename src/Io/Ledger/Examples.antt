-- ===== src/Io/Ledger/Examples.antt =====
-- Tests of crates/engine/src/io/transfer_ledger.rs, and instances of its theorems.
use kdown.Prelude.{ℕ, ◌≡◌, refl, [], arith}
use kdown.Io.Ledger.{
  frames, Pool, JobLedger, reserved, refused, no_capacity, try_reserve, drop_reservation,
  tightest_cap, probe_and_acquire,
}
use kdown.Io.Ledger.Reserve.{
  IsOutcome, Charged, try_reserve-IsOutcome, drop-try_reserve, try_reserve_leaks,
}

abbrev pool : ℕ → ℕ → Pool
pool cap held = record { cap = cap; outstanding = held; high_water = held; waiters = [] }

-- The caps of the source's tests, with some bytes of the controller held by other jobs.
abbrev small_ledger : ℕ → JobLedger
small_ledger held = record {
  controller = pool 4096 held;
  job = pool 2048 0;
  components = λ c. pool 1024 0;
  meters = λ c. record { held = 0; peak = 0 };
  component_caps = λ c. 1024;
}

half_reserved : (try_reserve (small_ledger 0) frames 512).1 ≡ reserved frames 512
unfolding try_reserve probe_and_acquire
half_reserved = refl

try_reserve-IsOutcome_example :
    IsOutcome (small_ledger 0) frames 512 (try_reserve (small_ledger 0) frames 512)
try_reserve-IsOutcome_example =
    try_reserve-IsOutcome (small_ledger 0) frames 512
      ((omega arith, omega arith), (omega arith, omega arith), (omega arith, omega arith))

drop-try_reserve_example :
    Charged
      (small_ledger 0)
      (drop_reservation (try_reserve (small_ledger 0) frames 512).0 frames 512)
      frames
      0
      0
      0
drop-try_reserve_example =
    drop-try_reserve (small_ledger 0) frames 512
      ((omega arith, omega arith), (omega arith, omega arith), (omega arith, omega arith))
      half_reserved

try_reserve_leaks_example :
    ((try_reserve (small_ledger 4000) frames 512).1 ≡ refused (no_capacity frames))
    × Charged (small_ledger 4000) (try_reserve (small_ledger 4000) frames 512).0 frames 512 0 0
unfolding tightest_cap
try_reserve_leaks_example =
    try_reserve_leaks (small_ledger 4000) frames 512
      ((omega arith, omega arith), (omega arith, omega arith), (omega arith, omega arith)) refl refl
      (omega arith) (omega arith) (omega arith) (omega arith)
