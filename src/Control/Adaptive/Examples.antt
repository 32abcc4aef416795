-- ===== src/Control/Adaptive/Examples.antt =====
-- Tests of crates/engine/src/control/adaptive.rs, and instances of its theorems. The floats of the
-- tests are natural numbers.
use kdown.Prelude.{ℕ, ◌+◌, ◌-◌, ◌*◌, ◌/◌, max, ◌≡◌, refl, none, [], ◌∷◌, leb, ltb, arith}
use kdown.Control.Adaptive.{
  Floats, AdaptiveConfig, WindowSample, new, decide, apply, observed, pressed, unpressed,
  under_pressure, has_storage_pressure, has_resource_pressure,
}
use kdown.Control.Adaptive.Bounds.{IsMove, run, decide-IsMove}

abbrev whole : Floats
whole = record {
  F = ℕ;
  of_nat = λ n. n;
  secs = λ ms. ms;
  zero_f = 0;
  half = 1;
  epsilon = 1;
  add = λ a b. (a + b) / 2;
  sub = λ a b. a - b;
  mul = λ a b. a * b;
  div = λ a b. a / b;
  fmax = λ a b. max a b;
  abs = λ a. a;
  lt = λ a b. ltb a b;
  ge = λ a b. leb b a;
}

abbrev config : AdaptiveConfig ℕ
config = record {
  material_gain_band = 1;
  cooldown = 1000;
  max_retries_per_window = 2;
  max_throttled_per_window = 0;
  writer_queue_p95_ceiling = 8;
  writer_ack_p95_ceiling_ms = 250;
  budget_wait_ceiling_ms = 250;
  rss_ceiling_bytes = 1000000;
  cpu_ceiling_percent = 400;
  sustained_pressure_windows = 2;
}

abbrev steady : WindowSample ℕ
steady = record {
  completed_bytes = 5000;
  network_bytes = 5000;
  wasted_bytes = 0;
  retries = 0;
  throttled = 0;
  writer_ack_p95_ms = none;
  writer_queue_p95 = none;
  budget_wait_ms = 0;
  rss_bytes = none;
  cpu_percent = none;
  elapsed = 500;
}

abbrev throttled_once : WindowSample ℕ
throttled_once = record steady { throttled = 1 }

-- The second window converges, and a worker is added; throttling then takes it away.
level_after :
    (run whole (new config 2 4) 2 ((steady, 500) ∷ (steady, 1000) ∷ (throttled_once, 1500) ∷ [])).1
    ≡ 2
unfolding run decide apply observed pressed unpressed under_pressure has_storage_pressure
    has_resource_pressure
level_after = refl

level_up : (run whole (new config 2 4) 2 ((steady, 500) ∷ (steady, 1000) ∷ [])).1 ≡ 3
unfolding run decide apply observed pressed unpressed under_pressure has_storage_pressure
    has_resource_pressure
level_up = refl

decide-IsMove_example :
    IsMove whole
      (new config 2 4)
      2
      500
      (decide whole (new config 2 4) steady 2 500).0
      (decide whole (new config 2 4) steady 2 500).1
decide-IsMove_example =
    decide-IsMove whole (new config 2 4) steady 2 500 (omega arith, omega arith, tt)
