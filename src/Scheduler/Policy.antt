-- ===== src/Scheduler/Policy.antt =====
-- The sizing policy of crates/engine/src/scheduler/core.rs, and the duration-informed target. The
-- `f64` estimate is over an abstract type of floats: no theorem needs a law of it.
use kdown.Prelude.{
  ℕ, ◌+◌, ◌*◌, ◌/◌, ◌%◌, ◌^◌, min, max, ◌≤◌, Bool, ◌||◌, Option, none, some, ltb, ◌==◌,
  if◌then◌else◌, arith, saturating_sub, saturating_mul, clamp, div_ceil,
}

-- `f64`, with the operations that the estimate uses.
pub record Floats : Type 1 where
  pub F : Type 0
  pub of_nat : ℕ → F  -- `as f64`
  pub to_nat : F → ℕ  -- `as u64`
  pub one : F
  pub two : F
  pub quarter : F
  pub add : F → F → F
  pub sub : F → F → F
  pub mul : F → F → F
  pub div : F → F → F
  pub fmax : F → F → F
  pub lt : F → F → Bool

pub data TargetSelector : Type 0 where
  unset : TargetSelector  -- `TargetSelector::None`
  explicit : ℕ → TargetSelector
  automatic : ℕ → ℕ → TargetSelector  -- initial workers, oversubscription
  duration : ℕ → ℕ → TargetSelector  -- milliseconds, seed size

pub record SchedulerPolicy : Type 0 where
  pub min_segment_size : ℕ
  pub max_segment_size : ℕ
  pub target : TargetSelector
  pub split_threshold : ℕ
  pub ready_work_divisor : ℕ

unfoldable pub new_policy : ℕ → ℕ → SchedulerPolicy
new_policy min_size max_size =
    let low = max min_size 1 in
    record {
      min_segment_size = low;
      max_segment_size = max max_size low;
      target = unset;
      split_threshold = 256 * 1024;
      ready_work_divisor = 0;
    }

unfoldable pub with_target : ℕ → ℕ → TargetSelector → ℕ → SchedulerPolicy
unfolding new_policy
with_target min_size max_size t threshold = record (new_policy min_size max_size) {
  target = t;
  split_threshold = max threshold 1;
}

unfoldable pub resolve_target : ℕ → ℕ → TargetSelector → ℕ → Option ℕ
resolve_target low high unset pending = none
resolve_target low high (explicit size) pending = some (clamp size low high)
resolve_target low high (automatic workers over) pending =
    let all = saturating_mul (max workers 1) (max over 1) in
    some (clamp (div_ceil (max pending 1) (max all 1)) low high)
resolve_target low high (duration ms seed) pending = some (clamp seed low high)

unfoldable pub apply_ready_work_cap : SchedulerPolicy → ℕ → ℕ → ℕ
apply_ready_work_cap p want gap_len =
    if p.ready_work_divisor == 0
    then want
    else let least = max (min p.min_segment_size gap_len) 1 in
      let reserve = saturating_mul (saturating_sub p.ready_work_divisor 1) least in
      if ltb reserve gap_len then min want (max (saturating_sub gap_len reserve) least) else want

abbrev unwrap_or : Option ℕ → ℕ → ℕ
unwrap_or none d = d
unwrap_or (some n) d = n

unfoldable pub target_len : SchedulerPolicy → ℕ → Option ℕ → ℕ
unfolding apply_ready_work_cap
target_len p gap_len resolved =
    let raw = unwrap_or resolved p.max_segment_size in
    let least = min p.min_segment_size gap_len in
    apply_ready_work_cap p (max (min (clamp raw least p.max_segment_size) gap_len) least) gap_len

unfoldable pub min_in_gap : ℕ → ℕ → ℕ
min_in_gap least gap_len = max (min least gap_len) 1

abbrev pub duration_stable_samples : ℕ
duration_stable_samples = 3

module _ (fl : Floats) where
  open fl use {F, of_nat, to_nat, one, two, quarter, add, sub, mul, div, fmax, lt}

  pub record DurationTarget : Type 0 where
    pub duration_ms : ℕ
    pub seed_size : ℕ
    pub ewma_bytes_per_ms : F
    pub samples : ℕ
    pub last_alloc : ℕ

  unfoldable pub new_duration : ℕ → ℕ → DurationTarget
  new_duration ms seed = record {
    duration_ms = max ms 1;
    seed_size = seed;
    ewma_bytes_per_ms = of_nat 0;
    samples = 0;
    last_alloc = seed;
  }

  unfoldable pub observe : DurationTarget → ℕ → ℕ → DurationTarget
  observe d bytes held_ms =
      let sample = div (of_nat bytes) (of_nat held_ms) in
      let smooth = add (mul d.ewma_bytes_per_ms (sub one quarter)) (mul sample quarter) in
      if bytes == 0 || held_ms == 0 then d else record d {
        ewma_bytes_per_ms = (if d.samples == 0 then sample else smooth);
        samples = d.samples + 1;
      }

  -- `self.last_alloc * 2` wraps as a release build does; the result is clamped afterwards.
  stepped : DurationTarget → ℕ
  stepped d =
      let raw = mul d.ewma_bytes_per_ms (of_nat d.duration_ms) in
      if lt (mul (of_nat d.last_alloc) two) raw
      then (d.last_alloc * 2) % 2 ^ 64
      else if lt raw (div (of_nat d.last_alloc) two)
      then max (d.last_alloc / 2) 1
      else to_nat (fmax raw one)

  unfoldable pub next_size : DurationTarget → ℕ → ℕ → ℕ → ℕ
  unfolding stepped min_in_gap
  next_size d low high gap_len =
      if ltb d.samples duration_stable_samples
      then max (min (clamp d.seed_size (min low gap_len) high) gap_len) 1
      else max (min (clamp (stepped d) (min low gap_len) high) gap_len) (min_in_gap low gap_len)

-- The bounds of a policy that `new_policy` and `with_target` establish.
pub record IsPolicy (p : SchedulerPolicy) : Type 0 where
  pub min_pos : 1 ≤ p.min_segment_size
  pub ordered : p.min_segment_size ≤ p.max_segment_size

pub with_target-IsPolicy :
    (low high : ℕ) (t : TargetSelector) (threshold : ℕ)
    → IsPolicy (with_target low high t threshold)
unfolding with_target
with_target-IsPolicy low high t threshold = omega arith

-- Between 1 and the largest segment, and within the gap.
abbrev pub Fits : ℕ → ℕ → ℕ → Type 0
Fits want high gap_len = (1 ≤ want) × (want ≤ high) × (want ≤ gap_len)

module _ (p : SchedulerPolicy) (v : IsPolicy p) (gap_len : ℕ) (g : 1 ≤ gap_len) where
  pub apply_ready_work_cap-Fits :
      (want : ℕ)
      → Fits want p.max_segment_size gap_len
      → Fits (apply_ready_work_cap p want gap_len) p.max_segment_size gap_len
  unfolding apply_ready_work_cap
  apply_ready_work_cap-Fits want h = ground arith

  pub target_len-Fits :
      (resolved : Option ℕ) → Fits (target_len p gap_len resolved) p.max_segment_size gap_len
  unfolding target_len
  target_len-Fits none = apply_ready_work_cap-Fits _ (omega arith)
  target_len-Fits (some n) = apply_ready_work_cap-Fits _ (omega arith)

  pub next_size-Fits :
      (fl : Floats) (d : DurationTarget fl)
      → Fits
          (next_size fl d p.min_segment_size p.max_segment_size gap_len)
          p.max_segment_size
          gap_len
  unfolding next_size
  next_size-Fits fl d = ground arith
