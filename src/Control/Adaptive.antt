-- ===== src/Control/Adaptive.antt =====
-- crates/engine/src/control/adaptive.rs: the controller of the number of workers. Floats are an
-- abstract type whose operations have no laws, and the clock is an argument; times are in milliseconds.
pub mod Bounds
pub mod Examples
use kdown.Prelude.{
  ℕ, ◌+◌, ◌-◌, min, max, Bool, true, false, not, ◌&&◌, ◌||◌, Option, none, some, List, [], ◌∷◌, ltb,
  leb, ◌==◌, if◌then◌else◌, saturating_sub, clamp, u32_max,
}

-- `f64`, with the operations that the file uses.
pub record Floats : Type 1 where
  pub F : Type 0
  pub of_nat : ℕ → F  -- `as f64`
  pub secs : ℕ → F  -- `as_secs_f64`
  pub zero_f : F
  pub half : F
  pub epsilon : F
  pub add : F → F → F
  pub sub : F → F → F
  pub mul : F → F → F
  pub div : F → F → F
  pub fmax : F → F → F
  pub abs : F → F
  pub lt : F → F → Bool
  pub ge : F → F → Bool

abbrev pub opening_window_cap : ℕ
opening_window_cap = 8

pub record AdaptiveConfig (F : Type 0) : Type 0 where
  pub material_gain_band : F
  pub cooldown : ℕ
  pub max_retries_per_window : ℕ
  pub max_throttled_per_window : ℕ
  pub writer_queue_p95_ceiling : F
  pub writer_ack_p95_ceiling_ms : F
  pub budget_wait_ceiling_ms : ℕ
  pub rss_ceiling_bytes : ℕ
  pub cpu_ceiling_percent : F
  pub sustained_pressure_windows : ℕ

-- The fields that the decision reads.
pub record WindowSample (F : Type 0) : Type 0 where
  pub completed_bytes : ℕ
  pub network_bytes : ℕ
  pub wasted_bytes : ℕ
  pub retries : ℕ
  pub throttled : ℕ
  pub writer_ack_p95_ms : Option F
  pub writer_queue_p95 : Option F
  pub budget_wait_ms : ℕ
  pub rss_bytes : Option ℕ
  pub cpu_percent : Option F
  pub elapsed : ℕ

pub data DecisionReason : Type 0 where
  no_reason : DecisionReason  -- `None`
  by_manual_override : DecisionReason
  empty_window : DecisionReason
  cooling_down : DecisionReason
  baseline : DecisionReason
  gain_kept : DecisionReason
  no_gain_reverted : DecisionReason
  probe : DecisionReason
  retry_pressure : DecisionReason
  storage_pressure : DecisionReason
  resource_pressure : DecisionReason
  at_maximum : DecisionReason

pub data Decision : Type 0 where
  hold : Decision
  probe_up : Decision
  reduce : Decision

pub record AdaptiveController (F : Type 0) : Type 0 where
  pub config : AdaptiveConfig F
  pub min_level : ℕ  -- `min`
  pub max_level : ℕ  -- `max`
  pub best_goodput : Option F
  pub reference_anchored : Bool
  pub baseline_windows : ℕ
  pub smoothed_goodput : Option F
  pub pre_probe_level : Option ℕ
  pub cooldown_until : Option ℕ
  pub manual : Bool  -- `manual_override`
  pub pressure_windows : ℕ
  pub reason : DecisionReason

abbrev pub new : {F : Type 0} → AdaptiveConfig F → ℕ → ℕ → AdaptiveController F
new config low high = record {
  config = config;
  min_level = max low 1;
  max_level = max high (max low 1);
  best_goodput = none;
  reference_anchored = false;
  baseline_windows = 0;
  smoothed_goodput = none;
  pre_probe_level = none;
  cooldown_until = none;
  manual = false;
  pressure_windows = 0;
  reason = no_reason;
}

abbrev pub before : ℕ → Option ℕ → Bool
before now none = false
before now (some until) = ltb now until

abbrev pub in_cooldown : {F : Type 0} → AdaptiveController F → ℕ → Bool
in_cooldown t now = before now t.cooldown_until

abbrev pub at_least : Option ℕ → ℕ → Bool
at_least none ceiling = false
at_least (some n) ceiling = leb ceiling n

abbrev pub or_else : {A : Type 0} → Option A → A → A
or_else none d = d
or_else (some a) d = a

-- `apply`.
unfoldable pub apply : {F : Type 0} → AdaptiveController F → Decision → ℕ → ℕ
apply t hold current = current
apply t probe_up current = clamp (current + 1) t.min_level t.max_level
apply t reduce current = clamp (saturating_sub current 1) t.min_level t.max_level

-- The cooldown that follows every change and every veto.
abbrev pub cool : {F : Type 0} → AdaptiveController F → ℕ → AdaptiveController F
cool t now = record t { cooldown_until = some (now + t.config.cooldown) }

module _ (fl : Floats) where
  abbrev pub useful_goodput : WindowSample fl.F → fl.F
  useful_goodput s = fl.div (fl.of_nat s.completed_bytes) (fl.fmax (fl.secs s.elapsed) fl.epsilon)

  unfoldable pub under_pressure : WindowSample fl.F → AdaptiveConfig fl.F → Bool
  under_pressure s c =
      ltb c.max_retries_per_window s.retries
      || ltb c.max_throttled_per_window s.throttled
      || (ltb 0 s.wasted_bytes && leb s.completed_bytes s.wasted_bytes && ltb 0 s.completed_bytes)

  abbrev pub float_at_least : Option fl.F → fl.F → Bool
  float_at_least none ceiling = false
  float_at_least (some x) ceiling = fl.ge x ceiling

  unfoldable pub has_storage_pressure : WindowSample fl.F → AdaptiveConfig fl.F → Bool
  unfolding float_at_least
  has_storage_pressure s c =
      float_at_least s.writer_queue_p95 c.writer_queue_p95_ceiling
      || float_at_least s.writer_ack_p95_ms c.writer_ack_p95_ceiling_ms
      || leb c.budget_wait_ceiling_ms s.budget_wait_ms

  unfoldable pub has_resource_pressure : WindowSample fl.F → AdaptiveConfig fl.F → Bool
  unfolding float_at_least
  has_resource_pressure s c =
      at_least s.rss_bytes c.rss_ceiling_bytes || float_at_least s.cpu_percent c.cpu_ceiling_percent

  abbrev pub smooth : Option fl.F → fl.F → fl.F
  smooth none x = x
  smooth (some prev) x = fl.add (fl.mul fl.half prev) (fl.mul fl.half x)

  abbrev pub converged : AdaptiveConfig fl.F → Option fl.F → fl.F → Bool
  converged c none smoothed = false
  converged c (some prev) smoothed =
      fl.lt (fl.abs (fl.sub smoothed prev)) (fl.mul c.material_gain_band (fl.fmax prev fl.epsilon))

  -- The smoothing, and the anchoring of the reference.
  unfoldable pub observed : AdaptiveController fl.F → WindowSample fl.F → AdaptiveController fl.F
  unfolding useful_goodput smooth converged
  observed t s =
      let smoothed = smooth t.smoothed_goodput (useful_goodput s) in
      record t {
        reference_anchored =
            t.reference_anchored
            || converged t.config t.smoothed_goodput smoothed
            || leb opening_window_cap t.baseline_windows;
        smoothed_goodput = some smoothed;
      }

  abbrev pub pressure_reason : Bool → Bool → DecisionReason
  pressure_reason retry storage =
      if retry then retry_pressure else if storage then storage_pressure else resource_pressure

  abbrev pub pressed_from :
      AdaptiveController fl.F → ℕ → ℕ → Option ℕ → AdaptiveController fl.F × Decision
  pressed_from t current now (some pre) =
      (cool (record t { pre_probe_level = none }) now, if ltb pre current then reduce else hold)
  pressed_from t current now none = (
    cool t now,
    if leb (max t.config.sustained_pressure_windows 1) t.pressure_windows
        then (if ltb t.min_level current then reduce else hold)
        else hold,
  )

  unfoldable pub pressed :
      AdaptiveController fl.F → Bool → Bool → ℕ → ℕ → AdaptiveController fl.F × Decision
  unfolding pressed_from
  pressed t retry storage current now =
      let windows =
        if retry
        then max t.config.sustained_pressure_windows 1
        else min (t.pressure_windows + 1) u32_max in
      pressed_from (record t { reason = pressure_reason retry storage; pressure_windows = windows })
        current now t.pre_probe_level

  abbrev pub best_of : Option fl.F → fl.F → fl.F
  best_of none x = x
  best_of (some best) x = fl.fmax best x

  abbrev pub ratchet_from : AdaptiveController fl.F → Option ℕ → Option fl.F
  unfolding best_of
  ratchet_from t (some pre) = t.best_goodput
  ratchet_from t none = some (best_of t.best_goodput (or_else t.smoothed_goodput fl.zero_f))

  -- The stable-level reference is raised only while no probe is in flight.
  abbrev pub ratchet : AdaptiveController fl.F → AdaptiveController fl.F
  unfolding ratchet_from
  ratchet t = record t { pressure_windows = 0; best_goodput = ratchet_from t t.pre_probe_level }

  abbrev pub gain : AdaptiveController fl.F → fl.F
  gain t =
      let reference = or_else t.best_goodput fl.zero_f in
      let smoothed = or_else t.smoothed_goodput reference in
      fl.div (fl.sub smoothed reference) (fl.fmax reference fl.epsilon)

  -- A probe is in flight, or the level is stable.
  abbrev pub settled_from :
      AdaptiveController fl.F → ℕ → ℕ → Option ℕ → AdaptiveController fl.F × Decision
  unfolding gain
  settled_from t current now (some pre) =
      if fl.ge (gain t) t.config.material_gain_band
      then (if ltb current t.max_level
          then (
            cool
                (record t {
                  best_goodput = t.smoothed_goodput;
                  pre_probe_level = some current;
                  reason = gain_kept;
                })
                now,
            probe_up,
          )
          else (
            cool
                (record t {
                  best_goodput = t.smoothed_goodput;
                  pre_probe_level = none;
                  reason = at_maximum;
                })
                now,
            hold,
          ))
      else (
        cool (record t { pre_probe_level = none; reason = no_gain_reverted }) now,
        if ltb t.min_level current then reduce else hold,
      )
  settled_from t current now none =
      if ltb current t.max_level
      then (cool (record t { pre_probe_level = some current; reason = probe }) now, probe_up)
      else (record t { reason = at_maximum }, hold)

  unfoldable pub unpressed : AdaptiveController fl.F → ℕ → ℕ → AdaptiveController fl.F × Decision
  unfolding settled_from
  unpressed t current now =
      if in_cooldown t now
      then (record t { reason = cooling_down }, hold)
      else if not t.reference_anchored
      then (record t { baseline_windows = t.baseline_windows + 1; reason = baseline }, hold)
      else settled_from t current now t.pre_probe_level

  unfoldable pub decide :
      AdaptiveController fl.F → WindowSample fl.F → ℕ → ℕ → AdaptiveController fl.F × Decision
  unfolding observed pressed unpressed ratchet under_pressure has_storage_pressure
      has_resource_pressure
  decide t s current now =
      let seen = observed t s in
      let retry = under_pressure s t.config in
      let storage = has_storage_pressure s t.config in
      let resource = has_resource_pressure s t.config in
      if t.manual
      then (record t { reason = by_manual_override }, hold)
      else if s.elapsed == 0 || (s.completed_bytes == 0 && s.network_bytes == 0)
      then (record t { reason = empty_window }, hold)
      else if retry || storage || resource
      then pressed seen retry storage current now
      else unpressed (ratchet seen) current now
