-- ===== src/Control/Adaptive/Bounds.antt =====
-- The moves of the controller of crates/engine/src/control/adaptive.rs.
use kdown.Prelude.{
  ℕ, ◌+◌, ◌≤◌, ◌<◌, max, Bool, true, false, not, ◌&&◌, ◌||◌, ◌≡◌, refl, ◌∙◌, inl, inr, Option, none,
  some, List, [], ◌∷◌, ltb, leb, ◌==◌, if◌then◌else◌, arith, Bool-cases, ltb→lt,
}
use kdown.Control.Adaptive.{
  Floats, AdaptiveConfig, AdaptiveController, WindowSample, Decision, hold, probe_up, reduce, new,
  in_cooldown, apply, observed, pressed, pressed_from, ratchet, settled_from, unpressed, decide,
  gain, under_pressure, has_storage_pressure, has_resource_pressure, cooling_down, baseline,
  empty_window, by_manual_override,
}

module _ (fl : Floats) where
  -- The level that a probe left is not below the bounds.
  abbrev pub LeftInBounds : ℕ → Option ℕ → Type 0
  LeftInBounds low none = Unit {0}
  LeftInBounds low (some pre) = low ≤ pre

  abbrev pub InBounds : AdaptiveController fl.F → ℕ → Type 0
  InBounds t current =
      (t.min_level ≤ current) × (current ≤ t.max_level) × LeftInBounds t.min_level t.pre_probe_level

  -- The bounds and the configuration stay.
  abbrev pub SameBounds : AdaptiveController fl.F → AdaptiveController fl.F → Type 0
  SameBounds t next =
      (next.min_level ≡ t.min_level)
      × (next.max_level ≡ t.max_level)
      × LeftInBounds t.min_level next.pre_probe_level

  -- What a decision implies: a worker is added only below the maximum, out of the cooldown, and
  -- removed only above the minimum; either starts a new cooldown.
  abbrev pub IsMove : AdaptiveController fl.F → ℕ → ℕ → AdaptiveController fl.F → Decision → Type 0
  IsMove t current now next hold = SameBounds t next
  IsMove t current now next probe_up =
      SameBounds t next
      × (current < t.max_level)
      × (in_cooldown t now ≡ false)
      × (next.cooldown_until ≡ some (now + t.config.cooldown))
  IsMove t current now next reduce =
      SameBounds t next
      × (t.min_level < current)
      × (next.cooldown_until ≡ some (now + t.config.cooldown))

  pressed_from-IsMove :
      (t : AdaptiveController fl.F) (current now : ℕ) (left : Option ℕ)
      → LeftInBounds t.min_level t.pre_probe_level
      → LeftInBounds t.min_level left
      → IsMove t current now
          (pressed_from fl t current now left).0
          (pressed_from fl t current now left).1
  unfolding pressed_from
  pressed_from-IsMove t current now (some pre) b low = elim (Bool-cases (ltb pre current)) [
    | inl l ↦ rw l ((refl, refl, tt), ground (arith, low, l), refl)
    | inr l ↦ rw l (refl, refl, tt)
  ]
  pressed_from-IsMove t current now none b low =
      elim (Bool-cases (leb (max t.config.sustained_pressure_windows 1) t.pressure_windows)) [
        | inr w ↦ rw w (refl, refl, b)
        | inl w ↦ elim (Bool-cases (ltb t.min_level current)) [
          | inl l ↦ rw (w, l) ((refl, refl, b), ltb→lt t.min_level current l, refl)
          | inr l ↦ rw (w, l) (refl, refl, b)
        ]
      ]

  settled_from-IsMove :
      (t : AdaptiveController fl.F) (current now : ℕ) (left : Option ℕ)
      → t.min_level ≤ current
      → LeftInBounds t.min_level t.pre_probe_level
      → in_cooldown t now ≡ false
      → IsMove t current now
          (settled_from fl t current now left).0
          (settled_from fl t current now left).1
  unfolding settled_from
  settled_from-IsMove t current now none m b c = elim (Bool-cases (ltb current t.max_level)) [
    | inl l ↦ rw l ((refl, refl, m), ltb→lt current t.max_level l, c, refl)
    | inr l ↦ rw l (refl, refl, b)
  ]
  settled_from-IsMove t current now (some pre) m b c =
      elim (Bool-cases (fl.ge (gain fl t) t.config.material_gain_band)) [
        | inl g ↦ elim (Bool-cases (ltb current t.max_level)) [
          | inl l ↦ rw (g, l) ((refl, refl, m), ltb→lt current t.max_level l, c, refl)
          | inr l ↦ rw (g, l) (refl, refl, tt)
        ]
        | inr g ↦ elim (Bool-cases (ltb t.min_level current)) [
          | inl l ↦ rw (g, l) ((refl, refl, tt), ltb→lt t.min_level current l, refl)
          | inr l ↦ rw (g, l) (refl, refl, tt)
        ]
      ]

  -- A conditional moves as its branches do.
  if-IsMove :
      (t : AdaptiveController fl.F) (current now : ℕ) (b : Bool)
      (x y : AdaptiveController fl.F × Decision)
      → (b ≡ true → IsMove t current now x.0 x.1)
      → (b ≡ false → IsMove t current now y.0 y.1)
      → IsMove t current now (if b then x else y).0 (if b then x else y).1
  if-IsMove t current now true x y f g = f refl
  if-IsMove t current now false x y f g = g refl

  unpressed-IsMove :
      (t : AdaptiveController fl.F) (current now : ℕ)
      → InBounds t current
      → IsMove t current now (unpressed fl t current now).0 (unpressed fl t current now).1
  unfolding unpressed
  unpressed-IsMove t current now b =
      let settled = settled_from fl t current now t.pre_probe_level in
      let waiting : AdaptiveController fl.F × Decision =
        (record t { baseline_windows = t.baseline_windows + 1; reason = baseline }, hold) in
      if-IsMove t current now (in_cooldown t now) (record t { reason = cooling_down }, hold)
        (if not t.reference_anchored then waiting else settled) (λ e. (refl, refl, b.2))
        (λ c.
          if-IsMove t current now (not t.reference_anchored) waiting settled
            (λ e. (refl, refl, b.2))
            (λ e. settled_from-IsMove t current now t.pre_probe_level b.0 b.2 c))

  -- For a level within the bounds, on every branch: a worker is added only below the maximum and
  -- outside of the cooldown, removed only above the minimum, either starts a cooldown, and the
  -- bounds stay.
  pub decide-IsMove :
      (t : AdaptiveController fl.F) (s : WindowSample fl.F) (current now : ℕ)
      → InBounds t current
      → IsMove t current now (decide fl t s current now).0 (decide fl t s current now).1
  unfolding decide observed pressed ratchet
  decide-IsMove t s current now b =
      let seen = observed fl t s in
      let retry = under_pressure fl s t.config in
      let storage = has_storage_pressure fl s t.config in
      let resource = has_resource_pressure fl s t.config in
      let under = pressed fl seen retry storage current now in
      let calm = unpressed fl (ratchet fl seen) current now in
      let empty : AdaptiveController fl.F × Decision = (record t { reason = empty_window }, hold) in
      if-IsMove t current now t.manual (record t { reason = by_manual_override }, hold)
        (if s.elapsed == 0 || (s.completed_bytes == 0 && s.network_bytes == 0)
          then empty
          else if retry || storage || resource
          then under
          else calm)
        (λ e. (refl, refl, b.2))
        (λ m.
          if-IsMove t current now
            (s.elapsed == 0 || (s.completed_bytes == 0 && s.network_bytes == 0)) empty
            (if retry || storage || resource then under else calm) (λ e. (refl, refl, b.2))
            (λ n.
              if-IsMove t current now (retry || storage || resource) under calm
                (λ e. pressed_from-IsMove _ current now t.pre_probe_level b.2 b.2)
                (λ e. unpressed-IsMove (ratchet fl seen) current now b)))

  -- The windows of a job, with the times at which they end.
  unfoldable pub run :
      AdaptiveController fl.F → ℕ → List (WindowSample fl.F × ℕ) → AdaptiveController fl.F × ℕ
  unfolding decide apply
  run t current [] = (t, current)
  run t current (w ∷ rest) =
      let (next, d) = decide fl t w.0 current w.1 in run next (apply next d current) rest

  left-next :
      (t next : AdaptiveController fl.F) (left : Option ℕ)
      → next.min_level ≡ t.min_level
      → LeftInBounds t.min_level left
      → LeftInBounds next.min_level left
  left-next t next none e h = tt
  left-next t next (some pre) e h = omega (arith, e, h)

  IsMove-bounds :
      (t next : AdaptiveController fl.F) (d : Decision) (current now : ℕ)
      → IsMove t current now next d
      → (next.min_level ≡ t.min_level) × (next.max_level ≡ t.max_level)
  IsMove-bounds t next hold current now m = (m.0, m.1)
  IsMove-bounds t next probe_up current now m = (m.0.0, m.0.1)
  IsMove-bounds t next reduce current now m = (m.0.0, m.0.1)

  apply-InBounds :
      (t next : AdaptiveController fl.F) (d : Decision) (current now : ℕ)
      → InBounds t current
      → IsMove t current now next d
      → InBounds next (apply next d current)
  unfolding apply
  apply-InBounds t next hold current now b m = (
    omega (arith, b.0, m.0),
    omega (arith, b.1, m.1),
    left-next t next next.pre_probe_level m.0 m.2,
  )
  apply-InBounds t next probe_up current now b m = (
    omega (arith, b.0, m.0),
    omega (arith, b.0, b.1, m.0),
    left-next t next next.pre_probe_level m.0.0 m.0.2,
  )
  apply-InBounds t next reduce current now b m = (
    omega (arith, b.0, b.1, m.0),
    omega (arith, b.0, b.1, m.0),
    left-next t next next.pre_probe_level m.0.0 m.0.2,
  )

  run-from :
      (ws : List (WindowSample fl.F × ℕ)) (t : AdaptiveController fl.F) (current : ℕ)
      → InBounds t current
      → InBounds (run t current ws).0 (run t current ws).1
        × ((run t current ws).0.min_level ≡ t.min_level)
        × ((run t current ws).0.max_level ≡ t.max_level)
  unfolding run
  run-from [] t current b = (b, refl, refl)
  run-from (w ∷ rest) t current b =
      let m = decide-IsMove t w.0 current w.1 b in
      let next = (decide fl t w.0 current w.1).0 in
      let d = (decide fl t w.0 current w.1).1 in
      let (i, low, high) =
        run-from rest next (apply next d current) (apply-InBounds t next d current w.1 b m) in
      let (same_low, same_high) = IsMove-bounds t next d current w.1 m in
      (i, low ∙ same_low, high ∙ same_high)

  -- From the lower bound, the level stays within the bounds under any windows.
  pub run-InBounds :
      (config : AdaptiveConfig fl.F) (low high : ℕ) (ws : List (WindowSample fl.F × ℕ))
      → (max low 1 ≤ (run (new config low high) (max low 1) ws).1)
        × ((run (new config low high) (max low 1) ws).1 ≤ max high (max low 1))
  run-InBounds config low high ws =
      let (i, same_low, same_high) =
        run-from ws (new config low high) (max low 1) (omega arith, omega arith, tt) in
      omega (arith, i.0, i.1, same_low, same_high)
