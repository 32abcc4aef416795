-- ===== src/Config/Feasible.antt =====
-- What a configuration that passes crates/engine/src/config.rs lets the other parts do.
use kdown.Prelude.{
  ℕ, ◌+◌, ◌*◌, ◌≤◌, false, ◌≡◌, ◌↔◌, refl, ap, inl, inr, some, List, [], ◌∷◌, ◌++◌, ltb, ltb→le,
  ◌==◌, arith, All, Bool-cases, ok, u64_max,
}
use kdown.Config.{
  EngineConfig, Check, first_violation, validate, engine_checks, memory_checks, later_checks,
  connection_ingress_footprint, connection_ingress_reserve, exceeds, checked_reserve,
}
use kdown.Io.Budget.{JobWriteBudget, new, holds, reserve, poll, acquire, try_acquire}

-- Checks of which none is violated.
abbrev pub Pass : List Check → Type 0
Pass checks = All (λ c. c.0 ≡ false) checks

pub first_violation-Pass : (checks : List Check) → (first_violation checks ≡ ok tt) ↔ Pass checks
unfolding first_violation
first_violation-Pass [] = (λ h. tt, λ h. refl)
first_violation-Pass (c ∷ rest) = elim (Bool-cases c.0) [
  | inl e ↦ rw e (λ h. absurd (cc), λ h. absurd (cc))
  | inr e ↦ let (f, g) = first_violation-Pass rest in rw e (λ h. (refl, f h), λ h. g h.1)
]

Pass-append : (a b : List Check) → Pass (a ++ b) → Pass a × Pass b
Pass-append [] b h = (tt, h)
Pass-append (c ∷ a) b h = let (x, y) = Pass-append a b h.1 in ((h.0, x), y)

checked_reserve_lem :
    (connections footprint job limit : ℕ)
    → exceeds (checked_reserve connections footprint job) limit ≡ false
    → (connections * footprint ≤ u64_max)
      × (connections * footprint + job ≤ u64_max)
      × (connections * footprint + job ≤ limit)
checked_reserve_lem connections footprint job limit h =
    elim (Bool-cases (ltb u64_max (connections * footprint))) [
      | inl e ↦ absurd (let no = rw e at h in cc)
      | inr e ↦ elim (Bool-cases (ltb u64_max (connections * footprint + job))) [
        | inl f ↦ absurd (let no = rw (e, f) at h in cc)
        | inr f ↦
            let le = rw (e, f) at h in (ground (arith, e), ground (arith, f), ground (arith, le))
      ]
    ]

acquire-new :
    (limit n : ℕ)
    → 1 ≤ n
    → n ≤ limit
    → n ≤ u64_max
    → acquire (new limit) n ≡ some (record { max = limit; outstanding = n })
unfolding acquire try_acquire
acquire-new limit n p h k =
    let some_bytes : (n == 0) ≡ false = ground (arith, p) in
    let sum : 0 + n ≡ n = omega arith in
    let fits : ltb u64_max n ≡ false = ground (arith, k) in
    let within : ltb limit n ≡ false = ground (arith, h) in rw (some_bytes, sum, fits, within) refl

module _ (c : EngineConfig) (valid : validate c ≡ ok tt) where
  all-Pass : Pass (engine_checks c) × Pass (memory_checks c.transfer_memory c ++ later_checks c)
  unfolding validate
  all-Pass =
      let rest = memory_checks c.transfer_memory c ++ later_checks c in
      Pass-append (engine_checks c) rest ((first_violation-Pass (engine_checks c ++ rest)).0 valid)

  memory-Pass : Pass (memory_checks c.transfer_memory c)
  memory-Pass = (Pass-append (memory_checks c.transfer_memory c) (later_checks c) all-Pass.1).0

  -- A frame fits each budget on its way, and each budget the one around it.
  pub budgets_nest :
      (1 ≤ c.read_buffer_size)
      × (c.read_buffer_size ≤ c.write_budget.worker_read_ahead_bytes)
      × (c.write_budget.worker_read_ahead_bytes ≤ c.write_budget.job_max_bytes)
      × (c.write_budget.job_max_bytes ≤ c.write_budget.global_max_bytes)
      × (c.write_budget.job_max_bytes ≤ c.transfer_memory.job_max_bytes)
      × (c.read_buffer_size ≤ c.transfer_memory.frames_max_bytes)
      × (c.transfer_memory.frames_max_bytes ≤ c.transfer_memory.job_max_bytes)
      × (c.transfer_memory.job_max_bytes ≤ c.transfer_memory.aggregate_max_bytes)
  budgets_nest =
      let e = all-Pass.0 in
      let m = memory-Pass in
      omega (
        arith,
        ltb→le c.read_buffer_size 4096 e.1.1.1.0,
        ltb→le c.write_budget.worker_read_ahead_bytes c.read_buffer_size e.1.1.1.1.1.1.1.1.1.0,
        ltb→le c.write_budget.job_max_bytes c.write_budget.worker_read_ahead_bytes
            e.1.1.1.1.1.1.1.1.0,
        ltb→le c.write_budget.global_max_bytes c.write_budget.job_max_bytes e.1.1.1.1.1.1.0,
        ltb→le c.transfer_memory.job_max_bytes c.write_budget.job_max_bytes
            m.1.1.1.1.1.1.1.1.1.1.1.1.1.1.1.1.0,
        ltb→le c.transfer_memory.frames_max_bytes c.read_buffer_size m.1.1.1.1.1.1.1.1.1.1.1.1.0,
        ltb→le c.transfer_memory.job_max_bytes c.transfer_memory.frames_max_bytes m.1.1.1.1.1.1.1.0,
        ltb→le c.transfer_memory.aggregate_max_bytes c.transfer_memory.job_max_bytes
            m.1.1.1.1.1.1.1.1.1.1.0,
      )

  pub connections_fit :
      connection_ingress_reserve c.transfer_memory c.read_buffer_size c.max_connections_total
        + c.transfer_memory.job_max_bytes
      ≤ c.transfer_memory.aggregate_max_bytes
  unfolding connection_ingress_reserve
  connections_fit =
      let m = memory-Pass in
      let footprint = connection_ingress_footprint c.transfer_memory c.read_buffer_size in
      let (a, b, d) =
        checked_reserve_lem c.max_connections_total footprint c.transfer_memory.job_max_bytes
          c.transfer_memory.aggregate_max_bytes m.1.1.1.1.1.1.1.1.1.1.1.1.1.1.1.0 in
      omega (arith, a, b, d)

  -- The budgets of a job of an idle engine.
  abbrev pub idle_budgets : JobWriteBudget
  idle_budgets = record {
    global = new c.write_budget.global_max_bytes;
    job = new c.write_budget.job_max_bytes;
  }

  -- In an engine whose configuration passes, with idle write budgets, a reservation of at most one
  -- frame is granted in full, after one poll of each pool.
  pub frame_reserved :
      (n : ℕ)
      → 1 ≤ n
      → n ≤ c.read_buffer_size
      → (poll (poll idle_budgets (reserve n)).0 (poll idle_budgets (reserve n)).1).1 ≡ holds n
  unfolding poll reserve
  frame_reserved n p h =
      let m = memory-Pass in
      let nest = budgets_nest in
      let (a, b, d) =
        checked_reserve_lem c.max_connections_total
          (connection_ingress_footprint c.transfer_memory c.read_buffer_size)
          c.transfer_memory.job_max_bytes c.transfer_memory.aggregate_max_bytes
          m.1.1.1.1.1.1.1.1.1.1.1.1.1.1.1.0 in
      let some_bytes : (n == 0) ≡ false = ground (arith, p) in
      let sum : 0 + n ≡ n = omega arith in
      rw
        (
          some_bytes,
          acquire-new c.write_budget.global_max_bytes n p (omega (arith, nest, h))
              (omega (arith, nest, h, b)),
          acquire-new c.write_budget.job_max_bytes n p (omega (arith, nest, h))
              (omega (arith, nest, h, b)),
        )
        (ap holds sum)
