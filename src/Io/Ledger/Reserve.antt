-- ===== src/Io/Ledger/Reserve.antt =====
-- What one reservation charges to the pools of crates/engine/src/io/transfer_ledger.rs.
use kdown.Prelude.{
  ℕ, ◌+◌, ◌≤◌, ◌<◌, ◌≡◌, ◌⊎◌, inl, inr, refl, [], ltb, le→ltb, eq→==, ltb→lt, arith, Bool-cases,
}
use kdown.Io.Ledger.{
  Component, index, Pool, probe_and_acquire, release, JobLedger, set_at, tightest_cap,
  LedgerRefusal, no_capacity, Reservation, reserved, refused, after_controller, after_job,
  after_component, try_reserve, drop_reservation,
}
use kdown.Io.Ledger.Pools.{
  Admits, Refuses, grown, IsPool, probe-IsAnswer, release_lem, probe-acquires, probe-full,
}

set_at-same {ℓ} : {A : Type ℓ} (f : Component → A) (c : Component) (a : A) → set_at f c a c ≡ a
set_at-same f c a = rw (eq→== (index c) (index c) refl) refl

-- The bytes charged: to the component, to the job, to the controller.
abbrev pub Charged : JobLedger → JobLedger → Component → ℕ → ℕ → ℕ → Type 0
Charged l k c a b d =
    ((k.components c).outstanding ≡ (l.components c).outstanding + a)
    × (k.job.outstanding ≡ l.job.outstanding + b)
    × (k.controller.outstanding ≡ l.controller.outstanding + d)

-- What a reservation may do, by whether each pool admits the bytes: all three do, and each is
-- charged; the caps, the component or the job refuse, and none is charged; or the controller refuses
-- what the other two admit, and the component stays charged.
abbrev pub IsOutcome : JobLedger → Component → ℕ → JobLedger × Reservation → Type 0
IsOutcome l c bytes (k, r) =
    let part : Pool = l.components c in
    ((r ≡ reserved c bytes)
      × (Admits part bytes × Admits l.job bytes × Admits l.controller bytes)
      × Charged l k c bytes bytes bytes)
    ⊎ (((w : LedgerRefusal) × (r ≡ refused w)
          × ((tightest_cap l c < bytes)
              ⊎ (Refuses part bytes ⊎ (Admits part bytes × Refuses l.job bytes)))
          × Charged l k c 0 0 0)
        ⊎ ((w : LedgerRefusal) × (r ≡ refused w)
            × (Admits part bytes × Admits l.job bytes × Refuses l.controller bytes)
            × Charged l k c bytes 0 0))

abbrev pub IsLedger : JobLedger → Component → Type 0
IsLedger l c = IsPool (l.components c) × IsPool l.job × IsPool l.controller

abbrev with_component : JobLedger → Component → ℕ → JobLedger
with_component l c bytes = record l {
  components = set_at l.components c (grown (l.components c) bytes);
}

with_component_lem :
    (l : JobLedger) (c : Component) (bytes : ℕ)
    → (with_component l c bytes).components c ≡ grown (l.components c) bytes
with_component_lem l c bytes = set_at-same l.components c (grown (l.components c) bytes)

after_controller-IsOutcome :
    (l : JobLedger) (c : Component) (bytes : ℕ)
    → IsLedger l c
    → Admits (l.components c) bytes
    → Admits l.job bytes
    → IsOutcome l c bytes (
        after_controller
          (record (with_component l c bytes) { job = grown l.job bytes })
          c
          bytes
          (probe_and_acquire l.controller bytes))
unfolding after_controller
after_controller-IsOutcome l c bytes v h g =
    let comp : ((with_component l c bytes).components c).outstanding
        ≡ (l.components c).outstanding + bytes =
      rw (with_component_lem l c bytes) refl in
    let back : (release (grown l.job bytes) bytes).outstanding ≡ l.job.outstanding + 0 =
      omega
        (arith, release_lem (grown l.job bytes) bytes (omega arith) (omega (arith, g.1, v.1))) in
    elim (probe-IsAnswer l.controller bytes v.2.1) [
      | inl (e, room) ↦ rw e (inl (refl, (h, g, room), (comp, refl, refl)))
      | inr (inl e, short) ↦ rw e (inr (inr (_, refl, (h, g, short), (comp, back, omega arith))))
      | inr (inr e, short) ↦ rw e (inr (inr (_, refl, (h, g, short), (comp, back, omega arith))))
    ]

after_job-IsOutcome :
    (l : JobLedger) (c : Component) (bytes : ℕ)
    → IsLedger l c
    → Admits (l.components c) bytes
    → IsOutcome l c bytes
        (after_job (with_component l c bytes) c bytes (probe_and_acquire l.job bytes))
unfolding after_job
after_job-IsOutcome l c bytes v h =
    let p = (with_component l c bytes).components c in
    let comp : p ≡ grown (l.components c) bytes = with_component_lem l c bytes in
    let back : (release p bytes).outstanding ≡ (l.components c).outstanding + 0 = rw comp (
      omega (
        arith,
        release_lem (grown (l.components c) bytes) bytes (omega arith) (omega (arith, h.1, v.0)),
      )) in
    let same : (set_at (with_component l c bytes).components c (release p bytes) c).outstanding
        ≡ (l.components c).outstanding + 0 =
      rw (set_at-same (with_component l c bytes).components c (release p bytes)) back in
    elim (probe-IsAnswer l.job bytes v.1.1) [
      | inl (e, room) ↦ rw e (after_controller-IsOutcome l c bytes v h room)
      | inr (inl e, short) ↦
          rw e (inr (inl (_, refl, inr (inr (h, short)), (same, omega arith, omega arith))))
      | inr (inr e, short) ↦
          rw e (inr (inl (_, refl, inr (inr (h, short)), (same, omega arith, omega arith))))
    ]

-- On pools within caps within `u64`, where a pool admits bytes that fit if nobody waits:
-- `try_reserve` reserves, with each of the three pools admitting and charged; or refuses and
-- charges nothing, since the bytes exceed the tightest cap or the component refuses, or the job
-- refuses what the component admits; or it refuses since the controller refuses what the other two
-- admit, and leaves the bytes charged to the component.
pub try_reserve-IsOutcome :
    (l : JobLedger) (c : Component) (bytes : ℕ)
    → IsLedger l c
    → IsOutcome l c bytes (try_reserve l c bytes)
unfolding try_reserve after_component
try_reserve-IsOutcome l c bytes v = elim (Bool-cases (ltb (tightest_cap l c) bytes)) [
  | inl t ↦
      rw t (inr (inl (_, refl, inl (ltb→lt _ bytes t), (omega arith, omega arith, omega arith))))
  | inr t ↦ elim (probe-IsAnswer (l.components c) bytes v.0.1) [
    | inl (e, room) ↦ rw (t, e) (after_job-IsOutcome l c bytes v room)
    | inr (inl e, short) ↦
        rw (t, e) (inr (inl (_, refl, inr (inl short), (omega arith, omega arith, omega arith))))
    | inr (inr e, short) ↦
        rw (t, e) (inr (inl (_, refl, inr (inl short), (omega arith, omega arith, omega arith))))
  ]
]

-- On pools within caps within `u64`, dropping a reservation that `try_reserve` gave returns each
-- of the three pools to the bytes it held before.
pub drop-try_reserve :
    (l : JobLedger) (c : Component) (bytes : ℕ)
    → IsLedger l c
    → (try_reserve l c bytes).1 ≡ reserved c bytes
    → Charged l (drop_reservation (try_reserve l c bytes).0 c bytes) c 0 0 0
unfolding drop_reservation
drop-try_reserve l c bytes v h =
    let k = (try_reserve l c bytes).0 in
    elim (try_reserve-IsOutcome l c bytes v) [
      | inl (r, ((w1, a1), (w2, a2), (w3, a3)), (b1, b2, b3)) ↦ (
        rw (set_at-same k.components c (release (k.components c) bytes))
            (omega (arith, release_lem (k.components c) bytes (omega arith) (omega (arith, v.0)))),
        omega (arith, release_lem k.job bytes (omega arith) (omega (arith, v.1))),
        omega (arith, release_lem k.controller bytes (omega arith) (omega (arith, v.2))),
      )
      | inr (inl (w, r, x, b)) ↦ absurd (cc)
      | inr (inr (w, r, x, b)) ↦ absurd (cc)
    ]

-- On pools within caps within `u64`, when the component and the job have room and no waiter, the
-- bytes fit every cap and the controller has no room, `try_reserve` refuses for lack of capacity
-- and leaves the bytes charged to the component alone.
pub try_reserve_leaks :
    (l : JobLedger) (c : Component) (bytes : ℕ)
    → IsLedger l c
    → (l.components c).waiters ≡ []
    → l.job.waiters ≡ []
    → (l.components c).outstanding + bytes ≤ (l.components c).cap
    → l.job.outstanding + bytes ≤ l.job.cap
    → bytes ≤ tightest_cap l c
    → l.controller.cap < l.controller.outstanding + bytes
    → ((try_reserve l c bytes).1 ≡ refused (no_capacity c))
      × Charged l (try_reserve l c bytes).0 c bytes 0 0
unfolding try_reserve after_component after_job after_controller tightest_cap
try_reserve_leaks l c bytes v w1 w2 h g t o =
    let back : (release (grown l.job bytes) bytes).outstanding ≡ l.job.outstanding + 0 =
      omega (arith, release_lem (grown l.job bytes) bytes (omega arith) (omega (arith, g, v.1))) in
    rw
      (
        le→ltb (tightest_cap l c) bytes t,
        probe-acquires (l.components c) bytes w1 h (omega (arith, v.0)),
        probe-acquires l.job bytes w2 g (omega (arith, v.1)),
        probe-full l.controller bytes (omega (arith, t)) o v.2.1,
      )
      (refl, (rw (with_component_lem l c bytes) refl, back, omega arith))
