-- ===== src/Io/Budget/System.antt =====
-- The budgets of crates/engine/src/io/write_budget.rs under any order of the calls of one job's
-- workers and of other jobs.
use kdown.Prelude.{
  ℕ, zero, suc, ◌+◌, ◌-◌, ◌≤◌, ◌≡◌, ◌⊎◌, refl, inl, inr, Option, none, some, List, [], ◌∷◌, ltb,
  leb, ◌==◌, if◌then◌else◌, u64_max, arith, sum_by, Bool-cases, ltb→le, leb→le,
}
use kdown.Io.Budget.{
  OutstandingByteBudget, new, try_acquire, release, acquire, JobWriteBudget, Reservation, holds,
  wants_global, wants_job, reserve, grow, poll, cancel, reconcile, drop_reservation,
}

-- What a reservation has taken from each pool.
abbrev pub job_bytes : Reservation → ℕ
job_bytes (holds held) = held
job_bytes (wants_global held n) = held
job_bytes (wants_job held n) = held

abbrev pub global_bytes : Reservation → ℕ
global_bytes (holds held) = held
global_bytes (wants_global held n) = held
global_bytes (wants_job held n) = held + n

pub record System : Type 0 where
  pub budget : JobWriteBudget
  pub others : ℕ  -- what the other jobs hold of the global pool
  pub reservations : List Reservation

-- A call on one reservation.
pub data Call : Type 0 where
  grows : ℕ → Call
  polls : Call
  cancels : Call
  reconciles : ℕ → Call
  drops : Call

pub data Event : Type 0 where
  start : ℕ → Event
  call : ℕ → Call → Event  -- on the reservation at a position of the list
  other_acquires : ℕ → Event
  other_releases : ℕ → Event

abbrev or_stay :
    Option (JobWriteBudget × Reservation) → JobWriteBudget → ℕ → JobWriteBudget × Reservation
or_stay none w held = (w, holds held)
or_stay (some r) w held = r

-- Only a reservation at rest is reconciled or dropped.
unfoldable pub act : Call → JobWriteBudget → Reservation → JobWriteBudget × Reservation
unfolding grow poll cancel reconcile drop_reservation
act (grows n) w r = (w, grow r n)
act polls w r = poll w r
act cancels w r = cancel w r
act (reconciles n) w (holds held) = or_stay (reconcile w held n) w held
act (reconciles n) w (wants_global held m) = (w, wants_global held m)
act (reconciles n) w (wants_job held m) = (w, wants_job held m)
act drops w (holds held) = drop_reservation w held
act drops w (wants_global held m) = (w, wants_global held m)
act drops w (wants_job held m) = (w, wants_job held m)

unfoldable pub act_at :
    ℕ → Call → JobWriteBudget → List Reservation → JobWriteBudget × List Reservation
unfolding act
act_at i c w [] = (w, [])
act_at zero c w (r ∷ rest) = let (next, changed) = act c w r in (next, changed ∷ rest)
act_at (suc i) c w (r ∷ rest) = let (next, after) = act_at i c w rest in (next, r ∷ after)

abbrev after_other : System → ℕ → Option OutstandingByteBudget → System
after_other s n none = s
after_other s n (some g) = record s {
  budget = record s.budget { global = g };
  others = s.others + n;
}

unfoldable pub step : System → Event → System
unfolding reserve act_at acquire release
step s (start n) = record s { reservations = reserve n ∷ s.reservations }
step s (call i c) =
    let (w, rs) = act_at i c s.budget s.reservations in record s { budget = w; reservations = rs }
step s (other_acquires n) = after_other s n (acquire s.budget.global n)
step s (other_releases n) =
    if leb n s.others
    then record s {
      budget = record s.budget { global = release s.budget.global n };
      others = s.others - n;
    }
    else s

unfoldable pub run : System → List Event → System
unfolding step
run s [] = s
run s (e ∷ es) = run (step s e) es

-- The pools hold `g` and `j` bytes for others and the given ones, within their limits.
abbrev pub IsBalanced : ℕ → ℕ → JobWriteBudget → ℕ → ℕ → Type 0
IsBalanced g j w held_global held_job =
    (w.global.outstanding ≡ g + held_global)
    × (w.job.outstanding ≡ j + held_job)
    × (w.global.outstanding ≤ w.global.max)
    × (w.job.outstanding ≤ w.job.max)
    × (w.global.max ≤ u64_max)
    × (w.job.max ≤ u64_max)

acquire_lem :
    (b : OutstandingByteBudget) (n : ℕ)
    → b.outstanding ≤ b.max
    → (acquire b n ≡ none)
      ⊎ ((next : OutstandingByteBudget) × (acquire b n ≡ some next)
          × (next.max ≡ b.max)
          × (next.outstanding ≡ b.outstanding + n)
          × (next.outstanding ≤ b.max))
unfolding acquire try_acquire
acquire_lem b n h = elim (Bool-cases (n == 0)) [
  | inl z ↦ inr (b, rw z refl, refl, ground (arith, z), h)
  | inr z ↦ elim (Bool-cases (ltb u64_max (b.outstanding + n))) [
    | inl o ↦ inl (rw (z, o) refl)
    | inr o ↦ elim (Bool-cases (ltb b.max (b.outstanding + n))) [
      | inl f ↦ inl (rw (z, o, f) refl)
      | inr f ↦ inr (
        record b { outstanding = b.outstanding + n },
        rw (z, o, f) refl,
        refl,
        refl,
        ltb→le b.max (b.outstanding + n) f,
      )
    ]
  ]
]

release_lem :
    (b : OutstandingByteBudget) (n : ℕ)
    → n ≤ b.outstanding
    → b.outstanding ≤ u64_max
    → ((release b n).outstanding ≡ b.outstanding - n) × ((release b n).max ≡ b.max)
unfolding release
release_lem b n h k = elim (Bool-cases (n == 0)) [
  | inl z ↦ rw z (ground (arith, z), refl)
  | inr z ↦ rw z (ground (arith, z), refl)
]

release_both-IsBalanced :
    (w : JobWriteBudget) (g j held n : ℕ)
    → n ≤ held
    → IsBalanced g j w held held
    → IsBalanced g j
        (record { global = release w.global n; job = release w.job n })
        (held - n)
        (held - n)
release_both-IsBalanced w g j held n h b =
    let (go, gm) = release_lem w.global n (omega (arith, b)) (omega (arith, b)) in
    let (jo, jm) = release_lem w.job n (omega (arith, b)) (omega (arith, b)) in
    omega (arith, go, gm, jo, jm, b)

act-IsBalanced :
    (c : Call) (w : JobWriteBudget) (r : Reservation) (g j : ℕ)
    → IsBalanced g j w (global_bytes r) (job_bytes r)
    → IsBalanced g j (act c w r).0 (global_bytes (act c w r).1) (job_bytes (act c w r).1)
unfolding act grow poll cancel reconcile drop_reservation
act-IsBalanced (grows n) w (holds held) g j b = elim (Bool-cases (n == 0)) [
  | inl z ↦ rw z b
  | inr z ↦ rw z b
]
act-IsBalanced (grows n) w (wants_global held m) g j b = b
act-IsBalanced (grows n) w (wants_job held m) g j b = b
act-IsBalanced polls w (holds held) g j b = b
act-IsBalanced polls w (wants_global held n) g j b = elim (acquire_lem w.global n b.2) [
  | inl e ↦ rw e b
  | inr (next, e, m, o, l) ↦ rw e (omega (arith, b, m, o, l))
]
act-IsBalanced polls w (wants_job held n) g j b = elim (acquire_lem w.job n b.3) [
  | inl e ↦ rw e b
  | inr (next, e, m, o, l) ↦ rw e (omega (arith, b, m, o, l))
]
act-IsBalanced cancels w (holds held) g j b = b
act-IsBalanced cancels w (wants_global held n) g j b = b
act-IsBalanced cancels w (wants_job held n) g j b =
    let (o, m) = release_lem w.global n (omega (arith, b)) (omega (arith, b)) in
    omega (arith, b, o, m)
act-IsBalanced (reconciles n) w (holds held) g j b = elim (Bool-cases (leb n held)) [
  | inr e ↦ rw e b
  | inl e ↦
      let le = leb→le n held e in
      let after = release_both-IsBalanced w g j held (held - n) (omega arith) b in
      rw e (omega (arith, after, le))
]
act-IsBalanced (reconciles n) w (wants_global held m) g j b = b
act-IsBalanced (reconciles n) w (wants_job held m) g j b = b
act-IsBalanced drops w (holds held) g j b = elim (Bool-cases (ltb 0 held)) [
  | inr e ↦ rw e (let none_held = ltb→le 0 held e in omega (arith, b, none_held))
  | inl e ↦ rw e (omega (arith, release_both-IsBalanced w g j held held (omega arith) b))
]
act-IsBalanced drops w (wants_global held m) g j b = b
act-IsBalanced drops w (wants_job held m) g j b = b

act_at-IsBalanced :
    (i : ℕ) (c : Call) (w : JobWriteBudget) (rs : List Reservation) (g j : ℕ)
    → IsBalanced g j w (sum_by global_bytes rs) (sum_by job_bytes rs)
    → IsBalanced g j
        (act_at i c w rs).0
        (sum_by global_bytes (act_at i c w rs).1)
        (sum_by job_bytes (act_at i c w rs).1)
unfolding act_at
act_at-IsBalanced i c w [] g j b = b
act_at-IsBalanced zero c w (r ∷ rest) g j b =
    let after =
      act-IsBalanced c w r (g + sum_by global_bytes rest) (j + sum_by job_bytes rest)
        (omega (arith, b)) in
    omega (arith, after)
act_at-IsBalanced (suc i) c w (r ∷ rest) g j b =
    let after =
      act_at-IsBalanced i c w rest (g + global_bytes r) (j + job_bytes r) (omega (arith, b)) in
    omega (arith, after)

-- Each pool holds exactly what reservations have taken of it, and no more than its limit.
abbrev pub Inv : System → Type 0
Inv s =
    IsBalanced s.others 0 s.budget (sum_by global_bytes s.reservations)
      (sum_by job_bytes s.reservations)

step-Inv : (s : System) (e : Event) → Inv s → Inv (step s e)
unfolding step reserve
step-Inv s (start n) b = elim (Bool-cases (n == 0)) [
  | inl z ↦ rw z (omega (arith, b))
  | inr z ↦ rw z (omega (arith, b))
]
step-Inv s (call i c) b = act_at-IsBalanced i c s.budget s.reservations s.others 0 b
step-Inv s (other_acquires n) b = elim (acquire_lem s.budget.global n b.2) [
  | inl e ↦ rw e b
  | inr (next, e, m, o, l) ↦ rw e (omega (arith, b, m, o, l))
]
step-Inv s (other_releases n) b = elim (Bool-cases (leb n s.others)) [
  | inr e ↦ rw e b
  | inl e ↦
      let le = leb→le n s.others e in
      let (o, m) = release_lem s.budget.global n (omega (arith, b)) (omega (arith, b)) in
      rw e (omega (arith, b, o, m, le))
]

abbrev pub initial : ℕ → ℕ → System
initial global_max job_max = record {
  budget = record { global = new global_max; job = new job_max };
  others = 0;
  reservations = [];
}

from-Inv : (es : List Event) (s : System) → Inv s → Inv (run s es)
unfolding run
from-Inv [] s i = i
from-Inv (e ∷ es) s i = from-Inv es (step s e) (step-Inv s e i)

-- After any calls of a job's workers and of other jobs, in any order, with waits, cancellations,
-- reconciliations and drops, each pool holds exactly what the reservations have taken of it, and
-- no more than its limit.
pub run-initial-Inv :
    (global_max job_max : ℕ) (es : List Event)
    → global_max ≤ u64_max
    → job_max ≤ u64_max
    → Inv (run (initial global_max job_max) es)
run-initial-Inv global_max job_max es g j = from-Inv es (initial global_max job_max) (omega arith)
