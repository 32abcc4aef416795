-- ===== src/Io/Budget.antt =====
-- crates/engine/src/io/write_budget.rs: the bytes held between the network and the disk. A call that
-- waits is a stage of the reservation, which a poll moves on; a dropped future is a cancel.
pub mod System
pub mod Frames
pub mod Examples
use kdown.Prelude.{
  ℕ, zero, suc, ◌+◌, ◌-◌, ◌*◌, ◌%◌, ◌^◌, min, ◌≤◌, Bool, true, false, ◌&&◌, Option, none, some,
  List, [], ◌∷◌, ltb, leb, ◌==◌, if◌then◌else◌, u64_max, length,
}

pub record OutstandingByteBudget : Type 0 where
  pub max : ℕ
  pub outstanding : ℕ

abbrev pub new : ℕ → OutstandingByteBudget
new max = record { max = max; outstanding = 0 }

-- The round of the exchange loop that succeeds, or the refusal.
unfoldable pub try_acquire : OutstandingByteBudget → ℕ → Option OutstandingByteBudget
try_acquire b bytes =
    if ltb u64_max (b.outstanding + bytes)
    then none
    else if ltb b.max (b.outstanding + bytes)
    then none
    else some (record b { outstanding = b.outstanding + bytes })

-- `fetch_sub` wraps.
unfoldable pub release : OutstandingByteBudget → ℕ → OutstandingByteBudget
release b bytes =
    if bytes == 0 then b else record b { outstanding = (b.outstanding + 2 ^ 64 - bytes) % 2 ^ 64 }

-- One round of the waiting `acquire`: none while it waits.
unfoldable pub acquire : OutstandingByteBudget → ℕ → Option OutstandingByteBudget
unfolding try_acquire
acquire b bytes = if bytes == 0 then some b else try_acquire b bytes

pub record JobWriteBudget : Type 0 where
  pub global : OutstandingByteBudget
  pub job : OutstandingByteBudget

-- A `ByteReservation` with the bytes it holds, at rest or in a call that waits for more of them.
pub data Reservation : Type 0 where
  holds : ℕ → Reservation
  wants_global : ℕ → ℕ → Reservation
  wants_job : ℕ → ℕ → Reservation  -- the rollback guard is armed

unfoldable pub reserve : ℕ → Reservation
reserve bytes = if bytes == 0 then holds 0 else wants_global 0 bytes

unfoldable pub grow : Reservation → ℕ → Reservation
grow (holds held) extra = if extra == 0 then holds held else wants_global held extra
grow (wants_global held n) extra = wants_global held n
grow (wants_job held n) extra = wants_job held n

abbrev pub after_global :
    JobWriteBudget → ℕ → ℕ → Option OutstandingByteBudget → JobWriteBudget × Reservation
after_global w held n none = (w, wants_global held n)
after_global w held n (some g) = (record w { global = g }, wants_job held n)

abbrev pub after_job :
    JobWriteBudget → ℕ → ℕ → Option OutstandingByteBudget → JobWriteBudget × Reservation
after_job w held n none = (w, wants_job held n)
after_job w held n (some j) = (record w { job = j }, holds (held + n))

unfoldable pub poll : JobWriteBudget → Reservation → JobWriteBudget × Reservation
unfolding acquire
poll w (holds held) = (w, holds held)
poll w (wants_global held n) = after_global w held n (acquire w.global n)
poll w (wants_job held n) = after_job w held n (acquire w.job n)

-- The future is dropped, and its guard with it.
unfoldable pub cancel : JobWriteBudget → Reservation → JobWriteBudget × Reservation
unfolding release
cancel w (holds held) = (w, holds held)
cancel w (wants_global held n) = (w, holds held)
cancel w (wants_job held n) = (record w { global = release w.global n }, holds held)

-- None is the failed assertion.
unfoldable pub reconcile : JobWriteBudget → ℕ → ℕ → Option (JobWriteBudget × Reservation)
unfolding release
reconcile w held actual =
    if leb actual held
    then some (
      record { global = release w.global (held - actual); job = release w.job (held - actual) },
      holds actual,
    )
    else none

unfoldable pub drop_reservation : JobWriteBudget → ℕ → JobWriteBudget × Reservation
unfolding release
drop_reservation w held =
    if ltb 0 held
    then (record { global = release w.global held; job = release w.job held }, holds 0)
    else (w, holds 0)
