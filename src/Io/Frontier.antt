-- ===== src/Io/Frontier.antt =====
-- crates/engine/src/io/write_frontier.rs: the frontier of one lease's write pipeline. An `assert!`
-- that fails is `none`; a `debug_assert!` is absent, as in a release build.
pub mod Published
pub mod Event
pub mod History
pub mod Examples
use kdown.Prelude.{
  ℕ, ◌+◌, ◌%◌, ◌^◌, max, Bool, true, false, not, ◌&&◌, ◌||◌, Option, none, some, List, [], ◌∷◌, ltb,
  leb, ◌==◌, if◌then◌else◌, u64_max, saturating_add,
}
use kdown.Interval.{IntervalSet, insert, subtract, first_gap_from, is_empty, len}

pub data CompletionStatus : Type 0 where
  acknowledges : ℕ → CompletionStatus  -- `Acknowledged { through }`
  fails : CompletionStatus
  stale_generation : CompletionStatus

pub record LeaseFrontier : Type 0 where
  pub lease_id : ℕ
  pub generation : ℕ
  pub start : ℕ
  pub end : ℕ
  pub received_through : ℕ
  pub received_high_water : ℕ
  pub submitted : IntervalSet
  pub outstanding : IntervalSet
  pub acknowledged : IntervalSet
  pub failed : IntervalSet

unfoldable pub new : ℕ → ℕ → ℕ → ℕ → Option LeaseFrontier
new lease_id generation start end =
    if leb start end
    then some (record {
      lease_id = lease_id;
      generation = generation;
      start = start;
      end = end;
      received_through = start;
      received_high_water = start;
      submitted = [];
      outstanding = [];
      acknowledged = [];
      failed = [];
    })
    else none

-- The test of the asserts: `[offset, offset + len)` lies in the lease.
abbrev pub in_lease : LeaseFrontier → ℕ → ℕ → Bool
in_lease f offset len =
    leb f.start offset && leb (saturating_add offset len) (saturating_add f.end 1)

-- `offset + len - 1`, which wraps.
unfoldable pub last_byte : ℕ → ℕ → ℕ
last_byte offset len = (offset + len + u64_max) % 2 ^ 64

unfoldable pub record_received : LeaseFrontier → ℕ → ℕ → Option LeaseFrontier
record_received f offset len =
    if in_lease f offset len
    then some (record f {
      received_high_water = max f.received_high_water (saturating_add offset len);
      received_through =
          (if offset == f.received_through then saturating_add offset len else f.received_through);
    })
    else none

unfoldable pub record_submission : LeaseFrontier → ℕ → ℕ → Option LeaseFrontier
record_submission f offset len =
    if ltb 0 len && in_lease f offset len
    then some (record f {
      submitted = insert f.submitted offset (last_byte offset len);
      outstanding = insert f.outstanding offset (last_byte offset len);
    })
    else none

unfoldable pub acknowledged_through : LeaseFrontier → ℕ
acknowledged_through f = elim (first_gap_from f.acknowledged f.start (saturating_add f.end 1)) [
  | some gap ↦ gap
  | none ↦ saturating_add f.end 1
]

-- A completion of the live attempt.
unfoldable pub settle_write : LeaseFrontier → ℕ → ℕ → Bool → LeaseFrontier × CompletionStatus
unfolding acknowledged_through
settle_write f offset len true =
    let g : LeaseFrontier = record f {
      outstanding = subtract f.outstanding offset (last_byte offset len);
      acknowledged = insert f.acknowledged offset (last_byte offset len);
    } in
    (g, acknowledges (acknowledged_through g))
settle_write f offset len false = (
  record f {
    outstanding = subtract f.outstanding offset (last_byte offset len);
    failed = insert f.failed offset (last_byte offset len);
  },
  fails,
)

unfoldable pub record_completion :
    LeaseFrontier → ℕ → ℕ → ℕ → ℕ → Bool → LeaseFrontier × CompletionStatus
unfolding settle_write
record_completion f lease_id generation offset len success =
    if not (lease_id == f.lease_id) || not (generation == f.generation)
    then (f, stale_generation)
    else settle_write f offset len success

unfoldable pub has_outstanding : LeaseFrontier → Bool
has_outstanding f = not (is_empty f.outstanding)

unfoldable pub outstanding_bytes : LeaseFrontier → ℕ
outstanding_bytes f = len f.outstanding

unfoldable pub submitted_bytes : LeaseFrontier → ℕ
submitted_bytes f = len f.submitted

unfoldable pub acknowledged_bytes : LeaseFrontier → ℕ
acknowledged_bytes f = len f.acknowledged

unfoldable pub failed_bytes : LeaseFrontier → ℕ
failed_bytes f = len f.failed
