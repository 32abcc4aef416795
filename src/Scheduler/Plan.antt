-- ===== src/Scheduler/Plan.antt =====
-- crates/engine/src/scheduler/mod.rs: the initial plan tiles the file.
use kdown.Prelude.{
  ℕ, zero, suc, ◌+◌, ◌-◌, min, max, ◌≤◌, ◌<◌, ◌≡◌, refl, inl, inr, true, false, ◌&&◌, List, [], ◌∷◌,
  ltb, leb, ◌==◌, if◌then◌else◌, All, u64_max, saturating_add, saturating_sub, saturating_mul,
  clamp, div_ceil, arith, lt-cases, lt→ltb, le→ltb, eq→==, ne→==,
}
use kdown.Interval.{ByteRange}
use kdown.Interval.Coverage.{inside, hits}

abbrev pub oversubscription_factor : ℕ
oversubscription_factor = 3

-- The loop of `tile_ranges`. A round covers at least a byte, so `total` rounds are enough.
tile_from : ℕ → ℕ → ℕ → ℕ → List ByteRange
tile_from zero start total chunk = []
tile_from (suc fuel) start total chunk = elim (ltb start total) [
  | true ↦
      let stop = min (saturating_sub (saturating_add start chunk) 1) (total - 1) in
      (start, stop) ∷ tile_from fuel (stop + 1) total chunk
  | false ↦ []
]

unfoldable pub tile_ranges : ℕ → ℕ → List ByteRange
unfolding tile_from
tile_ranges total chunk = tile_from total 0 total (max chunk 1)

-- `raw.clamp(min_segment_size, max_segment_size)` of `plan_segments`.
unfoldable pub segment_size : ℕ → ℕ → ℕ → ℕ → ℕ
segment_size total workers low high =
    let least = max low 1 in
    let most = max high least in
    let oversubscribed = max (saturating_mul (max workers 1) oversubscription_factor) 1 in
    clamp (div_ceil total oversubscribed) least most

unfoldable pub plan_segments : ℕ → ℕ → ℕ → ℕ → ℕ × List ByteRange
unfolding segment_size tile_ranges
plan_segments total workers low high =
    if total == 0
    then (0, [])
    else let size = segment_size total workers low high in (size, tile_ranges total size)

-- From `start` on, each byte of the file is in one range.
abbrev pub from_start : ℕ → ℕ → ℕ → ℕ
from_start start total x = if leb start x && ltb x total then 1 else 0

-- A range of at least one byte and at most `chunk`.
abbrev pub HasLength : ℕ → ByteRange → Type 0
HasLength chunk r = (r.0 ≤ r.1) × (r.1 - r.0 + 1 ≤ chunk)

tile_from_done :
    (fuel start total chunk : ℕ) → total ≤ start → tile_from fuel start total chunk ≡ []
unfolding tile_from
tile_from_done zero start total chunk h = refl
tile_from_done (suc fuel) start total chunk h = rw (le→ltb start total h, tile_from)

tile_from_more :
    (fuel start total chunk : ℕ)
    → start < total
    → let stop = min (saturating_sub (saturating_add start chunk) 1) (total - 1) in
      tile_from (suc fuel) start total chunk ≡ (start, stop) ∷ tile_from fuel (stop + 1) total chunk
unfolding tile_from
tile_from_more fuel start total chunk h = rw (lt→ltb start total h, tile_from)

tile_split :
    (start stop total x : ℕ)
    → start ≤ stop
    → stop < total
    → inside start stop x + from_start (stop + 1) total x ≡ from_start start total x
unfolding inside
tile_split start stop total x h g = ground arith

tile_from_once :
    (fuel start total chunk : ℕ)
    → 1 ≤ chunk
    → total ≤ u64_max
    → total - start ≤ fuel
    → ((x : ℕ) → hits (tile_from fuel start total chunk) x ≡ from_start start total x)
      × All (HasLength chunk) (tile_from fuel start total chunk)
tile_from_once zero start total chunk c b f =
    rw (tile_from_done zero start total chunk (omega arith)) (λ x. ground arith, tt)
tile_from_once (suc fuel) start total chunk c b f = elim (lt-cases start total) [
  | inr over ↦ rw (tile_from_done (suc fuel) start total chunk over) (λ x. ground arith, tt)
  | inl more ↦
      let stop = min (saturating_sub (saturating_add start chunk) 1) (total - 1) in
      let (once, lengths) = tile_from_once fuel (stop + 1) total chunk c b (omega arith) in
      rw (tile_from_more fuel start total chunk more) (
        λ x. omega (arith, once x, tile_split start stop total x (omega arith) (omega arith)),
        ((omega arith, omega arith), lengths),
      )
]

clamp_bounds : (x lo hi : ℕ) → lo ≤ hi → (lo ≤ clamp x lo hi) × (clamp x lo hi ≤ hi)
clamp_bounds x lo hi h = omega arith

segment_size_bounds :
    (total workers low high : ℕ)
    → (max low 1 ≤ segment_size total workers low high)
      × (segment_size total workers low high ≤ max high (max low 1))
unfolding segment_size
segment_size_bounds total workers low high =
    clamp_bounds (div_ceil total (max (saturating_mul (max workers 1) oversubscription_factor) 1))
      (max low 1) (max high (max low 1)) (omega arith)

plan_segments_empty :
    (total workers low high : ℕ) → total ≤ 0 → plan_segments total workers low high ≡ (0, [])
unfolding plan_segments
plan_segments_empty total workers low high h = rw (eq→== total 0 (omega arith))

plan_segments_some :
    (total workers low high : ℕ)
    → 0 < total
    → plan_segments total workers low high ≡ (
      segment_size total workers low high,
      tile_ranges total (segment_size total workers low high),
    )
unfolding plan_segments
plan_segments_some total workers low high h = rw (ne→== total 0 (omega arith))

tile_ranges_once :
    (total chunk : ℕ)
    → 1 ≤ chunk
    → total ≤ u64_max
    → ((x : ℕ) → hits (tile_ranges total chunk) x ≡ from_start 0 total x)
      × All (HasLength chunk) (tile_ranges total chunk)
unfolding tile_ranges
tile_ranges_once total chunk c b =
    let e : max chunk 1 ≡ chunk = omega arith in
    rw e (tile_from_once total 0 total chunk c b (omega arith))

-- The plan of a file of at most 2^64 - 1 bytes covers each of its bytes exactly once and no other
-- byte, by ranges that are not empty and not longer than the segment size; for a file that is not
-- empty the size is within the policy's bounds.
pub plan_segments_once :
    (total workers low high : ℕ)
    → total ≤ u64_max
    → let plan = plan_segments total workers low high in
      ((x : ℕ) → hits plan.1 x ≡ from_start 0 total x)
      × All (HasLength plan.0) plan.1
      × (0 < total → (max low 1 ≤ plan.0) × (plan.0 ≤ max high (max low 1)))
plan_segments_once total workers low high b = elim (lt-cases 0 total) [
  | inr no_bytes ↦
      rw (plan_segments_empty total workers low high no_bytes)
        (λ x. ground arith, tt, λ h. absurd (omega arith))
  | inl some_bytes ↦
      let bounds = segment_size_bounds total workers low high in
      let (once, lengths) =
        tile_ranges_once total (segment_size total workers low high) (omega arith) b in
      rw (plan_segments_some total workers low high some_bytes) (once, lengths, λ h. bounds)
]
