-- ===== src/Io/Frontier/Published.antt =====
-- Well-formed frontiers of crates/engine/src/io/write_frontier.rs, and the byte that they publish.
use kdown.Prelude.{
  ℕ, ◌+◌, ◌≤◌, ◌<◌, true, ◌≡◌, Option, none, some, u64_max, saturating_add, arith, le→leb,
}
use kdown.Interval.{first_gap_from}
use kdown.Interval.Coverage.{hits, IsNormal}
use kdown.Interval.Queries.{FirstGap, first_gap_from-FirstGap}
use kdown.Io.Frontier.{LeaseFrontier, in_lease, last_byte, acknowledged_through}

-- A lease of a file smaller than the largest `u64`, with sets in normal form that hold no byte
-- past the lease.
pub record IsFrontier (f : LeaseFrontier) : Type 0 where
  pub ordered : f.start ≤ f.end
  pub fits : f.end + 1 < u64_max
  pub submitted_ok : IsNormal 0 f.submitted
  pub outstanding_ok : IsNormal 0 f.outstanding
  pub acknowledged_ok : IsNormal 0 f.acknowledged
  pub failed_ok : IsNormal 0 f.failed
  pub bounded : (x : ℕ) → f.end < x → hits f.acknowledged x ≡ 0

-- A range of at least one byte within the lease.
abbrev pub IsRange : LeaseFrontier → ℕ → ℕ → Type 0
IsRange f offset len = (0 < len) × (f.start ≤ offset) × (offset + len ≤ f.end + 1)

pub last_byte_lem :
    (offset len : ℕ) → 0 < len → offset + len ≤ u64_max → last_byte offset len + 1 ≡ offset + len
unfolding last_byte
last_byte_lem offset len h b = omega arith

pub in_lease_lem :
    (f : LeaseFrontier) (offset len : ℕ) → IsRange f offset len → in_lease f offset len ≡ true
in_lease_lem f offset len h =
    rw (le→leb f.start offset h.1)
      (le→leb (saturating_add offset len) (saturating_add f.end 1) (omega (arith, h.2)))

-- The published frontier: all bytes of the lease before it are acknowledged, and it stands at the
-- end of the lease or at a byte that is not.
abbrev pub IsPublished : LeaseFrontier → ℕ → Type 0
IsPublished f t =
    (f.start ≤ t)
    × (t ≤ f.end + 1)
    × ((x : ℕ) → f.start ≤ x → x < t → hits f.acknowledged x ≡ 1)
    × (hits f.acknowledged t ≡ 0)

-- On a well-formed frontier, `acknowledged_through` is in the lease or just past its end, every
-- byte of the lease before it is acknowledged, and the byte at it is not.
pub acknowledged_through-IsPublished :
    (f : LeaseFrontier) → IsFrontier f → IsPublished f (acknowledged_through f)
unfolding acknowledged_through
acknowledged_through-IsPublished f v =
    let past : saturating_add f.end 1 ≡ f.end + 1 = omega (arith, v.fits) in
    let limit = saturating_add f.end 1 in
    at limit past (first_gap_from f.acknowledged f.start limit)
      (first_gap_from-FirstGap f.acknowledged f.start limit v.acknowledged_ok)
  where
    at :
        (limit : ℕ)
        → limit ≡ f.end + 1
        → (o : Option ℕ) → FirstGap f.acknowledged f.start limit o
        → IsPublished f (elim o [ some gap ↦ gap | none ↦ limit ])
    at limit past (some g) (a, b, c, d) = (a, omega arith, d, c)
    at limit past none full = absurd (
        omega (
          arith,
          full limit (omega (arith, v.ordered)) (omega arith),
          v.bounded limit (omega arith),
        ))
