-- ===== src/Resume/Admission/Reuse.antt =====
-- The bytes that a resumed transfer does not fetch again, crates/engine/src/resume/flow.rs.
use kdown.Prelude.{
  ℕ, ◌+◌, ◌≤◌, ◌<◌, ◌≡◌, refl, inl, inr, some, List, [], ◌∷◌, arith, ok, u64_max, ltb, ◌==◌, subst,
  Bool-cases, ltb→le, lt-cases, All,
}
use kdown.Interval.{ByteRange}
use kdown.Interval.Coverage.{inside, hits, IsNormal, hits_below}
use kdown.Resume.Checkpoint.{Checkpoint, validate, last_end}
use kdown.Resume.Checkpoint.Validity.{
  validate_iff, hits-last, last_end-cases, last_end-below, hits-within, valid-ranges,
}
use kdown.Resume.Checkpoint.Ranges.{IsRange}
use kdown.Resume.Admission.{TempFile, validate_temp_file, sequential, resuming, prefix_end, needed}

-- A file that is admitted is large enough for the last range.
validate_temp_file-size :
    (file : TempFile) (cp : Checkpoint) (size : ℕ)
    → file.size ≡ some size
    → validate_temp_file file cp ≡ ok tt
    → needed (last_end cp.completed_ranges) ≤ size
unfolding validate_temp_file
validate_temp_file-size file cp size z h = elim (Bool-cases file.owned_regular) [
  | inr e ↦ absurd (let no = rw e at h in cc)
  | inl e ↦ elim (Bool-cases (ltb size (needed (last_end cp.completed_ranges)))) [
    | inr f ↦ ltb→le size (needed (last_end cp.completed_ranges)) f
    | inl f ↦ absurd (let no = rw (e, z, f) at h in cc)
  ]
]

prefix_end_lem :
    (rs : List ByteRange) (x : ℕ)
    → IsNormal 0 rs
    → hits rs u64_max ≡ 0
    → All IsRange rs
    → (x < prefix_end rs → hits rs x ≡ 1) × (hits rs (prefix_end rs) ≡ 0)
unfolding prefix_end inside
prefix_end_lem [] x n h a = (λ g. absurd (omega arith), refl)
prefix_end_lem (r ∷ rest) x n h a = elim (Bool-cases (r.0 == 0)) [
  | inr e ↦
      let p : prefix_end (r ∷ rest) ≡ 0 = ground (arith, e) in
      rw p (
        λ g. absurd (omega arith),
        ground (arith, e, hits_below (r.1 + 2) 0 rest n.3 (omega arith)),
      )
  | inl e ↦
      let short : r.1 < u64_max = ground (arith, h, a.0) in
      let p : prefix_end (r ∷ rest) ≡ r.1 + 1 = ground (arith, e, short) in
      rw p (
        λ g. ground (arith, e, g, hits_below (r.1 + 2) x rest n.3 (omega arith)),
        ground (arith, hits_below (r.1 + 2) (r.1 + 1) rest n.3 (omega arith)),
      )
]

module _ (cp : Checkpoint) (total : ℕ) (t : cp.total_size ≡ some total) (b : total ≤ u64_max)
    (v : validate cp ≡ ok tt) where
  -- Every byte that a valid checkpoint with a total below 2^64 takes as completed lies within the
  -- temporary file that passes the checks.
  pub reused-in_file :
      (file : TempFile) (size x : ℕ)
      → file.size ≡ some size
      → validate_temp_file file cp ≡ ok tt
      → 1 ≤ hits cp.completed_ranges x
      → x < size
  reused-in_file file size x z admitted h = elim (last_end-cases cp.completed_ranges) [
    | inl e ↦ absurd (let no = rw e at h in omega arith)
    | inr (last, e) ↦
        let (above, at, sum) = hits-last 0 last cp.completed_ranges ((validate_iff cp).0 v).2 e in
        let long =
          subst (λ o. needed o ≤ size) e (validate_temp_file-size file cp size z admitted) in
        elim (lt-cases last x) [
          | inl over ↦ absurd (omega (arith, above x over, h))
          | inr within ↦ omega (arith, long, last_end-below cp total t v last e, within)
        ]
  ]

  -- For a valid checkpoint with a total below 2^64 and ranges in normal form, a sequential
  -- transfer continues at the first byte that is not completed: every byte before the offset is
  -- completed, and the one at it is not.
  pub sequential_lem :
      (x : ℕ)
      → IsNormal 0 cp.completed_ranges
      → (x < (sequential (resuming cp)).offset → hits cp.completed_ranges x ≡ 1)
        × (hits cp.completed_ranges (sequential (resuming cp)).offset ≡ 0)
  unfolding sequential resuming
  sequential_lem x n =
      prefix_end_lem cp.completed_ranges x n (hits-within cp total t v u64_max b)
        (valid-ranges cp total t v b)
