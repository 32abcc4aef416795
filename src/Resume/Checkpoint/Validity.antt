-- ===== src/Resume/Checkpoint/Validity.antt =====
-- What `validate` of crates/engine/src/resume/checkpoint.rs admits, and that a recorded range keeps it.
use kdown.Prelude.{
  ℕ, ◌+◌, ◌-◌, ◌==◌, ◌≤◌, ◌<◌, true, ◌≡◌, ◌≢◌, ◌↔◌, refl, inl, inr, Option, none, some, List, [],
  ◌∷◌, ltb, leb, ltb→lt, lt→ltb, lt-cases, subst, ◌⊎◌, arith, All, Bool-cases, Result-cases, String,
  str_eq, str_eq_iff, ok, u64_max, sum_by, ==_iff,
}
use kdown.Interval.{ByteRange}
use kdown.Interval.Coverage.{inside, hits, IsNormal}
use kdown.Resume.Checkpoint.{
  Checkpoint, checkpoint_format_version, validate, check_ranges, last_end, within_total,
  record_completed, completed_bytes,
}
use kdown.Resume.Checkpoint.Ranges.{IsRange, record_completed_lem}

-- Ranges that are not empty, in ascending order and apart, from `lo` on.
abbrev pub IsOrdered : ℕ → List ByteRange → Type 0
IsOrdered lo [] = Unit {0}
IsOrdered lo (r ∷ rest) = (lo ≤ r.0) × (r.0 ≤ r.1) × IsOrdered (r.1 + 1) rest

-- The first byte that a range may start at.
abbrev floor : Option ℕ → ℕ
floor none = 0
floor (some pe) = pe + 1

check_ranges_iff :
    (prev : Option ℕ) (rs : List ByteRange)
    → (check_ranges prev rs ≡ ok tt) ↔ IsOrdered (floor prev) rs
unfolding check_ranges
check_ranges_iff none [] = (λ h. tt, λ h. refl)
check_ranges_iff (some pe) [] = (λ h. tt, λ h. refl)
check_ranges_iff none (r ∷ rest) = elim (Bool-cases (ltb r.1 r.0)) [
  | inl e ↦ rw e (λ h. absurd (cc), λ h. absurd (ground arith))
  | inr e ↦
      let (f, g) = check_ranges_iff (some r.1) rest in
      rw e (λ h. (omega arith, ground arith, f h), λ h. g h.2)
]
check_ranges_iff (some pe) (r ∷ rest) = elim (Bool-cases (ltb r.1 r.0)) [
  | inl e ↦ rw e (λ h. absurd (cc), λ h. absurd (ground arith))
  | inr e ↦ elim (Bool-cases (leb r.0 pe)) [
    | inl k ↦ rw (e, k) (λ h. absurd (cc), λ h. absurd (ground arith))
    | inr k ↦
        let (f, g) = check_ranges_iff (some r.1) rest in
        rw (e, k) (λ h. (ground arith, ground arith, f h), λ h. g h.2)
  ]
]

-- What the four checks ask for.
abbrev pub IsValid : Checkpoint → Type 0
IsValid cp =
    (cp.format_version ≡ checkpoint_format_version)
    × (cp.job_id ≢ "")
    × IsOrdered 0 cp.completed_ranges
    × (within_total cp.total_size (last_end cp.completed_ranges) ≡ true)

-- A checkpoint passes exactly if its version is the current one, its job has an id, and its ranges
-- are ordered, apart and within the total.
pub validate_iff : (cp : Checkpoint) → (validate cp ≡ ok tt) ↔ IsValid cp
unfolding validate
validate_iff cp = elim (Bool-cases (cp.format_version == checkpoint_format_version)) [
  | inr v ↦ rw v (λ h. absurd (cc), λ h. absurd (ground (arith, h.0, v)))
  | inl v ↦ elim (Bool-cases (str_eq cp.job_id "")) [
    | inl j ↦ rw (v, j) (λ h. absurd (cc), λ h. absurd (h.1 ((str_eq_iff cp.job_id "").0 j)))
    | inr j ↦
        let id_set : cp.job_id ≢ "" = λ e. let no = (str_eq_iff cp.job_id "").1 e in absurd (cc) in
        let (f, g) = check_ranges_iff none cp.completed_ranges in
        elim (Result-cases (check_ranges none cp.completed_ranges)) [
          | inr (e, c) ↦ rw (v, j, c) (λ h. absurd (cc), λ h. let no = g h.2 in absurd (cc))
          | inl (u, c) ↦
              elim (Bool-cases (within_total cp.total_size (last_end cp.completed_ranges))) [
                | inl w ↦
                    rw (v, j, c, w)
                      (λ h. ((==_iff cp.format_version 2).0 v, id_set, f c, refl), λ h. refl)
                | inr w ↦ rw (v, j, c, w) (λ h. absurd (cc), λ h. absurd (cc))
              ]
        ]
  ]
]

-- The bytes of ordered ranges that end by `last` are at or below it.
pub hits-last :
    (lo last : ℕ) (rs : List ByteRange)
    → IsOrdered lo rs
    → last_end rs ≡ some last
    → ((x : ℕ) → last < x → hits rs x ≡ 0)
      × (hits rs last ≡ 1)
      × (lo + sum_by (λ r. r.1 - r.0 + 1) rs ≤ last + 1)
unfolding inside
hits-last lo last [] o e = absurd (cc)
hits-last lo last (r ∷ []) o e =
    let same : r.1 ≡ last = cc in
    (λ x h. ground (arith, same, h, o), ground (arith, same, o), omega (arith, o.0, o.1, same))
hits-last lo last (r ∷ q ∷ rest) o e =
    let (none_above, at, sum) = hits-last (r.1 + 1) last (q ∷ rest) o.2 e in
    (
      λ x h. ground (arith, none_above x h, sum, o.1, h),
      ground (arith, at, sum, o.1),
      omega (arith, o.0, o.1, sum),
    )

normal-IsOrdered : (lo a : ℕ) (m : List ByteRange) → a ≤ lo → IsNormal lo m → IsOrdered a m
normal-IsOrdered lo a [] h n = tt
normal-IsOrdered lo a (r ∷ m) h n =
    (omega (arith, n.0), n.1, normal-IsOrdered (r.1 + 2) (r.1 + 1) m (omega arith) n.3)

ordered-ranges :
    (lo last : ℕ) (rs : List ByteRange)
    → IsOrdered lo rs
    → last_end rs ≡ some last
    → last ≤ u64_max
    → All IsRange rs
ordered-ranges lo last [] o e h = tt
ordered-ranges lo last (r ∷ []) o e h =
    let same : r.1 ≡ last = cc in ((o.1, omega (arith, same)), tt)
ordered-ranges lo last (r ∷ q ∷ rest) o e h =
    let (above, at, sum) = hits-last (r.1 + 1) last (q ∷ rest) o.2 e in
    ((o.1, omega (arith, sum)), ordered-ranges (r.1 + 1) last (q ∷ rest) o.2 e h)

pub last_end-cases : (rs : List ByteRange) → (rs ≡ []) ⊎ ((last : ℕ) × (last_end rs ≡ some last))
last_end-cases [] = inl refl
last_end-cases (r ∷ []) = inr (r.1, refl)
last_end-cases (r ∷ q ∷ rest) = elim (last_end-cases (q ∷ rest)) [
  | inl e ↦ absurd (cc)
  | inr (last, e) ↦ inr (last, e)
]

-- Of a valid checkpoint with a total.
module _ (cp : Checkpoint) (total : ℕ) (t : cp.total_size ≡ some total)
    (v : validate cp ≡ ok tt) where
  pub last_end-below : (last : ℕ) → last_end cp.completed_ranges ≡ some last → last < total
  last_end-below last e =
      let valid = (validate_iff cp).0 v in
      ltb→lt last total (
        subst (λ o. within_total (some total) o ≡ true) e
          (subst (λ s. within_total s (last_end cp.completed_ranges) ≡ true) t valid.3))

  pub completed_bytes-within : completed_bytes cp ≤ total
  unfolding completed_bytes
  completed_bytes-within =
      let valid = (validate_iff cp).0 v in
      elim (last_end-cases cp.completed_ranges) [
        | inl e ↦ rw e (omega arith)
        | inr (last, e) ↦
            let (above, at, sum) = hits-last 0 last cp.completed_ranges valid.2 e in
            omega (arith, sum, last_end-below last e)
      ]

  pub hits-within : (x : ℕ) → total ≤ x → hits cp.completed_ranges x ≡ 0
  hits-within x h =
      let valid = (validate_iff cp).0 v in
      elim (last_end-cases cp.completed_ranges) [
        | inl e ↦ rw e refl
        | inr (last, e) ↦
            let (above, at, sum) = hits-last 0 last cp.completed_ranges valid.2 e in
            above x (omega (arith, last_end-below last e))
      ]

  pub valid-ranges : total ≤ u64_max → All IsRange cp.completed_ranges
  valid-ranges b =
      let valid = (validate_iff cp).0 v in
      elim (last_end-cases cp.completed_ranges) [
        | inl e ↦ rw e tt
        | inr (last, e) ↦
            ordered-ranges 0 last cp.completed_ranges valid.2 e
              (omega (arith, last_end-below last e))
      ]

  -- A valid checkpoint with a total below 2^64 stays valid when a range that is not empty and ends
  -- within the total is recorded.
  pub record_completed-validate :
      (now : String) (start end : ℕ)
      → total ≤ u64_max
      → start ≤ end
      → end < total
      → validate (record_completed now cp start end) ≡ ok tt
  unfolding record_completed inside
  record_completed-validate now start end b s e =
      let valid = (validate_iff cp).0 v in
      let next = record_completed now cp start end in
      let (n, same) = record_completed_lem now cp start end (valid-ranges b) (s, omega arith) in
      let ordered = normal-IsOrdered 0 0 next.completed_ranges (omega arith) n in
      (validate_iff next).1 (
        valid.0,
        valid.1,
        ordered,
        elim (last_end-cases next.completed_ranges) [
          | inl none_left ↦ rw (none_left, t) refl
          | inr (last, l) ↦
              let (above, at, sum) = hits-last 0 last next.completed_ranges ordered l in
              let below : last < total = elim (lt-cases last total) [
                | inl h ↦ h
                | inr h ↦ absurd (ground (arith, same last, at, hits-within last h))
              ] in
              rw (l, t) (lt→ltb last total below)
        ],
      )
