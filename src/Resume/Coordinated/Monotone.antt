-- ===== src/Resume/Coordinated/Monotone.antt =====
-- Saves of crates/engine/src/resume/coordinated_store.rs lose no recorded range.
use kdown.Prelude.{
  ℕ, ◌≤◌, max, true, false, not, ◌||◌, ◌≡◌, refl, sym, ◌∙◌, subst, inl, inr, none, some, List, [],
  ◌∷◌, ◌++◌, String, str_eq, str_eq_iff, arith, All, All-append, Bool-cases, Option-cases, Result,
  ok, err,
}
use kdown.Interval.{ByteRange}
use kdown.Interval.Coverage.{hits-append}
use kdown.Interval.Laws.{covered}
use kdown.Resume.Checkpoint.{Checkpoint, CheckpointError}
use kdown.Resume.Checkpoint.Ranges.{
  IsRange, merge_sorted-none, sort_ranges-IsSorted, sort_ranges-All, hits-sort_ranges,
  normal-ranges,
}
use kdown.Resume.Admission.{CheckpointStore}
use kdown.Resume.Coordinated.{
  Coordinated, Accepted, union_ranges, last_accepted, accept, saved, save_over, save_atomic,
  save_all, same_validators, same_size, same_ranges,
}
use kdown.Resume.Checkpoint.{sort_ranges}

union_ranges_lem :
    (a b : List ByteRange)
    → All IsRange a
    → All IsRange b
    → All IsRange (union_ranges a b)
      × ((x : ℕ) → covered (union_ranges a b) x ≡ max (covered a x) (covered b x))
unfolding union_ranges
union_ranges_lem a b ha hb =
    let all = a ++ b in
    let (n, same) =
      merge_sorted-none (sort_ranges all) (sort_ranges-IsSorted all)
        (sort_ranges-All all (All-append IsRange a b ha hb)) in
    (normal-ranges 0 _ n, λ x. omega (arith, same x, hits-sort_ranges all x, hits-append a b x))

-- What is remembered of a job: ranges, which cover at least those given.
abbrev pub IsKept : Accepted → String → List ByteRange → Type 0
IsKept m id ranges =
    (cp : Checkpoint) × (last_accepted m id ≡ some cp)
    × All IsRange cp.completed_ranges
    × ((x : ℕ) → covered ranges x ≤ covered cp.completed_ranges x)

last_accepted-accept :
    (m : Accepted) (j id : String) (cp : Checkpoint)
    → str_eq j id ≡ false
    → last_accepted (accept m j cp) id ≡ last_accepted m id
unfolding last_accepted accept
last_accepted-accept m j id cp e = rw e refl

last_accepted-here :
    (m : Accepted) (j id : String) (cp : Checkpoint)
    → str_eq j id ≡ true
    → last_accepted (accept m j cp) id ≡ some cp
unfolding last_accepted accept
last_accepted-here m j id cp e = rw e refl

-- Ranges that keep the given ones.
abbrev Keeps : List ByteRange → Checkpoint → Type 0
Keeps ranges cp =
    All IsRange cp.completed_ranges × ((x : ℕ) → covered ranges x ≤ covered cp.completed_ranges x)

saved-IsKept :
    {S : Type 0} (store : CheckpointStore S) (m : Accepted) (cp : Checkpoint) (id : String)
    (ranges : List ByteRange) (r : S × Result CheckpointError (Unit {0}))
    → IsKept m id ranges
    → (cp.job_id ≡ id → Keeps ranges cp)
    → IsKept (saved store m cp r).0.accepted id ranges
unfolding saved
saved-IsKept store m cp id ranges (s, err e) k h = k
saved-IsKept store m cp id ranges (s, ok u) k h = elim (Bool-cases (str_eq cp.job_id id)) [
  | inl e ↦
      let (a, cover) = h ((str_eq_iff cp.job_id id).0 e) in
      (cp, last_accepted-here m cp.job_id id cp e, a, cover)
  | inr e ↦
      let (old, last, a, cover) = k in
      (old, last_accepted-accept m cp.job_id id cp e ∙ last, a, cover)
]

merged-Keeps :
    (m : Accepted) (prev cp : Checkpoint) (id : String) (ranges : List ByteRange)
    → IsKept m id ranges
    → last_accepted m cp.job_id ≡ some prev
    → All IsRange cp.completed_ranges
    → cp.job_id ≡ id
    → Keeps ranges
        (record cp { completed_ranges = union_ranges prev.completed_ranges cp.completed_ranges })
merged-Keeps m prev cp id ranges (old, last, a, cover) p ok_ranges e =
    let both : some prev ≡ some old =
      sym p ∙ subst (λ j. last_accepted m j ≡ some old) (sym e) last in
    let same : old ≡ prev = cc in
    let prev_ranges = subst (λ q. All IsRange q.completed_ranges) same a in
    let prev_cover =
      subst (λ q. (x : ℕ) → covered ranges x ≤ covered q.completed_ranges x) same cover in
    let (all, union) =
      union_ranges_lem prev.completed_ranges cp.completed_ranges prev_ranges ok_ranges in
    (all, λ x. omega (arith, union x, prev_cover x))

save-IsKept :
    {S : Type 0} (store : CheckpointStore S) (c : Coordinated S) (cp : Checkpoint) (id : String)
    (ranges : List ByteRange)
    → IsKept c.accepted id ranges
    → All IsRange cp.completed_ranges
    → IsKept (save_atomic store c cp).0.accepted id ranges
unfolding save_atomic save_over
save-IsKept store c cp id ranges k a = elim (Option-cases (last_accepted c.accepted cp.job_id)) [
  | inl e ↦ rw e (
      saved-IsKept store c.accepted cp id ranges (store.save_atomic c.inner cp) k (λ j.
        let (old, last, b, cover) = k in
        let both : none ≡ some old =
          sym e ∙ subst (λ i. last_accepted c.accepted i ≡ some old) (sym j) last in
        absurd (cc)))
  | inr (prev, e) ↦
      let merged = union_ranges prev.completed_ranges cp.completed_ranges in
      let forwarded = record cp { completed_ranges = merged } in
      let written =
        saved-IsKept store c.accepted forwarded id ranges (store.save_atomic c.inner forwarded) k
          (merged-Keeps c.accepted prev cp id ranges k e a) in
      elim (Bool-cases (
        not (same_validators prev.validators cp.validators)
        || not (same_size prev.total_size cp.total_size))) [
          | inl g ↦ rw (e, g) k
          | inr g ↦ elim (Bool-cases (same_ranges merged prev.completed_ranges)) [
            | inl h ↦ rw (e, g, h) k
            | inr h ↦ rw (e, g, h) written
          ]
        ]
]

-- However many snapshots are saved, stale ones and those that the inner store refuses included,
-- the last accepted one of an identity keeps covering every byte that it covered, for ranges that
-- are not empty and end within `u64`.
pub save_all-IsKept :
    {S : Type 0} (store : CheckpointStore S) (id : String) (ranges : List ByteRange)
    (cps : List Checkpoint) (c : Coordinated S)
    → IsKept c.accepted id ranges
    → All (λ cp. All IsRange cp.completed_ranges) cps
    → IsKept (save_all store c cps).accepted id ranges
unfolding save_all
save_all-IsKept store id ranges [] c k a = k
save_all-IsKept store id ranges (cp ∷ rest) c k a =
    save_all-IsKept store id ranges rest (save_atomic store c cp).0
      (save-IsKept store c cp id ranges k a.0) a.1
