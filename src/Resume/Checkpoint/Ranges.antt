-- ===== src/Resume/Checkpoint/Ranges.antt =====
-- The ranges that `record_completed` of crates/engine/src/resume/checkpoint.rs keeps.
use kdown.Prelude.{
  ℕ, ◌+◌, max, ◌≤◌, ◌<◌, true, false, ◌≡◌, refl, inl, inr, none, some, List, [], ◌∷◌, ◌++◌, leb,
  saturating_add, u64_max, arith, All, All-append, Bool-cases, leb→le, leb→lt, String,
}
use kdown.Interval.{ByteRange, insert}
use kdown.Interval.Coverage.{inside, hits, IsNormal, hits_below, hits-append, hits-le-one}
use kdown.Interval.Reference.{inside-le-one}
use kdown.Interval.Laws.{insert_union, covered}
use kdown.Interval.Canonical.{normal_unique}
use kdown.Resume.Checkpoint.{
  Checkpoint, range_le, sort_in, sort_ranges, merge_sorted, record_completed,
}

-- A range that is not empty and ends within `u64`.
abbrev pub IsRange : ByteRange → Type 0
IsRange r = (r.0 ≤ r.1) × (r.1 ≤ u64_max)

-- Starts in ascending order, from `lo` on.
abbrev IsSorted : ℕ → List ByteRange → Type 0
IsSorted lo [] = Unit {0}
IsSorted lo (r ∷ rest) = (lo ≤ r.0) × IsSorted r.0 rest

IsSorted-mono : (a b : ℕ) (rs : List ByteRange) → a ≤ b → IsSorted b rs → IsSorted a rs
IsSorted-mono a b [] h s = tt
IsSorted-mono a b (r ∷ rest) h s = (omega arith, s.1)

sort_in-IsSorted :
    (lo : ℕ) (r : ByteRange) (rs : List ByteRange)
    → lo ≤ r.0
    → IsSorted lo rs
    → IsSorted lo (sort_in r rs)
unfolding sort_in
sort_in-IsSorted lo r [] h s = (h, tt)
sort_in-IsSorted lo r (q ∷ rest) h s = elim (Bool-cases (range_le r q)) [
  | inl e ↦ rw e (h, (ground arith, s.1))
  | inr e ↦ rw e (s.0, sort_in-IsSorted q.0 r rest (ground arith) s.1)
]

sort_in-All :
    (r : ByteRange) (rs : List ByteRange) → IsRange r → All IsRange rs → All IsRange (sort_in r rs)
unfolding sort_in
sort_in-All r [] h a = (h, tt)
sort_in-All r (q ∷ rest) h a = elim (Bool-cases (range_le r q)) [
  | inl e ↦ rw e (h, a)
  | inr e ↦ rw e (a.0, sort_in-All r rest h a.1)
]

hits-sort_in :
    (r : ByteRange) (rs : List ByteRange) (x : ℕ)
    → hits (sort_in r rs) x ≡ inside r.0 r.1 x + hits rs x
unfolding sort_in
hits-sort_in r [] x = omega arith
hits-sort_in r (q ∷ rest) x = elim (Bool-cases (range_le r q)) [
  | inl e ↦ rw e (omega arith)
  | inr e ↦ rw e (omega (arith, hits-sort_in r rest x))
]

pub sort_ranges-IsSorted : (rs : List ByteRange) → IsSorted 0 (sort_ranges rs)
unfolding sort_ranges
sort_ranges-IsSorted [] = tt
sort_ranges-IsSorted (r ∷ rest) =
    sort_in-IsSorted 0 r (sort_ranges rest) (omega arith) (sort_ranges-IsSorted rest)

pub sort_ranges-All : (rs : List ByteRange) → All IsRange rs → All IsRange (sort_ranges rs)
unfolding sort_ranges
sort_ranges-All [] a = tt
sort_ranges-All (r ∷ rest) a = sort_in-All r (sort_ranges rest) a.0 (sort_ranges-All rest a.1)

pub hits-sort_ranges : (rs : List ByteRange) (x : ℕ) → hits (sort_ranges rs) x ≡ hits rs x
unfolding sort_ranges
hits-sort_ranges [] x = refl
hits-sort_ranges (r ∷ rest) x =
    omega (arith, hits-sort_in r (sort_ranges rest) x, hits-sort_ranges rest x)

inside_join :
    (a b c d x : ℕ)
    → a ≤ c
    → c ≤ b + 1
    → a ≤ b
    → inside a (max b d) x ≡ max (inside a b x) (inside c d x)
unfolding inside
inside_join a b c d x h g k = ground arith

merge_sorted-near :
    (ps pe : ℕ) (q : ByteRange) (rest : List ByteRange)
    → leb q.0 (saturating_add pe 1) ≡ true
    → merge_sorted (some (ps, pe)) (q ∷ rest) ≡ merge_sorted (some (ps, max pe q.1)) rest
unfolding merge_sorted
merge_sorted-near ps pe q rest e = rw (e, merge_sorted) refl

merge_sorted-far :
    (ps pe : ℕ) (q : ByteRange) (rest : List ByteRange)
    → leb q.0 (saturating_add pe 1) ≡ false
    → merge_sorted (some (ps, pe)) (q ∷ rest) ≡ (ps, pe) ∷ merge_sorted (some q) rest
unfolding merge_sorted
merge_sorted-far ps pe q rest e = rw (e, merge_sorted) refl

far_cover :
    (ps pe s e c h x : ℕ)
    → pe + 2 ≤ s
    → h ≡ max (inside s e x) c
    → (x < pe + 2 → h ≡ 0)
    → inside ps pe x + h ≡ max (inside ps pe x) (max (inside s e x) c)
unfolding inside
far_cover ps pe s e c h x far same below = ground arith

-- Merging from the range (ps, pe), which starts no later than the others.
merge_sorted_lem :
    (lo ps pe : ℕ) (rs : List ByteRange)
    → lo ≤ ps
    → IsRange (ps, pe)
    → IsSorted ps rs
    → All IsRange rs
    → IsNormal lo (merge_sorted (some (ps, pe)) rs)
      × ((x : ℕ) → hits (merge_sorted (some (ps, pe)) rs) x ≡ max (inside ps pe x) (covered rs x))
unfolding merge_sorted
merge_sorted_lem lo ps pe [] h r s a = ((h, r.0, r.1, tt), λ x. omega arith)
merge_sorted_lem lo ps pe (q ∷ rest) h r s a = elim (Bool-cases (leb q.0 (saturating_add pe 1))) [
  | inl e ↦
      let near = leb→le q.0 (saturating_add pe 1) e in
      let (n, same) =
        merge_sorted_lem lo ps (max pe q.1) rest h (omega (arith, r), omega (arith, r, a.0))
          (IsSorted-mono ps q.0 rest s.0 s.1) a.1 in
      rw (merge_sorted-near ps pe q rest e) (
        n,
        λ x. omega (
          arith,
          same x,
          inside_join ps pe q.0 q.1 x s.0 (omega (arith, near)) r.0,
          inside-le-one q.0 q.1 x,
          inside-le-one ps pe x,
        ),
      )
  | inr e ↦
      let far = leb→lt q.0 (saturating_add pe 1) e in
      let (n, same) =
        merge_sorted_lem (pe + 2) q.0 q.1 rest (omega (arith, far, a.0)) a.0 s.1 a.1 in
      rw (merge_sorted-far ps pe q rest e) (
        (h, r.0, r.1, n),
        λ x. omega (
          arith,
          inside-le-one q.0 q.1 x,
          far_cover ps pe q.0 q.1 (covered rest x) (hits (merge_sorted (some q) rest) x) x
              (omega (arith, far, a.0)) (same x)
              (hits_below (pe + 2) x (merge_sorted (some q) rest) n),
        ),
      )
]

pub merge_sorted-none :
    (rs : List ByteRange)
    → IsSorted 0 rs
    → All IsRange rs
    → IsNormal 0 (merge_sorted none rs) × ((x : ℕ) → hits (merge_sorted none rs) x ≡ covered rs x)
unfolding merge_sorted
merge_sorted-none [] s a = (tt, λ x. refl)
merge_sorted-none (r ∷ rest) s a =
    let (n, same) = merge_sorted_lem 0 r.0 r.1 rest s.0 a.0 s.1 a.1 in
    (n, λ x. omega (arith, same x, inside-le-one r.0 r.1 x))

-- Whatever ranges a checkpoint has, recording one leaves a normal form that covers those and the
-- new one.
pub record_completed_lem :
    (now : String) (cp : Checkpoint) (start end : ℕ)
    → All IsRange cp.completed_ranges
    → IsRange (start, end)
    → IsNormal 0 (record_completed now cp start end).completed_ranges
      × ((x : ℕ)
          → hits (record_completed now cp start end).completed_ranges x
            ≡ max (covered cp.completed_ranges x) (inside start end x))
unfolding record_completed
record_completed_lem now cp start end a r =
    let all = cp.completed_ranges ++ (start, end) ∷ [] in
    let (n, same) = merge_sorted-none (sort_ranges all) (sort_ranges-IsSorted all) (
      sort_ranges-All all (All-append IsRange cp.completed_ranges ((start, end) ∷ []) a (r, tt))) in
    (
      n,
      λ x. omega (
        arith,
        same x,
        hits-sort_ranges all x,
        hits-append cp.completed_ranges ((start, end) ∷ []) x,
        inside-le-one start end x,
      ),
    )

pub normal-ranges : (lo : ℕ) (m : List ByteRange) → IsNormal lo m → All IsRange m
normal-ranges lo [] n = tt
normal-ranges lo (r ∷ m) n = ((n.1, n.2), normal-ranges (r.1 + 2) m n.3)

-- On ranges in normal form, `record_completed`, which sorts and merges, keeps the same ranges as
-- `insert` of the interval set, for a range that is not empty and ends within `u64`.
pub record_completed-insert :
    (now : String) (cp : Checkpoint) (start end : ℕ)
    → IsNormal 0 cp.completed_ranges
    → IsRange (start, end)
    → (record_completed now cp start end).completed_ranges ≡ insert cp.completed_ranges start end
record_completed-insert now cp start end n r =
    let m = cp.completed_ranges in
    let (n1, h1) = record_completed_lem now cp start end (normal-ranges 0 m n) r in
    let (n2, h2) = insert_union m start end n r.1 in
    normal_unique 0 (record_completed now cp start end).completed_ranges (insert m start end) n1 n2
      (λ x. omega (arith, h1 x, h2 x, hits-le-one 0 x m n))
