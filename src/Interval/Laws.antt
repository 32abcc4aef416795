-- ===== src/Interval/Laws.antt =====
-- `insert`, `subtract`, `from_ranges` and `union` act as the set operations on covered bytes.
use kdown.Prelude.{
  ℕ, ◌+◌, min, max, ◌≤◌, ◌<◌, ◌≡◌, inl, inr, List, [], ◌∷◌, lt→ltb, u64_max, arith, lt-cases, All,
}
use kdown.Interval.Coverage.{inside, hits, IsNormal}
use kdown.Interval.Reference.{
  merge_in-IsNormal, hits-merge_in, cut_out-IsNormal, hits-cut_out, inside_empty, inside-le-one,
}
use kdown.Interval.Insert.{insert-merge_in}
use kdown.Interval.Subtract.{subtract-cut_out}
use kdown.Interval.{IntervalSet, insert, subtract, from_ranges, union}

insert_empty : (m : IntervalSet) (s e : ℕ) → e < s → insert m s e ≡ m
unfolding insert
insert_empty m s e h = rw (lt→ltb e s h)

subtract_empty : (m : IntervalSet) (s e : ℕ) → e < s → subtract m s e ≡ m
unfolding subtract
subtract_empty m s e h = rw (lt→ltb e s h)

-- On a set in normal form, `insert` of a range with an end within `u64` keeps the normal form, and
-- covers the bytes that were covered and those of the range.
pub insert_union :
    (m : IntervalSet) (s e : ℕ)
    → IsNormal 0 m
    → e ≤ u64_max
    → IsNormal 0 (insert m s e) × ((x : ℕ) → hits (insert m s e) x ≡ max (hits m x) (inside s e x))
insert_union m s e n b = elim (lt-cases e s) [
  | inl empty ↦ rw (insert_empty m s e empty) (n, λ x. omega (arith, inside_empty s e x empty))
  | inr h ↦
      rw (insert-merge_in 0 s e m n (omega arith) h b)
        (merge_in-IsNormal 0 m s e n (omega arith) h b, λ x. hits-merge_in 0 m s e x n h)
]

-- On a set in normal form, `subtract` keeps the normal form, and covers the bytes that were
-- covered and lie outside of the range.
pub subtract_difference :
    (m : IntervalSet) (s e : ℕ)
    → IsNormal 0 m
    → IsNormal 0 (subtract m s e)
      × ((x : ℕ) → hits (subtract m s e) x + min (hits m x) (inside s e x) ≡ hits m x)
subtract_difference m s e n = elim (lt-cases e s) [
  | inl empty ↦ rw (subtract_empty m s e empty) (n, λ x. omega (arith, inside_empty s e x empty))
  | inr h ↦
      rw (subtract-cut_out 0 s e m n h)
        (cut_out-IsNormal 0 m s e n h, λ x. hits-cut_out 0 m s e x n h)
]

-- Covered by some range of a list, as 0 or 1.
abbrev pub covered : List (ℕ × ℕ) → ℕ → ℕ
covered rs x = min 1 (hits rs x)

-- Added to a set in normal form, ranges in any order, overlapping or empty, with ends within
-- `u64`, make a normal form by `from_ranges` that covers their bytes and those of the set.
pub from_ranges-covered :
    (rs : List (ℕ × ℕ)) (m : IntervalSet)
    → IsNormal 0 m
    → All (λ r. r.1 ≤ u64_max) rs
    → IsNormal 0 (from_ranges rs m)
      × ((x : ℕ) → hits (from_ranges rs m) x ≡ max (hits m x) (covered rs x))
unfolding from_ranges
from_ranges-covered [] m n b = (n, λ x. omega arith)
from_ranges-covered ((s, e) ∷ rs) m n b =
    let (n1, h1) = insert_union m s e n b.0 in
    let (n2, h2) = from_ranges-covered rs (insert m s e) n1 b.1 in
    (n2, λ x. omega (arith, h1 x, h2 x, inside-le-one s e x))

-- `union` covers what either set covers.
pub union-covered :
    (m other : IntervalSet)
    → IsNormal 0 m
    → All (λ r. r.1 ≤ u64_max) other
    → IsNormal 0 (union m other)
      × ((x : ℕ) → hits (union m other) x ≡ max (hits m x) (covered other x))
unfolding union
union-covered m [] n b = (n, λ x. omega arith)
union-covered m ((s, e) ∷ rs) n b =
    let (n1, h1) = insert_union m s e n b.0 in
    let (n2, h2) = union-covered (insert m s e) rs n1 b.1 in
    (n2, λ x. omega (arith, h1 x, h2 x, inside-le-one s e x))
