-- ===== src/Interval/Examples.antt =====
-- Tests of crates/engine/src/scheduler/interval_set.rs, and instances of its theorems.
use kdown.Prelude.{ℕ, ◌+◌, min, max, ◌≡◌, refl, some, List, [], ◌∷◌, arith, sum_below}
use kdown.Interval.Coverage.{hits, inside, IsNormal}
use kdown.Interval.Laws.{insert_union, subtract_difference, union-covered, covered}
use kdown.Interval.Size.{len-sum_below, IsWithin}
use kdown.Interval.{IntervalSet, insert, subtract, union, first_gap_from, complement_within, len}

abbrev two_ranges : IntervalSet
two_ranges = (0, 99) ∷ (200, 299) ∷ []

insert_adjacent : insert two_ranges 100 199 ≡ (0, 299) ∷ []
unfolding insert
insert_adjacent = refl

subtract_middle : subtract two_ranges 50 249 ≡ (0, 49) ∷ (250, 299) ∷ []
unfolding subtract
subtract_middle = refl

gap_after_first : first_gap_from two_ranges 10 500 ≡ some 100
unfolding first_gap_from
gap_after_first = refl

complement_two : complement_within two_ranges 400 ≡ (100, 199) ∷ (300, 399) ∷ []
unfolding complement_within
complement_two = refl

normal : IsNormal 0 two_ranges
normal = omega arith

within : IsWithin 400 two_ranges
within = omega arith

insert_union_example :
    IsNormal 0 (insert two_ranges 90 150)
    × ((x : ℕ) → hits (insert two_ranges 90 150) x ≡ max (hits two_ranges x) (inside 90 150 x))
insert_union_example = insert_union two_ranges 90 150 normal (omega arith)

subtract_difference_example :
    IsNormal 0 (subtract two_ranges 90 250)
    × ((x : ℕ)
        → hits (subtract two_ranges 90 250) x + min (hits two_ranges x) (inside 90 250 x)
          ≡ hits two_ranges x)
subtract_difference_example = subtract_difference two_ranges 90 250 normal

abbrev messy : List (ℕ × ℕ)
messy = (5, 9) ∷ (0, 6) ∷ (30, 20) ∷ []

union-covered_example :
    IsNormal 0 (union two_ranges messy)
    × ((x : ℕ) → hits (union two_ranges messy) x ≡ max (hits two_ranges x) (covered messy x))
union-covered_example = union-covered two_ranges messy normal (omega arith)

len-sum_below_example : len two_ranges ≡ sum_below 400 (hits two_ranges)
len-sum_below_example = len-sum_below 0 400 two_ranges normal within
