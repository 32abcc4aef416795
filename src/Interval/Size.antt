-- ===== src/Interval/Size.antt =====
-- `len` counts the covered bytes, and `complement_within` covers the others.
use kdown.Prelude.{
  ℕ, zero, suc, ◌+◌, ◌-◌, min, ◌≤◌, ◌<◌, ◌≡◌, ◌↔◌, refl, sym, inl, inr, true, [], ◌∷◌, ltb, lt→ltb,
  le→ltb, u64_max, arith, lt-cases, sum_below, sum_below-add, sum_below-zero, sum_below-one,
  sum_below-full, All, if◌then◌else◌, saturating_add,
}
use kdown.Interval.Coverage.{
  inside, hits, IsNormal, IsNormal-mono, inside_in, inside_below, inside_above, hits_below,
  hits-le-one,
}
use kdown.Interval.{IntervalSet, complement_from, complement_within, len, covers}

-- All ranges lie below `total`.
abbrev pub IsWithin : ℕ → IntervalSet → Type 0
IsWithin total = All (λ r. r.1 < total)

sum_below_zero : (f : ℕ → ℕ) → sum_below 0 f ≡ 0
unfolding sum_below
sum_below_zero f = refl

pub sum_below-inside : (n k v : ℕ) → k ≤ v → sum_below n (inside k v) ≡ min n (v + 1) - k
unfolding sum_below inside
sum_below-inside zero k v h = omega arith
sum_below-inside (suc n) k v h = ground (arith, sum_below-inside n k v h)

-- `len` is the number of covered bytes below any bound of the set.
pub len-sum_below :
    (lo total : ℕ) (m : IntervalSet)
    → IsNormal lo m
    → IsWithin total m
    → len m ≡ sum_below total (hits m)
unfolding len
len-sum_below lo total [] n w = sym (sum_below-zero total)
len-sum_below lo total ((k, v) ∷ m) n w = omega (
  arith,
  sum_below-add total (inside k v) (hits m),
  sum_below-inside total k v n.1,
  len-sum_below (v + 2) total m n.3 w.1,
)

complement_from_nil :
    (next total : ℕ) → next < total → complement_from next [] total ≡ (next, total - 1) ∷ []
unfolding complement_from
complement_from_nil next total h = rw (lt→ltb next total h)

complement_from_cons :
    (next k v total : ℕ) (m : IntervalSet)
    → v < u64_max
    → complement_from next ((k, v) ∷ m) total ≡ (
        if ltb next k
        then (next, k - 1) ∷ complement_from (v + 1) m total
        else complement_from (v + 1) m total)
unfolding complement_from
complement_from_cons next k v total m h = let e : saturating_add v 1 ≡ v + 1 = omega arith in rw e

complement_from-IsNormal :
    (next lo total : ℕ) (m : IntervalSet)
    → IsNormal lo m
    → IsWithin total m
    → next ≤ lo
    → total ≤ u64_max
    → IsNormal next (complement_from next m total) × IsWithin total (complement_from next m total)
unfolding complement_from
complement_from-IsNormal next lo total [] n w a b = ground arith
complement_from-IsNormal next lo total ((k, v) ∷ m) n w a b =
    let (rest, within) = complement_from-IsNormal (v + 1) (v + 2) total m n.3 w.1 (omega arith) b in
    rw (complement_from_cons next k v total m (omega arith)) (elim (lt-cases next k) [
      | inl gap ↦ rw (lt→ltb next k gap) (
        (
          omega arith,
          omega arith,
          omega arith,
          IsNormal-mono (complement_from (v + 1) m total) (omega arith) rest,
        ),
        (omega arith, within),
      )
      | inr none_left ↦
          rw (le→ltb next k none_left)
            (IsNormal-mono (complement_from (v + 1) m total) (omega arith) rest, within)
    ])

hits-complement_from :
    (next lo total x : ℕ) (m : IntervalSet)
    → IsNormal lo m
    → IsWithin total m
    → next ≤ lo
    → total ≤ u64_max
    → next ≤ x
    → x < total
    → hits (complement_from next m total) x + hits m x ≡ 1
hits-complement_from next lo total x [] n w a c d e =
    rw (complement_from_nil next total (omega arith)) (omega (arith, inside_in next (total - 1) x))
hits-complement_from next lo total x ((k, v) ∷ m) n w a c d e =
    let (low, within) = complement_from-IsNormal (v + 1) (v + 2) total m n.3 w.1 (omega arith) c in
    let before = hits_below (v + 1) x (complement_from (v + 1) m total) low in
    let past = hits_below (v + 2) x m n.3 in
    rw (complement_from_cons next k v total m (omega arith)) (elim (lt-cases x (v + 1)) [
      | inr later ↦
          let rest =
            hits-complement_from (v + 1) (v + 2) total x m n.3 w.1 (omega arith) c later e in
          elim (lt-cases next k) [
            | inl gap ↦
                rw (lt→ltb next k gap)
                  (omega (arith, rest, inside_above next (k - 1) x, inside_above k v x))
            | inr none_left ↦ rw (le→ltb next k none_left) (omega (arith, rest, inside_above k v x))
          ]
      | inl here ↦ elim (lt-cases x k) [
        | inl gap ↦ rw (lt→ltb next k (omega arith)) (
            omega (
              arith,
              before here,
              past (omega arith),
              inside_in next (k - 1) x,
              inside_below k v x,
            ))
        | inr inner ↦ elim (lt-cases next k) [
          | inl gap ↦ rw (lt→ltb next k gap) (
              omega (
                arith,
                before here,
                past (omega arith),
                inside_above next (k - 1) x,
                inside_in k v x,
              ))
          | inr none_left ↦
              rw (le→ltb next k none_left)
                (omega (arith, before here, past (omega arith), inside_in k v x))
        ]
      ]
    ])

pub hits_within : (total x : ℕ) (m : IntervalSet) → IsWithin total m → total ≤ x → hits m x ≡ 0
hits_within total x [] w h = refl
hits_within total x ((k, v) ∷ m) w h =
    omega (arith, inside_above k v x, hits_within total x m w.1 h)

-- Of a set in normal form below a total within `u64`, `complement_within` is in normal form, stays
-- below the total, and covers there exactly the bytes that the set does not.
pub complement_within-hits :
    (m : IntervalSet) (total : ℕ)
    → IsNormal 0 m
    → IsWithin total m
    → total ≤ u64_max
    → IsNormal 0 (complement_within m total)
      × IsWithin total (complement_within m total)
      × ((x : ℕ) → x < total → hits (complement_within m total) x + hits m x ≡ 1)
unfolding complement_within
complement_within-hits m total n w b =
    let (low, within) = complement_from-IsNormal 0 0 total m n w (omega arith) b in
    (low, within, λ x h. hits-complement_from 0 0 total x m n w (omega arith) b (omega arith) h)

-- On a set in normal form below a total, `covers` answers true exactly if every byte below the
-- total is covered.
pub covers_iff :
    (m : IntervalSet) (total : ℕ)
    → IsNormal 0 m
    → IsWithin total m
    → (covers m total ≡ true) ↔ ((x : ℕ) → x < total → hits m x ≡ 1)
unfolding covers
covers_iff m total n w =
    let size = len-sum_below 0 total m n w in
    (
      λ h.
          sum_below-full total (hits m) (λ x. hits-le-one 0 x m n)
            (ground (arith, size, sum_below_zero (hits m))),
      λ all. ground (arith, size, sum_below-one total (hits m) all),
    )

-- A set that covers nothing from `total` on lies below it.
pub IsWithin-of_hits :
    (lo total : ℕ) (m : IntervalSet)
    → IsNormal lo m
    → ((x : ℕ) → total ≤ x → hits m x ≡ 0)
    → IsWithin total m
IsWithin-of_hits lo total [] n h = tt
IsWithin-of_hits lo total ((k, v) ∷ m) n h = (
  elim (lt-cases v total) [
    | inl below ↦ below
    | inr above ↦ absurd (omega (arith, h v above, inside_in k v v n.1 (omega arith)))
  ],
  IsWithin-of_hits (v + 2) total m n.3 (λ x a. omega (arith, h x a)),
)
