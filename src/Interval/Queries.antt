-- ===== src/Interval/Queries.antt =====
-- What `contains`, `first_gap_from`, `complement_within`, `len` and `covers` tell of the bytes.
use kdown.Prelude.{
  ℕ, ◌+◌, max, ◌≤◌, ◌<◌, ◌≡◌, ◌≢◌, ◌↔◌, refl, inl, inr, true, false, Option, none, some, [], ◌∷◌,
  lt→ltb, le→ltb, lt→leb, le→leb, u64_max, arith, lt-cases, Option-cases, Bool-cases, if◌then◌else◌,
  leb,
}
use kdown.Interval.Coverage.{
  inside, hits, IsNormal, inside_in, inside_below, inside_above, hits_below, hits-le-one,
}
use kdown.Interval.Map.{last_le_above, last_le_bound}
use kdown.Interval.{IntervalSet, last_le, contains, gap_after, first_gap_from}

last_le_split :
    (x k v : ℕ) (m : IntervalSet)
    → last_le ((k, v) ∷ m) x
      ≡ elim (last_le m x) [ some e ↦ some e | none ↦ if leb k x then some (k, v) else none ]
unfolding last_le
last_le_split x k v m = refl

last_le-none :
    (lo x y : ℕ) (m : IntervalSet) → IsNormal lo m → last_le m x ≡ none → y ≤ x → hits m y ≡ 0
last_le-none lo x y [] n h b = refl
last_le-none lo x y ((k, v) ∷ m) n h b = elim (lt-cases x k) [
  | inl below ↦ omega (arith, inside_below k v y, hits_below (v + 2) y m n.3)
  | inr at ↦ absurd (ground (arith, last_le_split x k v m))
]

-- The entry at or below x rules the bytes from its start to x, and one byte past its end.
abbrev Rules : IntervalSet → ℕ → ℕ → ℕ → Type 0
Rules m x k v =
    (k ≤ x)
    × (k ≤ v)
    × (v ≤ u64_max)
    × ((y : ℕ) → k ≤ y → y ≤ max x (v + 1) → hits m y ≡ inside k v y)

last_le-some :
    (lo x j w : ℕ) (m : IntervalSet) → IsNormal lo m → last_le m x ≡ some (j, w) → Rules m x j w
last_le-some lo x j w [] n h = absurd (ground (arith, last_le_above (x + 1) x [] tt (omega arith)))
last_le-some lo x j w ((k, v) ∷ m) n h = elim (Option-cases (last_le m x)) [
  | inl e ↦
      let here : (k ≡ j) × (v ≡ w) × (k ≤ x) = ground (arith, last_le_split x k v m) in
      (
        omega arith,
        omega arith,
        omega arith,
        λ y a b. elim (lt-cases y (v + 2)) [
          | inl near ↦ rw (← here.0, ← here.1) (omega (arith, hits_below (v + 2) y m n.3 near))
          | inr far ↦
              rw (← here.0, ← here.1)
                (omega (arith, last_le-none (v + 2) x y m n.3 e (omega arith)))
        ],
      )
  | inr ((a, b), e) ↦
      let found : last_le m x ≡ some (j, w) = ground (arith, last_le_split x k v m) in
      let (c1, c2, c3, rest) = last_le-some (v + 2) x j w m n.3 found in
      let above = last_le_bound (v + 2) x j w m n.3 found in
      (c1, c2, c3, λ y c d. omega (arith, rest y c d, inside_above k v y))
]

-- On a set in normal form, `contains` decides whether a byte is covered.
pub contains_iff : (m : IntervalSet) (x : ℕ) → IsNormal 0 m → (contains m x ≡ true) ↔ (hits m x ≡ 1)
unfolding contains
contains_iff m x n = elim (Option-cases (last_le m x)) [
  | inl e ↦ rw e (λ h. cc, λ h. absurd (omega (arith, last_le-none 0 x x m n e)))
  | inr ((k, v), e) ↦
      let (a, b, c, rules) = last_le-some 0 x k v m n e in
      rw e (
        λ h. ground (arith, rules x a (omega arith), inside_in k v x),
        λ h. ground (arith, rules x a (omega arith), inside_above k v x),
      )
]

-- What the answer of `first_gap_from` says of the bytes from `start` to `limit`.
abbrev pub FirstGap : IntervalSet → ℕ → ℕ → Option ℕ → Type 0
FirstGap m start limit none = (x : ℕ) → start ≤ x → x ≤ limit → hits m x ≡ 1
FirstGap m start limit (some g) =
    (start ≤ g) × (g ≤ limit) × (hits m g ≡ 0) × ((x : ℕ) → start ≤ x → x < g → hits m x ≡ 1)

not_contains : (m : IntervalSet) (x : ℕ) → IsNormal 0 m → contains m x ≡ false → hits m x ≡ 0
not_contains m x n h = omega (arith, hits-le-one 0 x m n, no)
  where
    no : hits m x ≢ 1
    no e = cc ((contains_iff m x n).1 e)

-- On a set in normal form, `first_gap_from` answers the least byte in [start, limit] that is not
-- covered, or none if all of them are covered.
pub first_gap_from-FirstGap :
    (m : IntervalSet) (start limit : ℕ)
    → IsNormal 0 m
    → FirstGap m start limit (first_gap_from m start limit)
unfolding first_gap_from
first_gap_from-FirstGap m start limit n = elim (lt-cases limit start) [
  | inl out ↦ rw (lt→ltb limit start out) (λ x a b. absurd (omega arith))
  | inr h ↦ rw (le→ltb limit start h) (elim (Bool-cases (contains m start)) [
    | inr open_at ↦
        rw open_at (omega arith, h, not_contains m start n open_at, λ x a b. absurd (omega arith))
    | inl at ↦ rw at (elim (Option-cases (last_le m start)) [
      | inl e ↦
          absurd (omega (arith, (contains_iff m start n).0 at, last_le-none 0 start start m n e))
      | inr ((k, v), e) ↦ rw e (after k v at e)
    ])
  ])
]
  where
    after :
        (k v : ℕ)
        → contains m start ≡ true
        → last_le m start ≡ some (k, v)
        → FirstGap m start limit (gap_after (some (k, v)) limit)
    after k v at e =
        let (a, b, c, rules) = last_le-some 0 start k v m n e in
        let reach : start ≤ v = ground (
          arith,
          (contains_iff m start n).0 at,
          rules start a (omega arith),
          inside_above k v start,
        ) in
        elim (lt-cases v limit) [
          | inl more ↦ rw (lt→leb limit v more) (
            omega arith,
            omega arith,
            omega (arith, rules (v + 1) (omega arith) (omega arith), inside_above k v (v + 1)),
            λ x p q. omega (arith, rules x (omega arith) (omega arith), inside_in k v x),
          )
          | inr all ↦
              rw (le→leb limit v all)
                (λ x p q. omega (arith, rules x (omega arith) (omega arith), inside_in k v x))
        ]
