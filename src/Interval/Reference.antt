-- ===== src/Interval/Reference.antt =====
-- Structural recursions that describe `insert` and `subtract` range by range, with their laws.
use kdown.Prelude.{
  ℕ, ◌+◌, ◌-◌, min, max, ◌≤◌, ◌<◌, ◌≡◌, refl, ◌⊎◌, inl, inr, true, false, if◌then◌else◌, List, [],
  ◌∷◌, ltb, lt→ltb, le→ltb, u64_max, arith, lt-cases,
}
use kdown.Interval.Coverage.{inside, hits, IsNormal, IsNormal-mono, hits_below, inside_below}

-- Insertion of [s, e], s ≤ e.
unfoldable pub merge_in : List (ℕ × ℕ) → ℕ → ℕ → List (ℕ × ℕ)
merge_in [] s e = (s, e) ∷ []
merge_in ((k, v) ∷ m) s e = elim (ltb (v + 1) s) [
  | true ↦ (k, v) ∷ merge_in m s e
  | false ↦ elim (ltb (e + 1) k) [
    | true ↦ (s, e) ∷ (k, v) ∷ m
    | false ↦ merge_in m (min s k) (max e v)
  ]
]

pub merge_in_nil : (s e : ℕ) → merge_in [] s e ≡ (s, e) ∷ []
unfolding merge_in
merge_in_nil s e = refl

module _ (k v : ℕ) (m : List (ℕ × ℕ)) (s e : ℕ) where
  pub merge_in_before : v + 1 < s → merge_in ((k, v) ∷ m) s e ≡ (k, v) ∷ merge_in m s e
  unfolding merge_in
  merge_in_before h = rw (lt→ltb _ _ h, merge_in)

  pub merge_in_after : s ≤ v + 1 → e + 1 < k → merge_in ((k, v) ∷ m) s e ≡ (s, e) ∷ (k, v) ∷ m
  unfolding merge_in
  merge_in_after h g = rw (le→ltb _ _ h, lt→ltb _ _ g, merge_in)

  pub merge_in_touching :
      s ≤ v + 1 → k ≤ e + 1 → merge_in ((k, v) ∷ m) s e ≡ merge_in m (min s k) (max e v)
  unfolding merge_in
  merge_in_touching h g = rw (le→ltb _ _ h, le→ltb _ _ g, merge_in)

pub merge_in-IsNormal :
    (lo : ℕ) (m : List (ℕ × ℕ)) (s e : ℕ)
    → IsNormal lo m
    → lo ≤ s
    → s ≤ e
    → e ≤ u64_max
    → IsNormal lo (merge_in m s e)
unfolding merge_in
merge_in-IsNormal lo [] s e n h g b = (h, g, b, tt)
merge_in-IsNormal lo ((k, v) ∷ m) s e n h g b = ground (
  arith,
  merge_in-IsNormal (v + 2) m s e n.3,
  merge_in-IsNormal lo m (min s k) (max e v) (IsNormal-mono m (omega arith) n.3),
)

inside-merge :
    (k v s e x : ℕ)
    → k ≤ v
    → s ≤ e
    → s ≤ v + 1
    → k ≤ e + 1
    → inside (min s k) (max e v) x ≡ max (inside k v x) (inside s e x)
unfolding inside
inside-merge k v s e x a b c d = ground arith

inside-disjoint :
    (k v s e x : ℕ) → v < s → inside k v x + inside s e x ≡ max (inside k v x) (inside s e x)
unfolding inside
inside-disjoint k v s e x h = ground arith

inside_disjoint : (k v s e x : ℕ) → v < s → min (inside k v x) (inside s e x) ≡ 0
unfolding inside
inside_disjoint k v s e x h = ground arith

pub inside-le-one : (k v x : ℕ) → inside k v x ≤ 1
unfolding inside
inside-le-one k v x = ground arith

pub inside_empty : (k v x : ℕ) → v < k → inside k v x ≡ 0
unfolding inside
inside_empty k v x h = ground arith

pub inside_zero : (k v x : ℕ) → (inside k v x ≡ 0) ⊎ ((k ≤ x) × (x ≤ v) × (inside k v x ≡ 1))
unfolding inside
inside_zero k v x = ground arith

-- A byte is covered afterwards if it was before or lies in [s, e].
pub hits-merge_in :
    (lo : ℕ) (m : List (ℕ × ℕ)) (s e x : ℕ)
    → IsNormal lo m
    → s ≤ e
    → hits (merge_in m s e) x ≡ max (hits m x) (inside s e x)
hits-merge_in lo [] s e x n h = rw (merge_in_nil s e) (omega arith)
hits-merge_in lo ((k, v) ∷ m) s e x n h = elim (lt-cases (v + 1) s) [
  | inl before ↦ rw (merge_in_before k v m s e before) (elim (inside_zero k v x) [
    | inl z ↦ omega (arith, hits-merge_in (v + 2) m s e x n.3 h)
    | inr (a, b, i) ↦ omega (
      arith,
      hits-merge_in (v + 2) m s e x n.3 h,
      hits_below (v + 2) x m n.3 (omega arith),
      inside_below s e x,
    )
  ])
  | inr touching ↦ elim (lt-cases (e + 1) k) [
    | inl after ↦ rw (merge_in_after k v m s e touching after) (elim (inside_zero s e x) [
      | inl z ↦ omega arith
      | inr (a, b, i) ↦ omega (arith, inside_below k v x, hits_below (v + 2) x m n.3 (omega arith))
    ])
    | inr overlap ↦ rw (merge_in_touching k v m s e touching overlap) (elim (inside_zero k v x) [
      | inl z ↦ omega (
        arith,
        hits-merge_in (v + 2) m (min s k) (max e v) x n.3 (omega arith),
        inside-merge k v s e x n.1 h touching overlap,
      )
      | inr (a, b, i) ↦ omega (
        arith,
        hits-merge_in (v + 2) m (min s k) (max e v) x n.3 (omega arith),
        inside-merge k v s e x n.1 h touching overlap,
        hits_below (v + 2) x m n.3 (omega arith),
        inside-le-one s e x,
      )
    ])
  ]
]

-- What is left of [k, v] without [s, e].
abbrev pub pieces : ℕ → ℕ → ℕ → ℕ → List (ℕ × ℕ) → List (ℕ × ℕ)
pieces k v s e m =
    let upper = if ltb e v then (e + 1, v) ∷ m else m in
    if ltb k s then (k, s - 1) ∷ upper else upper

-- Removal of [s, e], s ≤ e.
unfoldable pub cut_out : List (ℕ × ℕ) → ℕ → ℕ → List (ℕ × ℕ)
cut_out [] s e = []
cut_out ((k, v) ∷ m) s e =
    let rest = cut_out m s e in
    if ltb v s then (k, v) ∷ rest else if ltb e k then (k, v) ∷ rest else pieces k v s e rest

pub cut_out-IsNormal :
    (lo : ℕ) (m : List (ℕ × ℕ)) (s e : ℕ) → IsNormal lo m → s ≤ e → IsNormal lo (cut_out m s e)
unfolding cut_out
cut_out-IsNormal lo [] s e n h = tt
cut_out-IsNormal lo ((k, v) ∷ m) s e n h =
    let rest = cut_out-IsNormal (v + 2) m s e n.3 h in
    let low = IsNormal-mono {a = lo} {b = v + 2} (cut_out m s e) (omega arith) rest in
    let mid = λ (q : e + 1 < v + 2). IsNormal-mono {a = e + 3} {b = v + 2} (cut_out m s e) in
    ground (arith, rest, low, IsNormal-mono {a = s - 1 + 2} {b = v + 2} (cut_out m s e))

module _ (k v s e x : ℕ) (m : List (ℕ × ℕ)) (a : k ≤ v) (b : s ≤ e) where
  hits-pieces :
      s ≤ v
      → k ≤ e
      → hits (pieces k v s e m) x + min (inside k v x) (inside s e x) ≡ inside k v x + hits m x
  unfolding inside
  hits-pieces c d = ground arith

  -- The part of the head range in [s, e] leaves.
  hits-cut_head :
      hits (if ltb v s then (k, v) ∷ m else if ltb e k then (k, v) ∷ m else pieces k v s e m) x
        + min (inside k v x) (inside s e x)
      ≡ inside k v x + hits m x
  hits-cut_head = elim (lt-cases v s) [
    | inl below ↦ rw (lt→ltb _ _ below) (omega (arith, inside_disjoint k v s e x below))
    | inr c ↦ elim (lt-cases e k) [
      | inl above ↦
          rw (le→ltb _ _ c, lt→ltb _ _ above) (omega (arith, inside_disjoint s e k v x above))
      | inr d ↦ rw (le→ltb _ _ c, le→ltb _ _ d) (hits-pieces c d)
    ]
  ]

-- A byte is covered afterwards if it was before and lies outside of [s, e].
pub hits-cut_out :
    (lo : ℕ) (m : List (ℕ × ℕ)) (s e x : ℕ)
    → IsNormal lo m
    → s ≤ e
    → hits (cut_out m s e) x + min (hits m x) (inside s e x) ≡ hits m x
unfolding cut_out
hits-cut_out lo [] s e x n h = omega arith
hits-cut_out lo ((k, v) ∷ m) s e x n h =
    let head = hits-cut_head k v s e x (cut_out m s e) n.1 h in
    let rest = hits-cut_out (v + 2) m s e x n.3 h in
    elim (inside_zero k v x) [
      | inl z ↦ omega (arith, head, rest)
      | inr (a, b, i) ↦
          omega (arith, head, rest, inside-le-one s e x, hits_below (v + 2) x m n.3 (omega arith))
    ]
