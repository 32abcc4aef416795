-- ===== src/Interval/Coverage.antt =====
-- The bytes that a set covers, and the normal form that `IntervalSet` keeps.
use kdown.Prelude.{
  ℕ, ◌+◌, ◌≤◌, ◌<◌, ◌≡◌, refl, ◌&&◌, List, [], ◌∷◌, ◌++◌, leb, if◌then◌else◌, u64_max, arith,
}

-- 1 if the byte x lies in [k, v], else 0.
unfoldable pub inside : ℕ → ℕ → ℕ → ℕ
inside k v x = if leb k x && leb x v then 1 else 0

-- The number of ranges that hold the byte x.
abbrev pub hits : List (ℕ × ℕ) → ℕ → ℕ
hits [] x = 0
hits ((k, v) ∷ m) x = inside k v x + hits m x

-- Ranges from `lo` on, in order, not empty, neither overlapping nor adjacent, within `u64`.
abbrev pub IsNormal : ℕ → List (ℕ × ℕ) → Type 0
IsNormal lo [] = Unit {0}
IsNormal lo ((k, v) ∷ m) = (lo ≤ k) × (k ≤ v) × (v ≤ u64_max) × IsNormal (v + 2) m

pub IsNormal-mono : {a b : ℕ} (m : List (ℕ × ℕ)) → a ≤ b → IsNormal b m → IsNormal a m
IsNormal-mono [] h n = tt
IsNormal-mono ((k, v) ∷ m) h n = (omega arith, n.1, n.2, n.3)

pub inside_in : (k v x : ℕ) → k ≤ x → x ≤ v → inside k v x ≡ 1
unfolding inside
inside_in k v x h g = ground arith

pub inside_below : (k v x : ℕ) → x < k → inside k v x ≡ 0
unfolding inside
inside_below k v x h = ground arith

pub inside_above : (k v x : ℕ) → v < x → inside k v x ≡ 0
unfolding inside
inside_above k v x h = ground arith

-- Nothing is covered below the first range.
pub hits_below : (lo x : ℕ) (m : List (ℕ × ℕ)) → IsNormal lo m → x < lo → hits m x ≡ 0
hits_below lo x [] n h = refl
hits_below lo x ((k, v) ∷ m) n h =
    omega (arith, inside_below k v x, hits_below (v + 2) x m n.3 (omega arith))

pub hits-append : (m n : List (ℕ × ℕ)) (x : ℕ) → hits (m ++ n) x ≡ hits m x + hits n x
hits-append [] n x = omega arith
hits-append ((k, v) ∷ m) n x = omega (arith, hits-append m n x)

-- A normal set holds a byte at most once.
pub hits-le-one : (lo x : ℕ) (m : List (ℕ × ℕ)) → IsNormal lo m → hits m x ≤ 1
unfolding inside
hits-le-one lo x [] n = omega arith
hits-le-one lo x ((k, v) ∷ m) n =
    ground (arith, hits-le-one (v + 2) x m n.3, hits_below (v + 2) x m n.3)
