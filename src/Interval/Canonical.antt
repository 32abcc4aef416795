-- ===== src/Interval/Canonical.antt =====
-- The normal form is canonical: a set is known by the bytes that it covers.
use kdown.Prelude.{ℕ, ◌+◌, ◌≤◌, ◌≡◌, refl, sym, subst, inl, inr, List, [], ◌∷◌, arith, lt-cases}
use kdown.Interval.Coverage.{
  inside, hits, IsNormal, inside_in, inside_below, inside_above, hits_below,
}

first_le :
    (lo k v j w : ℕ) (m n : List (ℕ × ℕ))
    → IsNormal lo ((k, v) ∷ m)
    → IsNormal lo ((j, w) ∷ n)
    → ((x : ℕ) → hits ((k, v) ∷ m) x ≡ hits ((j, w) ∷ n) x)
    → j ≤ k
first_le lo k v j w m n a b h = elim (lt-cases k j) [
  | inl less ↦ absurd (
      omega (
        arith,
        h k,
        inside_in k v k (omega arith) a.1,
        inside_below j w k less,
        hits_below (w + 2) k n b.3 (omega (arith, b.1)),
      ))
  | inr fine ↦ fine
]

end_le :
    (lo k v w : ℕ) (m n : List (ℕ × ℕ))
    → IsNormal lo ((k, v) ∷ m)
    → IsNormal lo ((k, w) ∷ n)
    → ((x : ℕ) → hits ((k, v) ∷ m) x ≡ hits ((k, w) ∷ n) x)
    → w ≤ v
end_le lo k v w m n a b h = elim (lt-cases v w) [
  | inl less ↦ absurd (
      omega (
        arith,
        h (v + 1),
        inside_above k v (v + 1) (omega arith),
        hits_below (v + 2) (v + 1) m a.3 (omega arith),
        inside_in k w (v + 1) (omega (arith, a.1)) (omega arith),
      ))
  | inr fine ↦ fine
]

end_le_of_same :
    (lo k v j w : ℕ) (m n : List (ℕ × ℕ))
    → j ≡ k
    → IsNormal lo ((k, v) ∷ m)
    → IsNormal lo ((j, w) ∷ n)
    → ((x : ℕ) → hits ((k, v) ∷ m) x ≡ hits ((j, w) ∷ n) x)
    → w ≤ v
end_le_of_same lo k v j w m n e a b h =
    end_le lo k v w m n a (subst (λ z. IsNormal lo ((z, w) ∷ n)) e b)
      (λ x. subst (λ z. hits ((k, v) ∷ m) x ≡ hits ((z, w) ∷ n) x) e (h x))

tails_same :
    (k v j w : ℕ) (m n : List (ℕ × ℕ))
    → j ≡ k
    → w ≡ v
    → (x : ℕ) → hits ((k, v) ∷ m) x ≡ hits ((j, w) ∷ n) x
    → hits m x ≡ hits n x
tails_same k v j w m n e f x h =
    let same : inside j w x ≡ inside k v x = rw (e, f) refl in omega (arith, h, same)

-- Two sets in normal form that cover the same bytes are the same.
pub normal_unique :
    (lo : ℕ) (m n : List (ℕ × ℕ))
    → IsNormal lo m
    → IsNormal lo n
    → ((x : ℕ) → hits m x ≡ hits n x)
    → m ≡ n
normal_unique lo [] [] a b h = refl
normal_unique lo [] ((j, w) ∷ n) a b h =
    absurd (omega (arith, h j, inside_in j w j (omega arith) b.1))
normal_unique lo ((k, v) ∷ m) [] a b h =
    absurd (omega (arith, h k, inside_in k v k (omega arith) a.1))
normal_unique lo ((k, v) ∷ m) ((j, w) ∷ n) a b h =
    let starts : j ≡ k = omega (
      arith,
      first_le lo k v j w m n a b h,
      first_le lo j w k v n m b a (λ x. omega (arith, h x)),
    ) in
    let up : w ≤ v = end_le_of_same lo k v j w m n starts a b h in
    let down : v ≤ w = end_le_of_same lo j w k v n m (sym starts) b a (λ x. omega (arith, h x)) in
    let ends : w ≡ v = omega arith in
    let rest : m ≡ n =
      normal_unique (v + 2) m n a.3 (rw (← ends) b.3)
        (λ x. tails_same k v j w m n starts ends x (h x)) in
    rw (starts, ends, rest) refl
