-- ===== src/Prelude/Lists.antt =====
-- Lists measured by native numbers, and predicates on all their elements.
use Prim.Native.Nat.{ℕ, zero, suc, ◌+◌, ◌≤◌, ◌<◌}
use mathlib.Core.Path.{◌≡◌, refl, ap}
use mathlib.Core.List.{List, [], ◌∷◌, ◌++◌}
use mathlib.Core.Logic.{inl, inr}
use native.Mathlib.Omega.{arith}
use kdown.Prelude.Tests.{lt-cases}

module _ {ℓ} {A : Type ℓ} where
  abbrev pub length : List A → ℕ
  length [] = 0
  length (x ∷ xs) = suc (length xs)

  pub length-append : (xs ys : List A) → length (xs ++ ys) ≡ length xs + length ys
  length-append [] ys = omega arith
  length-append (x ∷ xs) ys = omega (arith, length-append xs ys)

  pub append-nil : (xs : List A) → xs ++ [] ≡ xs
  append-nil [] = refl
  append-nil (x ∷ xs) = ap (λ ys. x ∷ ys) (append-nil xs)

  abbrev pub All {κ} : (A → Type κ) → List A → Type κ
  All P [] = Unit
  All P (x ∷ xs) = P x × All P xs

  pub All-append {κ} : (P : A → Type κ) (xs ys : List A) → All P xs → All P ys → All P (xs ++ ys)
  All-append P [] ys hx hy = hy
  All-append P (x ∷ xs) ys hx hy = (hx.0, All-append P xs ys hx.1 hy)

  -- The sum of a measure over a list.
  abbrev pub sum_by : (A → ℕ) → List A → ℕ
  sum_by f [] = 0
  sum_by f (x ∷ xs) = f x + sum_by f xs

  pub sum_by-append : (f : A → ℕ) (xs ys : List A) → sum_by f (xs ++ ys) ≡ sum_by f xs + sum_by f ys
  sum_by-append f [] ys = omega arith
  sum_by-append f (x ∷ xs) ys = omega (arith, sum_by-append f xs ys)

-- The sum of `f x` over x < n.
unfoldable pub sum_below : ℕ → (ℕ → ℕ) → ℕ
sum_below zero f = 0
sum_below (suc n) f = f n + sum_below n f

pub sum_below-zero : (n : ℕ) → sum_below n (λ x. 0) ≡ 0
unfolding sum_below
sum_below-zero zero = refl
sum_below-zero (suc n) = omega (arith, sum_below-zero n)

pub sum_below-add :
    (n : ℕ) (f g : ℕ → ℕ) → sum_below n (λ x. f x + g x) ≡ sum_below n f + sum_below n g
unfolding sum_below
sum_below-add zero f g = omega arith
sum_below-add (suc n) f g = omega (arith, sum_below-add n f g)

pub sum_below-cong :
    (n : ℕ) (f g : ℕ → ℕ) → ((x : ℕ) → x < n → f x ≡ g x) → sum_below n f ≡ sum_below n g
unfolding sum_below
sum_below-cong zero f g h = refl
sum_below-cong (suc n) f g h =
    omega (arith, h n (omega arith), sum_below-cong n f g (λ x b. h x (omega arith)))

pub sum_below-one : (n : ℕ) (f : ℕ → ℕ) → ((x : ℕ) → x < n → f x ≡ 1) → sum_below n f ≡ n
unfolding sum_below
sum_below-one zero f h = refl
sum_below-one (suc n) f h =
    omega (arith, h n (omega arith), sum_below-one n f (λ x b. h x (omega arith)))

pub sum_below-le : (n : ℕ) (f : ℕ → ℕ) → ((x : ℕ) → f x ≤ 1) → sum_below n f ≤ n
unfolding sum_below
sum_below-le zero f h = omega arith
sum_below-le (suc n) f h = omega (arith, h n, sum_below-le n f h)

-- Terms of at most 1 that add up to their number are all 1.
pub sum_below-full :
    (n : ℕ) (f : ℕ → ℕ) → ((x : ℕ) → f x ≤ 1) → sum_below n f ≡ n → (x : ℕ) → x < n → f x ≡ 1
unfolding sum_below
sum_below-full zero f h e x b = absurd (omega arith)
sum_below-full (suc n) f h e x b = elim (lt-cases x n) [
  | inl below ↦ sum_below-full n f h (omega (arith, h n, sum_below-le n f h)) x below
  | inr at ↦ let same : x ≡ n = omega arith in rw same (omega (arith, h n, sum_below-le n f h))
]
