-- ===== src/Io/Budget/Frames.antt =====
-- `split_oversize_frame` of crates/engine/src/io/write_budget.rs. A frame is the list of its bytes.
use kdown.Prelude.{
  ℕ, zero, suc, ◌+◌, ◌-◌, min, ◌≤◌, ◌==◌, false, ◌≡◌, refl, ap, inl, inr, List, [], ◌∷◌, ◌++◌, ltb,
  leb, if◌then◌else◌, length, arith, All, append-nil, Bool-cases, sym, subst, ltb→le, ltb→lt,
  leb→le, Option, none, some,
}

module _ {A : Type 0} where
  abbrev pub take : ℕ → List A → List A
  take zero xs = []
  take (suc n) [] = []
  take (suc n) (x ∷ xs) = x ∷ take n xs

  abbrev pub drop : ℕ → List A → List A
  drop zero xs = xs
  drop (suc n) [] = []
  drop (suc n) (x ∷ xs) = drop n xs

  -- `data.slice(start..end)`.
  abbrev pub slice : List A → ℕ → ℕ → List A
  slice data_bytes start end = take (end - start) (drop start data_bytes)

  -- The `while`; a round moves `start` on, so the length of the frame is fuel enough.
  unfoldable pub split_from : ℕ → List A → ℕ → ℕ → List (List A)
  unfolding slice
  split_from zero bytes quantum start = []
  split_from (suc fuel) bytes quantum start =
      let end = min (start + quantum) (length bytes) in
      let rest = split_from fuel bytes quantum end in
      if ltb start (length bytes) then slice bytes start end ∷ rest else []

  -- None is the failed assertion.
  unfoldable pub split_oversize_frame : List A → ℕ → Option (List (List A))
  unfolding split_from
  split_oversize_frame bytes quantum =
      if ltb quantum 1
      then none
      else if length bytes == 0
      then some []
      else if leb (length bytes) quantum
      then some (bytes ∷ [])
      else some (split_from (length bytes) bytes quantum 0)

  abbrev pub concat : List (List A) → List A
  concat [] = []
  concat (xs ∷ rest) = xs ++ concat rest

  length-take : (n : ℕ) (xs : List A) → length (take n xs) ≡ min n (length xs)
  length-take zero xs = omega arith
  length-take (suc n) [] = omega arith
  length-take (suc n) (x ∷ xs) = omega (arith, length-take n xs)

  length-drop : (n : ℕ) (xs : List A) → length (drop n xs) ≡ length xs - n
  length-drop zero xs = omega arith
  length-drop (suc n) [] = omega arith
  length-drop (suc n) (x ∷ xs) = omega (arith, length-drop n xs)

  drop-all : (n : ℕ) (xs : List A) → length xs ≤ n → drop n xs ≡ []
  drop-all zero [] h = refl
  drop-all zero (x ∷ xs) h = absurd (omega arith)
  drop-all (suc n) [] h = refl
  drop-all (suc n) (x ∷ xs) h = drop-all n xs (omega arith)

  take-drop-zero : (n : ℕ) (xs : List A) → take n xs ++ drop n xs ≡ xs
  take-drop-zero zero xs = refl
  take-drop-zero (suc n) [] = refl
  take-drop-zero (suc n) (x ∷ xs) = ap (λ ys. x ∷ ys) (take-drop-zero n xs)

  take-nil : (n : ℕ) → take n [] ++ [] ≡ []
  take-nil zero = refl
  take-nil (suc n) = refl

  take-drop : (n s : ℕ) (xs : List A) → take n (drop s xs) ++ drop (s + n) xs ≡ drop s xs
  take-drop n zero xs = let e : 0 + n ≡ n = omega arith in rw e (take-drop-zero n xs)
  take-drop n (suc s) [] = let e : suc s + n ≡ suc (s + n) = omega arith in rw e (take-nil n)
  take-drop n (suc s) (x ∷ xs) =
      let e : suc s + n ≡ suc (s + n) = omega arith in rw e (take-drop n s xs)

  abbrev pub IsSlice : ℕ → List A → Type 0
  IsSlice quantum xs = (1 ≤ length xs) × (length xs ≤ quantum)

  split_from_lem :
      (fuel : ℕ) (bytes : List A) (quantum start : ℕ)
      → 1 ≤ quantum
      → length bytes ≤ start + fuel
      → (concat (split_from fuel bytes quantum start) ≡ drop start bytes)
        × All (IsSlice quantum) (split_from fuel bytes quantum start)
  unfolding split_from slice
  split_from_lem zero bytes quantum start q f = (sym (drop-all start bytes (omega (arith, f))), tt)
  split_from_lem (suc fuel) bytes quantum start q f = elim (Bool-cases (ltb start (length bytes))) [
    | inr e ↦ rw e (sym (drop-all start bytes (ltb→le start (length bytes) e)), tt)
    | inl e ↦
        let below = ltb→lt start (length bytes) e in
        let end = min (start + quantum) (length bytes) in
        let (same, small) = split_from_lem fuel bytes quantum end q (omega (arith, f, below)) in
        let span : start + (end - start) ≡ end = omega (arith, below, q) in
        let whole = take-drop (end - start) start bytes in
        let size = length-take (end - start) (drop start bytes) in
        rw e (
          subst (λ rest. slice bytes start end ++ rest ≡ drop start bytes) (sym same)
              (subst (λ n. slice bytes start end ++ drop n bytes ≡ drop start bytes) span whole),
          (omega (arith, size, length-drop start bytes, below, q), small),
        )
  ]

  empty : (xs : List A) → length xs ≡ 0 → xs ≡ []
  empty [] h = refl
  empty (x ∷ xs) h = absurd (omega arith)

  -- For a positive quantum a frame is split, into slices that are not empty, hold at most
  -- `quantum` bytes each, and put together are the frame.
  pub split_oversize_frame_lem :
      (bytes : List A) (quantum : ℕ)
      → 1 ≤ quantum
      → (slices : List (List A)) × (split_oversize_frame bytes quantum ≡ some slices)
        × (concat slices ≡ bytes)
        × All (IsSlice quantum) slices
  unfolding split_oversize_frame
  split_oversize_frame_lem bytes quantum q =
      let positive : ltb quantum 1 ≡ false = ground arith in
      elim (Bool-cases (length bytes == 0)) [
        | inl z ↦ rw (positive, z) ([], refl, sym (empty bytes (ground (arith, z))), tt)
        | inr z ↦ elim (Bool-cases (leb (length bytes) quantum)) [
          | inl l ↦
              rw (positive, z, l)
                (
                  bytes ∷ [],
                  refl,
                  append-nil bytes,
                  ((ground (arith, z), leb→le (length bytes) quantum l), tt),
                )
          | inr l ↦
              let (same, small) = split_from_lem (length bytes) bytes quantum 0 q (omega arith) in
              rw (positive, z, l) (split_from (length bytes) bytes quantum 0, refl, same, small)
        ]
      ]
