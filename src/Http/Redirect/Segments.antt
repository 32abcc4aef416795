-- ===== src/Http/Redirect/Segments.antt =====
-- `normalize_dot_segments` of crates/engine/src/http/redirect.rs, between the split of the path at its
-- slashes and the join.
use kdown.Prelude.{
  Bool, false, ◌||◌, ◌≡◌, refl, inl, inr, List, [], ◌∷◌, ◌++◌, if◌then◌else◌, String, str_eq, All,
  append-nil, Bool-cases,
}

-- `segments.pop()`; the last segment is the head here.
abbrev pop : List String → List String
pop [] = []
pop (s ∷ rest) = rest

abbrev is_skipped : String → Bool
is_skipped segment = str_eq segment "" || str_eq segment "."

-- The loop, with the segments so far in reverse order.
unfoldable pub collapse : List String → List String → List String
collapse segments [] = segments
collapse segments (segment ∷ path) =
    let next =
      if is_skipped segment
      then segments
      else if str_eq segment ".."
      then pop segments
      else segment ∷ segments in
    collapse next path

abbrev pub reverse_onto : List String → List String → List String
reverse_onto [] ys = ys
reverse_onto (x ∷ xs) ys = reverse_onto xs (x ∷ ys)

-- The segments that are joined.
unfoldable pub normalize_segments : List String → List String
unfolding collapse
normalize_segments path = reverse_onto (collapse [] path) []

-- Neither empty nor a dot segment.
abbrev pub IsPlain : String → Type 0
IsPlain s = (is_skipped s ≡ false) × (str_eq s ".." ≡ false)

pop-IsPlain : (ss : List String) → All IsPlain ss → All IsPlain (pop ss)
pop-IsPlain [] a = tt
pop-IsPlain (s ∷ rest) a = a.1

collapse-IsPlain : (path ss : List String) → All IsPlain ss → All IsPlain (collapse ss path)
unfolding collapse
collapse-IsPlain [] ss a = a
collapse-IsPlain (s ∷ path) ss a = elim (Bool-cases (is_skipped s)) [
  | inl e ↦ rw e (collapse-IsPlain path ss a)
  | inr e ↦ elim (Bool-cases (str_eq s "..")) [
    | inl d ↦ rw (e, d) (collapse-IsPlain path (pop ss) (pop-IsPlain ss a))
    | inr d ↦ rw (e, d) (collapse-IsPlain path (s ∷ ss) ((e, d), a))
  ]
]

reverse_onto-IsPlain :
    (xs ys : List String) → All IsPlain xs → All IsPlain ys → All IsPlain (reverse_onto xs ys)
reverse_onto-IsPlain [] ys a b = b
reverse_onto-IsPlain (x ∷ xs) ys a b = reverse_onto-IsPlain xs (x ∷ ys) a.1 (a.0, b)

-- A path without dot segments is pushed whole.
collapse-push : (path ss : List String) → All IsPlain path → collapse ss path ≡ reverse_onto path ss
unfolding collapse
collapse-push [] ss a = refl
collapse-push (s ∷ path) ss a = rw (a.0.0, a.0.1) (collapse-push path (s ∷ ss) a.1)

reverse_twice :
    (xs ys zs : List String) → reverse_onto (reverse_onto xs ys) zs ≡ reverse_onto ys (xs ++ zs)
reverse_twice [] ys zs = refl
reverse_twice (x ∷ xs) ys zs = reverse_twice xs (x ∷ ys) zs

-- A normalized path has no empty and no dot segments, and normalizing it again changes nothing.
pub normalize_segments_idem :
    (path : List String)
    → All IsPlain (normalize_segments path)
      × (normalize_segments (normalize_segments path) ≡ normalize_segments path)
unfolding normalize_segments
normalize_segments_idem path =
    let plain = reverse_onto-IsPlain (collapse [] path) [] (collapse-IsPlain path [] tt) tt in
    let ss = reverse_onto (collapse [] path) [] in
    (plain, rw (collapse-push ss [] plain) (rw (reverse_twice ss [] []) (append-nil ss)))
