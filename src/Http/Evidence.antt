-- ===== src/Http/Evidence.antt =====
-- What the comparisons of crates/engine/src/http/validators.rs admit.
use kdown.Prelude.{
  ℕ, true, false, ◌≡◌, ◌⊎◌, ◌↔◌, inl, inr, refl, ap, Option, none, some, String, str_eq_iff, ==_iff,
  arith, Bool-cases,
}
use kdown.Http.Validators.{
  ResourceValidators, texts_differ, sizes_differ, is_some, same, same_generation, has_strong_etag,
  comparable, comparable_generation, resume_capable, if_range_value,
}

-- No two present values differ.
abbrev pub Agree {ℓ} : {A : Type ℓ} → Option A → Option A → Type ℓ
Agree (some a) (some b) = a ≡ b
Agree none b = Unit
Agree (some a) none = Unit

texts_differ_iff : (a b : Option String) → (texts_differ a b ≡ false) ↔ Agree a b
texts_differ_iff (some a) (some b) =
    (λ h. (str_eq_iff a b).0 (ground arith), λ h. ground (arith, (str_eq_iff a b).1 h))
texts_differ_iff none b = (λ h. tt, λ h. refl)
texts_differ_iff (some a) none = (λ h. tt, λ h. refl)

pub sizes_differ_iff : (a b : Option ℕ) → (sizes_differ a b ≡ false) ↔ Agree a b
sizes_differ_iff (some a) (some b) =
    (λ h. (==_iff a b).0 (ground arith), λ h. ground (arith, (==_iff a b).1 h))
sizes_differ_iff none b = (λ h. tt, λ h. refl)
sizes_differ_iff (some a) none = (λ h. tt, λ h. refl)

-- `same_generation` is content exactly if neither the ETags nor the dates nor the sizes are both
-- present and different.
pub same_generation_iff :
    (v other : ResourceValidators)
    → (same_generation v other ≡ same) ↔ (
        Agree v.etag other.etag
        × Agree v.last_modified other.last_modified
        × Agree v.total_size other.total_size)
unfolding same_generation
same_generation_iff v other = elim (Bool-cases (texts_differ v.etag other.etag)) [
  | inl e ↦
      rw e
        (λ h. absurd (cc), λ h. let no = (texts_differ_iff v.etag other.etag).1 h.0 in absurd (cc))
  | inr e ↦ elim (Bool-cases (texts_differ v.last_modified other.last_modified)) [
    | inl f ↦
        rw (e, f)
          (
            λ h. absurd (cc),
            λ h.
                let no = (texts_differ_iff v.last_modified other.last_modified).1 h.1 in
                absurd (cc),
          )
    | inr f ↦ elim (Bool-cases (sizes_differ v.total_size other.total_size)) [
      | inl g ↦
          rw (e, f, g)
            (
              λ h. absurd (cc),
              λ h. let no = (sizes_differ_iff v.total_size other.total_size).1 h.2 in absurd (cc),
            )
      | inr g ↦
          rw (e, f, g)
            (
              λ h. (
                (texts_differ_iff v.etag other.etag).0 e,
                (texts_differ_iff v.last_modified other.last_modified).0 f,
                (sizes_differ_iff v.total_size other.total_size).0 g,
              ),
              λ h. refl,
            )
    ]
  ]
]

both_some {ℓ} :
    {A : Type ℓ} (a b : Option A)
    → is_some a ≡ true
    → is_some b ≡ true
    → Agree a b
    → (x : A) × (a ≡ some x) × (b ≡ some x)
both_some (some x) (some y) h g e = (y, ap some e, refl)
both_some none b h g e = absurd (ground arith)
both_some (some x) none h g e = absurd (ground arith)

has_strong_etag_lem :
    (v : ResourceValidators)
    → has_strong_etag v ≡ true
    → (is_some v.etag ≡ true) × (v.etag_is_weak ≡ false)
has_strong_etag_lem v h = ground arith

-- A resumption that both comparisons admit has evidence: the same strong ETag before and now, or,
-- without a strong ETag before, the same date.
pub resume_evidence :
    (saved current : ResourceValidators)
    → same_generation saved current ≡ same
    → comparable_generation saved current ≡ comparable
    → ((tag : String) × (saved.etag ≡ some tag)
        × (current.etag ≡ some tag)
        × (saved.etag_is_weak ≡ false)
        × (current.etag_is_weak ≡ false))
      ⊎ ((date : String) × (saved.last_modified ≡ some date)
          × (current.last_modified ≡ some date)
          × (has_strong_etag saved ≡ false))
unfolding comparable_generation
resume_evidence saved current g c =
    let (tags, dates, sizes) = (same_generation_iff saved current).0 g in
    elim (Bool-cases (has_strong_etag saved)) [
      | inl s ↦
          let now : has_strong_etag current ≡ true = ground (arith, c, s) in
          let (s1, s2) = has_strong_etag_lem saved s in
          let (c1, c2) = has_strong_etag_lem current now in
          let (tag, a, b) = both_some saved.etag current.etag s1 c1 tags in inl (tag, a, b, s2, c2)
      | inr s ↦
          let was : is_some saved.last_modified ≡ true = ground (arith, c, s) in
          let now : is_some current.last_modified ≡ true = ground (arith, c, s) in
          let (date, a, b) = both_some saved.last_modified current.last_modified was now dates in
          inr (date, a, b, s)
    ]

-- A set is fit for resuming exactly if there is an `If-Range` value to send, and that is a strong
-- ETag or else the date.
pub resume_capable_iff :
    (v : ResourceValidators) → (resume_capable v ≡ true) ↔ (is_some (if_range_value v) ≡ true)
unfolding resume_capable if_range_value
resume_capable_iff v = elim (Bool-cases (has_strong_etag v)) [
  | inl s ↦ rw s (λ h. (has_strong_etag_lem v s).0, λ h. refl)
  | inr s ↦ rw s (λ h. h, λ h. h)
]
