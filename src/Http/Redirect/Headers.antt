-- ===== src/Http/Redirect/Headers.antt =====
-- The headers that reach another origin, crates/engine/src/http/redirect.rs.
use Prim.Native.Char.{code}
use kdown.Prelude.{
  ℕ, Bool, true, false, ◌||◌, ◌≡◌, ◌↔◌, ◌⊎◌, sym, ap, refl, inl, inr, Option, none, some, List, [],
  ◌∷◌, String, str_eq, str_eq_iff, arith, Bool-cases,
}
use kdown.Http.Redirect.{
  Header, Urls, ascii_lower, eq_ignore_ascii_case, is_origin_credential_header, origins_differ,
  keep_scoped, scoped_request_headers,
}

-- The code points of a text, with those of the ASCII letters in lower case.
abbrev pub lower_codes : String → List ℕ
lower_codes String.[] = []
lower_codes (String.◌∷◌ c s) = ascii_lower (code c) ∷ lower_codes s

-- A name of a header that carries credentials of its origin, in any case.
abbrev pub IsCredential : String → Type 0
IsCredential name =
    (lower_codes name ≡ lower_codes "authorization")
    ⊎ ((lower_codes name ≡ lower_codes "cookie")
        ⊎ (lower_codes name ≡ lower_codes "proxy-authorization"))

-- Both URLs have an origin, and it is the same.
abbrev pub AreSameOrigin : Urls → String → String → Type 0
AreSameOrigin urls a b =
    (origin : String) × (urls.origin_of a ≡ some origin) × (urls.origin_of b ≡ some origin)

abbrev pub IsIn : Header → List Header → Type 0
IsIn h [] = ⊥
IsIn h (x ∷ rest) = (x ≡ h) ⊎ IsIn h rest

eq_ignore_ascii_case_iff :
    (s t : String) → (eq_ignore_ascii_case s t ≡ true) ↔ (lower_codes s ≡ lower_codes t)
unfolding eq_ignore_ascii_case
eq_ignore_ascii_case_iff String.[] String.[] = (λ h. refl, λ h. refl)
eq_ignore_ascii_case_iff String.[] (String.◌∷◌ d t) = (λ h. absurd (cc), λ h. absurd (cc))
eq_ignore_ascii_case_iff (String.◌∷◌ c s) String.[] = (λ h. absurd (cc), λ h. absurd (cc))
eq_ignore_ascii_case_iff (String.◌∷◌ c s) (String.◌∷◌ d t) =
    ground (arith, eq_ignore_ascii_case_iff s t)

is_origin_credential_header_iff :
    (name : String) → (is_origin_credential_header name ≡ true) ↔ IsCredential name
unfolding is_origin_credential_header
is_origin_credential_header_iff name =
    let a = eq_ignore_ascii_case_iff name "authorization" in
    let b = eq_ignore_ascii_case_iff name "cookie" in
    let c = eq_ignore_ascii_case_iff name "proxy-authorization" in
    let (p, q, r) : Bool × Bool × Bool = (
      eq_ignore_ascii_case name "authorization",
      eq_ignore_ascii_case name "cookie",
      eq_ignore_ascii_case name "proxy-authorization",
    ) in
    (
      λ h. elim (three p q r h) [
        | inl x ↦ inl (a.0 x)
        | inr (inl x) ↦ inr (inl (b.0 x))
        | inr (inr x) ↦ inr (inr (c.0 x))
      ],
      λ h. elim h [
        | inl x ↦ any p q r (inl (a.1 x))
        | inr (inl x) ↦ any p q r (inr (inl (b.1 x)))
        | inr (inr x) ↦ any p q r (inr (inr (c.1 x)))
      ],
    )
  where
    three : (p q r : Bool) → (p || q || r) ≡ true → (p ≡ true) ⊎ ((q ≡ true) ⊎ (r ≡ true))
    three p q r h = ground arith

    any : (p q r : Bool) → (p ≡ true) ⊎ ((q ≡ true) ⊎ (r ≡ true)) → (p || q || r) ≡ true
    any p q r h = ground arith

origins_differ_iff :
    (a b : Option String)
    → (origins_differ a b ≡ false) ↔ ((origin : String) × (a ≡ some origin) × (b ≡ some origin))
origins_differ_iff none b = (λ h. absurd (cc), λ (o, e, f). absurd (cc))
origins_differ_iff (some a) none = (λ h. absurd (cc), λ (o, e, f). absurd (cc))
origins_differ_iff (some a) (some b) = (
  λ h. let same : str_eq a b ≡ true = ground arith in (b, rw ((str_eq_iff a b).0 same) refl, refl),
  λ (o, e, f).
      let same : a ≡ b = cc in
      let equal : str_eq a b ≡ true = (str_eq_iff a b).1 same in rw equal refl,
)

-- The filter keeps a header exactly if it carries no credentials and the request is not sensitive.
keep_scoped_iff :
    (sensitive : Bool) (h : Header) (headers : List Header)
    → IsIn h (keep_scoped sensitive headers)
      ↔ (IsIn h headers × (sensitive ≡ false) × (is_origin_credential_header h.0 ≡ false))
unfolding keep_scoped
keep_scoped_iff sensitive h [] = (λ x. absurd x, λ x. x.0)
keep_scoped_iff true h (x ∷ rest) =
    let (to, from) = keep_scoped_iff true h rest in
    elim (Bool-cases (is_origin_credential_header x.0)) [
      | inl e ↦ rw e (λ i. absurd (let r = to i in cc), λ i. absurd (cc))
      | inr e ↦ rw e (λ i. absurd (let r = to i in cc), λ i. absurd (cc))
    ]
keep_scoped_iff false h (x ∷ rest) =
    let (to, from) = keep_scoped_iff false h rest in
    elim (Bool-cases (is_origin_credential_header x.0)) [
      | inl e ↦ rw e (
        λ i. (inr (to i).0, refl, (to i).2),
        λ (i, z, w). elim i [ inl s ↦ absurd (cc) | inr k ↦ from (k, z, w) ],
      )
      | inr e ↦ rw e (
        λ i. elim i [
          | inl s ↦
              (inl s, refl, let same : h.0 ≡ x.0 = sym (ap (λ (y : Header). y.0) s) in rw same e)
          | inr k ↦ (inr (to k).0, refl, (to k).2)
        ],
        λ (i, z, w). elim i [ inl s ↦ inl s | inr k ↦ inr (from (k, z, w)) ],
      )
    ]

-- A header is sent exactly if it is one of the request's, and either both URLs have the same
-- origin or the caller opted in to forward, or else the request is not sensitive and the name is,
-- in any case of its letters, none of `authorization`, `cookie` and `proxy-authorization`.
pub scoped_request_headers_lem :
    (urls : Urls) (original_url target_url : String) (headers : List Header)
    (sensitive forward : Bool) (h : Header)
    → IsIn h (scoped_request_headers urls original_url target_url headers sensitive forward) ↔ (
        IsIn h headers
        × ((AreSameOrigin urls original_url target_url ⊎ (forward ≡ true))
            ⊎ ((sensitive ≡ false) × (¬ IsCredential h.0))))
unfolding scoped_request_headers
scoped_request_headers_lem urls a b headers sensitive forward h =
    let near = origins_differ_iff (urls.origin_of a) (urls.origin_of b) in
    let far = is_origin_credential_header_iff h.0 in
    let kept = keep_scoped_iff sensitive h headers in
    elim (Bool-cases (origins_differ (urls.origin_of a) (urls.origin_of b))) [
      | inr d ↦ rw d (λ i. (i, inl (inl (near.0 d))), λ i. i.0)
      | inl d ↦ elim (Bool-cases forward) [
        | inl f ↦ rw (d, f) (λ i. (i, inl (inr refl)), λ i. i.0)
        | inr f ↦
            rw (d, f)
              (
                λ i. let (j, s, c) = kept.0 i in (j, inr (s, λ w. absurd (let y = far.1 w in cc))),
                λ (i, w). elim w [
                  | inl (inl o) ↦ absurd (let y = near.1 o in cc)
                  | inl (inr g) ↦ absurd (cc)
                  | inr (s, n) ↦ elim (Bool-cases (is_origin_credential_header h.0)) [
                    | inl y ↦ absurd (n (far.0 y))
                    | inr y ↦ kept.1 (i, s, y)
                  ]
                ],
              )
      ]
    ]
