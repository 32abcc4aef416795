-- ===== src/Http/Redirect/Chain.antt =====
-- Chains of redirects, crates/engine/src/http/redirect.rs.
use kdown.Prelude.{
  ◌+◌, ◌-◌, ◌%◌, ◌^◌, ◌≤◌, ◌<◌, true, false, ◌&&◌, ◌≡◌, refl, inl, inr, Option, none, some, List,
  [], ◌∷◌, String, str_eq_iff, length, arith, All, Bool-cases, Result-cases, Option-cases, ltb, ◌≢◌,
  subst,
}
use kdown.Http.Redirect.{
  Urls, RedirectPolicy, RedirectTracker, RedirectDecision, RedirectAction, follow, final, reject,
  Response, new, decide, decide_location, decide_resolved, decide_target, visited_before,
  is_redirect, is_scheme,
}

-- The target that a decision follows.
abbrev pub followed : RedirectAction → Option String
followed (follow target) = some target
followed final = none
followed (reject why) = none

module _ (urls : Urls) where
  -- The decisions on a chain of responses.
  unfoldable pub run : RedirectTracker → List Response → List RedirectDecision
  run t [] = []
  run t (r ∷ rest) = let (next, d) = decide urls t r in d ∷ run next rest

-- The targets that are followed, in order.
abbrev pub add_followed : Option String → List String → List String
add_followed none rest = rest
add_followed (some target) rest = target ∷ rest

abbrev pub targets : List RedirectDecision → List String
targets [] = []
targets (d ∷ rest) = add_followed (followed d.action) (targets rest)

-- No URL occurs twice.
abbrev pub IsDistinct : List String → Type 0
IsDistinct [] = Unit {0}
IsDistinct (u ∷ rest) = All (λ v. u ≢ v) rest × IsDistinct rest

-- What one call does: nothing followed, or a new target within the limit.
abbrev Moves : RedirectTracker → RedirectTracker → Option String → Type 0
Moves t next none =
    (next.policy ≡ t.policy)
    × (next.hops ≤ t.hops + 1)
    × (t.hops ≤ next.hops)
    × ((u : String) → visited_before t.visited u ≡ true → visited_before next.visited u ≡ true)
Moves t next (some target) =
    (next.policy ≡ t.policy)
    × (next.hops ≡ t.hops + 1)
    × (next.hops ≤ t.policy.max_redirects)
    × (visited_before t.visited target ≡ false)
    × (next.visited ≡ target ∷ t.visited)

decide_target-Moves :
    (urls : Urls) (t : RedirectTracker) (r : Response) (target : String)
    → t.hops + 1 < 2 ^ 32
    → Moves t (decide_target urls t r target).0 (followed (decide_target urls t r target).1.action)
unfolding decide_target
decide_target-Moves urls t r target h =
    let hops : (t.hops + 1) % 2 ^ 32 ≡ t.hops + 1 = omega (arith, h) in
    rw hops (elim (Bool-cases (ltb t.policy.max_redirects (t.hops + 1))) [
      | inl e ↦ rw e (refl, omega arith, omega arith, λ u m. m)
      | inr e ↦ elim (Bool-cases (visited_before t.visited target)) [
        | inl v ↦ rw (e, v) (refl, omega arith, omega arith, λ u m. m)
        | inr v ↦
            elim (Bool-cases (
              t.policy.deny_downgrade
              && is_scheme (urls.scheme_of r.current_url) "https"
              && is_scheme (urls.scheme_of target) "http")) [
                | inl d ↦ rw (e, v, d) (refl, omega arith, omega arith, λ u m. ground (arith, m))
                | inr d ↦ rw (e, v, d) (refl, refl, ground (arith, e), v, refl)
              ]
      ]
    ])

decide-Moves :
    (urls : Urls) (t : RedirectTracker) (r : Response)
    → t.hops + 1 < 2 ^ 32
    → Moves t (decide urls t r).0 (followed (decide urls t r).1.action)
unfolding decide decide_location decide_resolved
decide-Moves urls t r h = elim (Bool-cases (is_redirect r.status)) [
  | inr e ↦ rw e (refl, omega arith, omega arith, λ u m. m)
  | inl e ↦ elim (Option-cases r.location) [
    | inl l ↦ rw (e, l) (refl, omega arith, omega arith, λ u m. m)
    | inr (loc, l) ↦ elim (Result-cases (urls.resolve_redirect r.current_url loc)) [
      | inl (target, x) ↦ rw (e, l, x) (decide_target-Moves urls t r target h)
      | inr (f, x) ↦ rw (e, l, x) (refl, omega arith, omega arith, λ u m. m)
    ]
  ]
]

-- What was new to a later tracker was new to an earlier one.
abbrev AreNew : List String → List String → Type 0
AreNew visited us = All (λ u. visited_before visited u ≡ false) us

AreNew-mono :
    (a b us : List String)
    → ((u : String) → visited_before a u ≡ true → visited_before b u ≡ true)
    → AreNew b us
    → AreNew a us
AreNew-mono a b [] h n = tt
AreNew-mono a b (u ∷ us) h n = (
  elim (Bool-cases (visited_before a u)) [ inl e ↦ let yes = h u e in absurd (cc) | inr e ↦ e ],
  AreNew-mono a b us h n.1,
)

AreNew-cons :
    (target : String) (visited us : List String)
    → AreNew (target ∷ visited) us
    → AreNew visited us × All (λ v. target ≢ v) us
AreNew-cons target visited [] n = (tt, tt)
AreNew-cons target visited (u ∷ us) n =
    let (older, others) = AreNew-cons target visited us n.1 in
    (
      (ground (arith, n.0), older),
      (λ e. let same = (str_eq_iff target u).1 e in ground (arith, n.0, same), others),
    )

hops_grow :
    (t next : RedirectTracker) (step : Option String) → Moves t next step → next.hops ≤ t.hops + 1
hops_grow t next none m = m.1
hops_grow t next (some target) m = omega (arith, m.1)

-- The tail of a chain, and the step before it.
step-chain :
    (t next : RedirectTracker) (step : Option String) (us : List String)
    → Moves t next step
    → IsDistinct us × AreNew next.visited us × (length us ≤ next.policy.max_redirects - next.hops)
    → IsDistinct (add_followed step us)
      × AreNew t.visited (add_followed step us)
      × (length (add_followed step us) ≤ t.policy.max_redirects - t.hops)
step-chain t next none us m (d, n, l) =
    let limit = subst (λ p. length us ≤ p.max_redirects - next.hops) m.0 l in
    (d, AreNew-mono t.visited next.visited us m.3 n, omega (arith, limit, m.2))
step-chain t next (some target) us m (d, n, l) =
    let limit = subst (λ p. length us ≤ p.max_redirects - next.hops) m.0 l in
    let (older, others) = AreNew-cons target t.visited us (subst (λ v. AreNew v us) m.4 n) in
    ((others, d), (m.3, older), omega (arith, limit, m.1, m.2))

run-chain :
    (urls : Urls) (rs : List Response) (t : RedirectTracker)
    → t.hops + length rs < 2 ^ 32
    → IsDistinct (targets (run urls t rs))
      × AreNew t.visited (targets (run urls t rs))
      × (length (targets (run urls t rs)) ≤ t.policy.max_redirects - t.hops)
unfolding run
run-chain urls [] t h = (tt, tt, omega arith)
run-chain urls (r ∷ rest) t h =
    let m = decide-Moves urls t r (omega (arith, h)) in
    step-chain t (decide urls t r).0 (followed (decide urls t r).1.action)
      (targets (run urls (decide urls t r).0 rest)) m
      (run-chain urls rest (decide urls t r).0
        (omega (arith, h, hops_grow t (decide urls t r).0 (followed (decide urls t r).1.action) m)))

-- On any chain of fewer than 2^32 responses, the targets that are followed are all different, and
-- not more than `max_redirects`.
pub run-IsDistinct :
    (urls : Urls) (policy : RedirectPolicy) (rs : List Response)
    → length rs < 2 ^ 32
    → IsDistinct (targets (run urls (new policy) rs))
      × (length (targets (run urls (new policy) rs)) ≤ policy.max_redirects)
run-IsDistinct urls policy rs h =
    let (d, n, l) = run-chain urls rs (new policy) (omega (arith, h)) in (d, omega (arith, l))
