-- ===== src/Io/Ledger/Pools.antt =====
-- What a probe and a release do to one pool of crates/engine/src/io/transfer_ledger.rs.
use kdown.Prelude.{
  ℕ, ◌+◌, ◌-◌, max, ◌≤◌, ◌<◌, ◌≡◌, ◌≢◌, ◌⊎◌, inl, inr, refl, List, [], ◌∷◌, ltb, if_elim, le→ltb,
  ltb→le, ◌==◌, u64_max, arith, Bool-cases,
}
use kdown.Io.Ledger.{
  Probe, acquired, oversize, full, Pool, acquire_locked, probe_and_acquire, release,
}

abbrev pub grown : Pool → ℕ → Pool
grown p bytes = record p {
  outstanding = p.outstanding + bytes;
  high_water = max p.high_water (p.outstanding + bytes);
}

abbrev pub IsPool : Pool → Type 0
IsPool p = (p.outstanding ≤ p.cap) × (p.cap ≤ u64_max)

-- Nobody waits before the caller, and the bytes fit.
abbrev pub Admits : Pool → ℕ → Type 0
Admits p bytes = (p.waiters ≡ []) × (p.outstanding + bytes ≤ p.cap)

abbrev pub Refuses : Pool → ℕ → Type 0
Refuses p bytes = (p.waiters ≢ []) ⊎ (p.cap < p.outstanding + bytes)

-- A probe's answer: the pool admits and is charged, or it refuses and is as before.
abbrev pub IsAnswer : Pool → ℕ → Pool × Probe → Type 0
IsAnswer p bytes r =
    ((r ≡ (grown p bytes, acquired)) × Admits p bytes)
    ⊎ (((r ≡ (p, oversize)) ⊎ (r ≡ (p, full))) × Refuses p bytes)

acquire_locked_lem :
    (p : Pool) (bytes : ℕ)
    → p.cap ≤ u64_max
    → ((acquire_locked p bytes ≡ (grown p bytes, acquired)) × (p.outstanding + bytes ≤ p.cap))
      ⊎ ((acquire_locked p bytes ≡ (p, full)) × (p.cap < p.outstanding + bytes))
unfolding acquire_locked
acquire_locked_lem p bytes f = elim (Bool-cases (ltb u64_max (p.outstanding + bytes))) [
  | inl a ↦ rw a (inr (refl, ground (arith, a, f)))
  | inr a ↦ elim (Bool-cases (ltb p.cap (p.outstanding + bytes))) [
    | inl b ↦ rw (a, b) (inr (refl, ground (arith, b)))
    | inr b ↦ rw (a, b) (inl (refl, ltb→le p.cap (p.outstanding + bytes) b))
  ]
]

nonempty : (t : ℕ) (ts : List ℕ) → ◌≢◌ {A = List ℕ} (t ∷ ts) []
nonempty t ts w = absurd (cc)

waiting-IsAnswer :
    (p : Pool) (bytes : ℕ)
    → p.cap ≤ u64_max
    → (ws : List ℕ) → p.waiters ≡ ws
    → IsAnswer p bytes (elim ws [ [] ↦ acquire_locked p bytes | t ∷ ts ↦ (p, full) ])
waiting-IsAnswer p bytes f [] w = elim (acquire_locked_lem p bytes f) [
  | inl h ↦ inl (h.0, (w, h.1))
  | inr h ↦ inr (inr h.0, inr h.1)
]
waiting-IsAnswer p bytes f (t ∷ ts) w = inr (inr refl, inl (rw w (nonempty t ts)))

pub probe-IsAnswer :
    (p : Pool) (bytes : ℕ) → p.cap ≤ u64_max → IsAnswer p bytes (probe_and_acquire p bytes)
unfolding probe_and_acquire
probe-IsAnswer p bytes f =
    if_elim (IsAnswer p bytes) (ltb p.cap bytes) (λ a. inr (inl refl, inr (ground (arith, a))))
      (λ a. waiting-IsAnswer p bytes f p.waiters refl)

-- Releasing what a pool holds takes it from the outstanding bytes.
pub release_lem :
    (p : Pool) (bytes : ℕ)
    → bytes ≤ p.outstanding
    → p.outstanding ≤ u64_max
    → (release p bytes).outstanding ≡ p.outstanding - bytes
unfolding release
release_lem p bytes h fits = elim (Bool-cases (bytes == 0)) [
  | inl z ↦ rw z (ground (arith, z))
  | inr z ↦ rw z (omega (arith, h, fits))
]

acquire_locked-acquires :
    (p : Pool) (bytes : ℕ)
    → p.outstanding + bytes ≤ p.cap
    → p.cap ≤ u64_max
    → acquire_locked p bytes ≡ (grown p bytes, acquired)
unfolding acquire_locked
acquire_locked-acquires p bytes h f =
    rw
      (
        le→ltb u64_max (p.outstanding + bytes) (omega (arith, h, f)),
        le→ltb p.cap (p.outstanding + bytes) h,
      )
      refl

pub probe-acquires :
    (p : Pool) (bytes : ℕ)
    → p.waiters ≡ []
    → p.outstanding + bytes ≤ p.cap
    → p.cap ≤ u64_max
    → probe_and_acquire p bytes ≡ (grown p bytes, acquired)
unfolding probe_and_acquire
probe-acquires p bytes e h f = rw (le→ltb p.cap bytes (omega (arith, h))) (alone p.waiters e)
  where
    alone :
        (ws : List ℕ)
        → ws ≡ []
        → elim ws [ [] ↦ acquire_locked p bytes | t ∷ ts ↦ (p, full) ] ≡ (grown p bytes, acquired)
    alone [] w = acquire_locked-acquires p bytes h f
    alone (t ∷ ts) w = absurd (cc)

pub probe-full :
    (p : Pool) (bytes : ℕ)
    → bytes ≤ p.cap
    → p.cap < p.outstanding + bytes
    → p.cap ≤ u64_max
    → probe_and_acquire p bytes ≡ (p, full)
unfolding probe_and_acquire
probe-full p bytes h g f = rw (le→ltb p.cap bytes h) (waiting p.waiters)
  where
    waiting :
        (ws : List ℕ) → elim ws [ [] ↦ acquire_locked p bytes | t ∷ ts ↦ (p, full) ] ≡ (p, full)
    waiting [] = elim (acquire_locked_lem p bytes f) [
      | inl x ↦ absurd (omega (arith, x.1, g))
      | inr x ↦ x.0
    ]
    waiting (t ∷ ts) = refl
