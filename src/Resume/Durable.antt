-- ===== src/Resume/Durable.antt =====
-- crates/engine/src/resume/durable_ranges.rs: what a checkpoint may claim as written.
use kdown.Prelude.{
  ℕ, ◌-◌, min, max, ◌||◌, ◌≡◌, refl, subst, inl, inr, Option, none, some, List, [], ◌∷◌, ltb, leb,
  ◌==◌, if◌then◌else◌, arith, Bool-cases,
}
use kdown.Interval.{ByteRange}
use kdown.Interval.Coverage.{inside}

pub data DurabilityMode : Type 0 where
  performance : DurabilityMode
  durable : DurabilityMode

pub record DurableRangeTracker : Type 0 where
  pub mode : DurabilityMode
  pub acknowledged_through : ℕ

unfoldable pub new : DurabilityMode → DurableRangeTracker
new mode = record { mode = mode; acknowledged_through = 0 }

unfoldable pub page_cache_ack : DurableRangeTracker → ℕ → DurableRangeTracker
page_cache_ack t through =
    if ltb t.acknowledged_through through then record t { acknowledged_through = through } else t

unfoldable pub fsync_through : DurableRangeTracker → ℕ → DurableRangeTracker
unfolding page_cache_ack
fsync_through t through = page_cache_ack t through

abbrev pub admissible_in : DurabilityMode → ℕ → ℕ
admissible_in performance through = through
admissible_in durable through = through

unfoldable pub admissible_through : DurableRangeTracker → ℕ
admissible_through t = admissible_in t.mode t.acknowledged_through

unfoldable pub clip : DurableRangeTracker → ByteRange → Option ByteRange
clip t (start, end) =
    if t.acknowledged_through == 0 || leb t.acknowledged_through start
    then none
    else if ltb (min end (t.acknowledged_through - 1)) start
    then none
    else some (start, min end (t.acknowledged_through - 1))

-- What the tracker hears of.
pub data Ack : Type 0 where
  page_cache : ℕ → Ack
  fsync : ℕ → Ack

abbrev ack : DurableRangeTracker → Ack → DurableRangeTracker
unfolding page_cache_ack fsync_through
ack t (page_cache through) = page_cache_ack t through
ack t (fsync through) = fsync_through t through

unfoldable pub run : DurableRangeTracker → List Ack → DurableRangeTracker
unfolding ack
run t [] = t
run t (a ∷ rest) = run (ack t a) rest

abbrev through : Ack → ℕ
through (page_cache n) = n
through (fsync n) = n

abbrev pub highest : ℕ → List Ack → ℕ
highest from [] = from
highest from (a ∷ rest) = highest (max from (through a)) rest

ack_lem :
    (t : DurableRangeTracker) (a : Ack)
    → (ack t a).acknowledged_through ≡ max t.acknowledged_through (through a)
unfolding ack page_cache_ack fsync_through
ack_lem t (page_cache n) = ground arith
ack_lem t (fsync n) = ground arith

run-acknowledged :
    (t : DurableRangeTracker) (acks : List Ack)
    → (run t acks).acknowledged_through ≡ highest t.acknowledged_through acks
unfolding run
run-acknowledged t [] = refl
run-acknowledged t (a ∷ rest) = rw (run-acknowledged (ack t a) rest, ack_lem t a) refl

-- The bytes of a clipped range, none if nothing is left.
abbrev pub clipped : Option ByteRange → ℕ → ℕ
clipped none x = 0
clipped (some r) x = inside r.0 r.1 x

clip_lem :
    (t : DurableRangeTracker) (start end x : ℕ)
    → clipped (clip t (start, end)) x
      ≡ (if ltb x t.acknowledged_through then inside start end x else 0)
unfolding clip inside
clip_lem t start end x =
    elim (Bool-cases (t.acknowledged_through == 0 || leb t.acknowledged_through start)) [
      | inl e ↦ rw e (ground arith)
      | inr e ↦ elim (Bool-cases (ltb (min end (t.acknowledged_through - 1)) start)) [
        | inl f ↦ rw (e, f) (ground arith)
        | inr f ↦ rw (e, f) (ground arith)
      ]
    ]

-- After any acknowledgements the bytes of a clipped range are those below the highest of them.
pub clip-run :
    (mode : DurabilityMode) (acks : List Ack) (start end x : ℕ)
    → clipped (clip (run (new mode) acks) (start, end)) x
      ≡ (if ltb x (highest 0 acks) then inside start end x else 0)
unfolding new
clip-run mode acks start end x =
    subst
      (λ n.
        clipped (clip (run (new mode) acks) (start, end)) x
        ≡ (if ltb x n then inside start end x else 0))
      (run-acknowledged (new mode) acks) (clip_lem (run (new mode) acks) start end x)
