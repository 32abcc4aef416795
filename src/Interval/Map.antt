-- ===== src/Interval/Map.antt =====
-- How the map calls act on a set whose first entry is known.
use kdown.Prelude.{
  ℕ, ◌+◌, ◌≤◌, ◌<◌, ◌≡◌, refl, none, some, [], ◌∷◌, lt→leb, le→leb, le→ltb, lt→ltb, ne→==, eq→==,
  arith,
}
use kdown.Interval.Coverage.{IsNormal}
use kdown.Interval.{IntervalSet, last_le, last_lt, first_ge, range_between, remove_key, insert_key}

pub last_le_above : (lo s : ℕ) (m : IntervalSet) → IsNormal lo m → s < lo → last_le m s ≡ none
unfolding last_le
last_le_above lo s [] n h = refl
last_le_above lo s ((k, v) ∷ m) n h =
    rw (last_le_above (v + 2) s m n.3 (omega arith), lt→leb k s (omega arith), last_le)

pub first_ge_head : (s k v : ℕ) (m : IntervalSet) → s ≤ k → first_ge ((k, v) ∷ m) s ≡ some (k, v)
unfolding first_ge
first_ge_head s k v m h = rw (le→leb s k h)

pub remove_key_head : (k v : ℕ) (m : IntervalSet) → remove_key ((k, v) ∷ m) k ≡ m
unfolding remove_key
remove_key_head k v m = rw (eq→== k k refl)

pub insert_key_front :
    (lo k v : ℕ) (m : IntervalSet) → IsNormal lo m → k < lo → insert_key m k v ≡ (k, v) ∷ m
unfolding insert_key
insert_key_front lo k v [] n h = refl
insert_key_front lo k v ((j, w) ∷ m) n h = ground arith

pub first_ge_bound : (s k v : ℕ) (m : IntervalSet) → first_ge m s ≡ some (k, v) → s ≤ k
unfolding first_ge
first_ge_bound s k v [] h = cc
first_ge_bound s k v ((j, w) ∷ m) h = ground (arith, first_ge_bound s k v m)

pub first_ge_tail : (s k v : ℕ) (m : IntervalSet) → k < s → first_ge ((k, v) ∷ m) s ≡ first_ge m s
unfolding first_ge
first_ge_tail s k v m h = rw (lt→leb s k h)

pub remove_key_tail :
    (j k v : ℕ) (m : IntervalSet) → k < j → remove_key ((k, v) ∷ m) j ≡ (k, v) ∷ remove_key m j
unfolding remove_key
remove_key_tail j k v m h = rw (ne→== k j (omega arith))

pub insert_key_tail :
    (j w k v : ℕ) (m : IntervalSet)
    → k < j
    → insert_key ((k, v) ∷ m) j w ≡ (k, v) ∷ insert_key m j w
unfolding insert_key
insert_key_tail j w k v m h = rw (le→ltb j k (omega arith), ne→== k j (omega arith))

pub last_le_bound :
    (lo s k v : ℕ) (m : IntervalSet) → IsNormal lo m → last_le m s ≡ some (k, v) → lo ≤ k
unfolding last_le
last_le_bound lo s k v [] n h = cc
last_le_bound lo s k v ((j, w) ∷ m) n h = ground (arith, last_le_bound (w + 2) s k v m n.3)

pub last_le_cons :
    (s k v : ℕ) (m : IntervalSet) {p : ℕ × ℕ}
    → last_le m s ≡ some p
    → last_le ((k, v) ∷ m) s ≡ some p
unfolding last_le
last_le_cons s k v m h = rw (h, last_le)

pub last_le_self :
    (s k v : ℕ) (m : IntervalSet)
    → last_le m s ≡ none
    → k ≤ s
    → last_le ((k, v) ∷ m) s ≡ some (k, v)
unfolding last_le
last_le_self s k v m h g = rw (h, le→leb k s g, last_le)

pub last_lt_above : (lo s : ℕ) (m : IntervalSet) → IsNormal lo m → s ≤ lo → last_lt m s ≡ none
unfolding last_lt
last_lt_above lo s [] n h = refl
last_lt_above lo s ((k, v) ∷ m) n h =
    rw (last_lt_above (v + 2) s m n.3 (omega arith), le→ltb k s (omega arith), last_lt)

pub last_lt_cons :
    (s k v : ℕ) (m : IntervalSet) {p : ℕ × ℕ}
    → last_lt m s ≡ some p
    → last_lt ((k, v) ∷ m) s ≡ some p
unfolding last_lt
last_lt_cons s k v m h = rw (h, last_lt)

pub last_lt_self :
    (s k v : ℕ) (m : IntervalSet)
    → last_lt m s ≡ none
    → k < s
    → last_lt ((k, v) ∷ m) s ≡ some (k, v)
unfolding last_lt
last_lt_self s k v m h g = rw (h, lt→ltb k s g, last_lt)

pub last_lt_bound :
    (lo s k v : ℕ) (m : IntervalSet) → IsNormal lo m → last_lt m s ≡ some (k, v) → lo ≤ k
unfolding last_lt
last_lt_bound lo s k v [] n h = cc
last_lt_bound lo s k v ((j, w) ∷ m) n h = ground (arith, last_lt_bound (w + 2) s k v m n.3)

pub range_between_below :
    (s e k v : ℕ) (m : IntervalSet) → k < s → range_between ((k, v) ∷ m) s e ≡ range_between m s e
unfolding range_between
range_between_below s e k v m h = rw (lt→leb s k h)

pub range_between_within :
    (s e k v : ℕ) (m : IntervalSet)
    → s ≤ k
    → k ≤ e
    → range_between ((k, v) ∷ m) s e ≡ (k, v) ∷ range_between m s e
unfolding range_between
range_between_within s e k v m h g = rw (le→leb s k h, le→leb k e g)

pub range_between_above :
    (lo s e : ℕ) (m : IntervalSet) → IsNormal lo m → e < lo → range_between m s e ≡ []
unfolding range_between
range_between_above lo s e [] n h = refl
range_between_above lo s e ((k, v) ∷ m) n h = ground (arith, range_between_above (v + 2) s e m n.3)
