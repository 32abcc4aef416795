-- ===== src/Interval/Subtract.antt =====
-- `subtract` is the structural removal, and with it the difference of coverage.
use kdown.Prelude.{
  ℕ, ◌+◌, ◌-◌, ◌≤◌, ◌<◌, ◌≡◌, refl, ap, inl, inr, some, List, [], ◌∷◌, ◌++◌, All, All-append,
  Option-cases, if◌then◌else◌, ltb, lt→leb, le→leb, le→ltb, lt→ltb, arith, lt-cases, Bool-cases,
}
use mathlib.Core.List.{append-nil}
use kdown.Interval.Coverage.{IsNormal}
use kdown.Interval.Reference.{pieces, cut_out, cut_out-IsNormal}
use kdown.Interval.Map.{
  remove_key_head, remove_key_tail, insert_key_front, insert_key_tail, last_lt_above, last_lt_cons,
  last_lt_self, last_lt_bound, range_between_below, range_between_within, range_between_above,
}
use kdown.Interval.{
  IntervalSet, last_lt, range_between, remove_key, insert_key, split_entry, split_entries, spanning,
  subtract,
}

cut_out_above : (lo s e : ℕ) (m : IntervalSet) → IsNormal lo m → e < lo → s ≤ e → cut_out m s e ≡ m
unfolding cut_out
cut_out_above lo s e [] n h g = refl
cut_out_above lo s e ((k, v) ∷ m) n h g = ground (arith, cut_out_above (v + 2) s e m n.3)

-- An entry below all the work stays where it is.
split_entry_below :
    (s e k v : ℕ) (m : IntervalSet) (p : ℕ × ℕ)
    → k < p.0
    → k ≤ e
    → split_entry ((k, v) ∷ m) s e p ≡ (k, v) ∷ split_entry m s e p
unfolding split_entry
split_entry_below s e k v m (j, w) h g =
    let m1 = remove_key m j in
    let m2 = if ltb j s then insert_key m1 j (s - 1) else m1 in
    rw (remove_key_tail j k v m h) (elim (Bool-cases (ltb j s)) [
      | inl a ↦
          rw (a, insert_key_tail j (s - 1) k v m1 h)
            (elim (Bool-cases (ltb e w)) [
              | inl b ↦ rw b (insert_key_tail (e + 1) w k v (insert_key m1 j (s - 1)) (omega arith))
              | inr b ↦ rw b
            ])
      | inr a ↦ rw a (elim (Bool-cases (ltb e w)) [
        | inl b ↦ rw b (insert_key_tail (e + 1) w k v m1 (omega arith))
        | inr b ↦ rw b
      ])
    ])

split_entries_below :
    (s e k v : ℕ) (m : IntervalSet) (es : List (ℕ × ℕ))
    → All (λ p. k < p.0) es
    → k ≤ e
    → split_entries ((k, v) ∷ m) s e es ≡ (k, v) ∷ split_entries m s e es
unfolding split_entries
split_entries_below s e k v m [] h g = refl
split_entries_below s e k v m (p ∷ es) h g =
    rw (split_entry_below s e k v m p h.0 g)
      (split_entries_below s e k v (split_entry m s e p) es h.1 g)

split_entries_nil : (s e : ℕ) (m : IntervalSet) → split_entries m s e [] ≡ m
unfolding split_entries
split_entries_nil s e m = refl

split_entries_cons :
    (s e : ℕ) (m : IntervalSet) (p : ℕ × ℕ) (es : List (ℕ × ℕ))
    → split_entries m s e (p ∷ es) ≡ split_entries (split_entry m s e p) s e es
unfolding split_entries
split_entries_cons s e m p es = refl

split_entries-append :
    (s e : ℕ) (m : IntervalSet) (es fs : List (ℕ × ℕ))
    → split_entries m s e (es ++ fs) ≡ split_entries (split_entries m s e es) s e fs
unfolding split_entries
split_entries-append s e m [] fs = refl
split_entries-append s e m (p ∷ es) fs = split_entries-append s e (split_entry m s e p) es fs

range_between_keys :
    (lo s e k : ℕ) (m : IntervalSet)
    → IsNormal lo m
    → k < lo
    → All (λ p. k < p.0) (range_between m s e)
unfolding range_between
range_between_keys lo s e k [] n h = tt
range_between_keys lo s e k ((j, v) ∷ m) n h =
    ground (arith, range_between_keys (v + 2) s e k m n.3)

-- The first entry, once it is removed, leaves its pieces in front.
split_entry_head :
    (s e k v : ℕ) (m : IntervalSet)
    → IsNormal (v + 2) m
    → k ≤ v
    → s ≤ v
    → k ≤ e
    → split_entry ((k, v) ∷ m) s e (k, v) ≡ pieces k v s e m
unfolding split_entry
split_entry_head s e k v m n a b c =
    let front = λ (j w : ℕ) (h : j < v + 2). insert_key_front (v + 2) j w m n h in
    rw (remove_key_head k v m) (elim (lt-cases k s) [
      | inl low ↦
          rw (lt→ltb k s low, front k (s - 1) (omega arith))
            (elim (lt-cases e v) [
              | inl up ↦ rw (
                lt→ltb e v up,
                insert_key_tail (e + 1) v k (s - 1) m (omega arith),
                front (e + 1) v (omega arith),
              )
              | inr end ↦ rw (le→ltb e v end)
            ])
      | inr low ↦ rw (le→ltb k s low) (elim (lt-cases e v) [
        | inl up ↦ rw (lt→ltb e v up, front (e + 1) v (omega arith))
        | inr end ↦ rw (le→ltb e v end)
      ])
    ])

cut_out_within :
    (s e k v : ℕ) (m : IntervalSet)
    → s ≤ v
    → k ≤ e
    → cut_out ((k, v) ∷ m) s e ≡ pieces k v s e (cut_out m s e)
unfolding cut_out
cut_out_within s e k v m h g = rw (le→ltb v s h, le→ltb e k g)

cut_out_below :
    (s e k v : ℕ) (m : IntervalSet) → v < s → cut_out ((k, v) ∷ m) s e ≡ (k, v) ∷ cut_out m s e
unfolding cut_out
cut_out_below s e k v m h = rw (lt→ltb v s h)

split_range_nil : (s e : ℕ) → split_entries [] s e (range_between [] s e) ≡ cut_out [] s e
unfolding split_entries range_between cut_out
split_range_nil s e = refl

-- The entries from `s` on, when there are no others.
split_range :
    (lo s e : ℕ) (m : IntervalSet)
    → IsNormal lo m
    → s ≤ lo
    → s ≤ e
    → split_entries m s e (range_between m s e) ≡ cut_out m s e
split_range lo s e [] n h g = split_range_nil s e
split_range lo s e ((k, v) ∷ m) n h g = elim (lt-cases e k) [
  | inl past ↦
      let n' : IsNormal k ((k, v) ∷ m) = (omega arith, n.1, n.2, n.3) in
      rw (
        range_between_above k s e ((k, v) ∷ m) n' past,
        split_entries_nil,
        cut_out_above k s e ((k, v) ∷ m) n' past g,
      )
  | inr here ↦
      rw
        (
          range_between_within s e k v m (omega arith) here,
          split_entries_cons s e ((k, v) ∷ m) (k, v) (range_between m s e),
          split_entry_head s e k v m n.3 n.1 (omega arith) here,
          cut_out_within s e k v m (omega arith) here,
          le→ltb k s (omega arith),
        )
        (elim (lt-cases e v) [
          | inl up ↦ rw (
            lt→ltb e v up,
            range_between_above (v + 2) s e m n.3 (omega arith),
            cut_out_above (v + 2) s e m n.3 (omega arith) g,
            split_entries_nil,
          )
          | inr all ↦ rw (le→ltb e v all) (split_range (v + 2) s e m n.3 (omega arith) g)
        ])
]

spanning_far : (k v s : ℕ) → v < s → spanning (some (k, v)) s ≡ []
spanning_far k v s h = rw (lt→leb s v h)

spanning_near : (k v s : ℕ) → s ≤ v → spanning (some (k, v)) s ≡ (k, v) ∷ []
spanning_near k v s h = rw (le→leb s v h)

abbrev work : IntervalSet → ℕ → ℕ → List (ℕ × ℕ)
work m s e = range_between m s e ++ spanning (last_lt m s) s

-- An entry below `s` adds no work.
work_below :
    (lo s e k v : ℕ) (m : IntervalSet)
    → IsNormal (v + 2) m
    → v < s
    → k ≤ v
    → (work ((k, v) ∷ m) s e ≡ work m s e) × All (λ p. k < p.0) (work m s e)
work_below lo s e k v m n h g = elim (Option-cases (last_lt m s)) [
  | inl e1 ↦ (
    rw (
      range_between_below s e k v m (omega arith),
      e1,
      last_lt_self s k v m e1 (omega arith),
      spanning_far k v s h,
    ),
    rw (e1, append-nil) (range_between_keys (v + 2) s e k m n (omega arith)),
  )
  | inr ((j, w), e1) ↦ (
    rw (range_between_below s e k v m (omega arith), e1, last_lt_cons s k v m e1),
    rw e1 (
        All-append (λ p. k < p.0) (range_between m s e) (spanning (some (j, w)) s)
          (range_between_keys (v + 2) s e k m n (omega arith))
          (ground (arith, last_lt_bound (v + 2) s j w m n e1))),
  )
]

split_one :
    (k v s e : ℕ) (r : IntervalSet)
    → IsNormal (v + 2) r
    → k ≤ v
    → s ≤ v
    → k ≤ e
    → split_entries ((k, v) ∷ r) s e ((k, v) ∷ []) ≡ pieces k v s e r
unfolding split_entries
split_one k v s e r n a b c = split_entry_head s e k v r n a b c

work_nil : (s e : ℕ) → split_entries [] s e (work [] s e) ≡ cut_out [] s e
unfolding split_entries range_between last_lt cut_out
work_nil s e = refl

work-cut_out :
    (lo s e : ℕ) (m : IntervalSet)
    → IsNormal lo m
    → s ≤ e
    → split_entries m s e (work m s e) ≡ cut_out m s e
work-cut_out lo s e [] n h = work_nil s e
work-cut_out lo s e ((k, v) ∷ m) n h = elim (lt-cases v s) [
  | inl far ↦
      let (same, above) = work_below lo s e k v m n.3 far n.1 in
      rw
        (
          same,
          split_entries_below s e k v m (work m s e) above (omega arith),
          cut_out_below s e k v m far,
        )
        (ap (◌∷◌ (k, v)) (work-cut_out (v + 2) s e m n.3 h))
  | inr near ↦ elim (lt-cases k s) [
    | inl low ↦
        rw
          (
            range_between_below s e k v m low,
            last_lt_self s k v m (last_lt_above (v + 2) s m n.3 (omega arith)) low,
            spanning_near k v s near,
            split_entries-append s e ((k, v) ∷ m) (range_between m s e) ((k, v) ∷ []),
            split_entries_below s e k v m (range_between m s e)
                (range_between_keys (v + 2) s e k m n.3 (omega arith)) (omega arith),
            split_range (v + 2) s e m n.3 (omega arith) h,
            cut_out_within s e k v m near (omega arith),
          )
          (split_one k v s e (cut_out m s e) (cut_out-IsNormal (v + 2) m s e n.3 h) n.1 near
            (omega arith))
    | inr high ↦
        rw (last_lt_above k s ((k, v) ∷ m) (omega arith, n.1, n.2, n.3) high, append-nil)
          (split_range k s e ((k, v) ∷ m) (omega arith, n.1, n.2, n.3) high h)
  ]
]

-- On a set in normal form, `subtract` of a range that is not empty is the structural removal.
pub subtract-cut_out :
    (lo s e : ℕ) (m : IntervalSet) → IsNormal lo m → s ≤ e → subtract m s e ≡ cut_out m s e
unfolding subtract
subtract-cut_out lo s e m n h = rw (le→ltb e s h) (work-cut_out lo s e m n h)
