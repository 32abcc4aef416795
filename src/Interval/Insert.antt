-- ===== src/Interval/Insert.antt =====
-- `insert` is the structural merge, and with it the union of coverage.
use kdown.Prelude.{
  ℕ, zero, suc, ◌+◌, ◌-◌, min, max, ◌≤◌, ◌<◌, ◌≡◌, refl, sym, ap, ◌∙◌, ◌⊎◌, inl, inr, Option, none,
  Option-cases, some, [], ◌∷◌, lt→leb, le→leb, le→ltb, u64_max, saturating_add, arith, lt-cases,
  length,
}
use kdown.Interval.Coverage.{IsNormal, IsNormal-mono}
use kdown.Interval.Reference.{
  merge_in, merge_in_nil, merge_in_before, merge_in_after, merge_in_touching,
}
use kdown.Interval.Map.{
  last_le_above, first_ge_head, remove_key_head, insert_key_front, first_ge_bound, first_ge_tail,
  remove_key_tail, insert_key_tail, last_le_bound, last_le_cons, last_le_self,
}
use kdown.Interval.{
  IntervalSet, last_le, first_ge, remove_key, absorb_lower, absorb_successors, write_back,
  absorb_all, insert,
}

absorb_none :
    (f s e : ℕ) (m : IntervalSet) → first_ge m s ≡ none → absorb_successors f m s e ≡ (m, s, e)
unfolding absorb_successors
absorb_none zero s e m h = refl
absorb_none (suc f) s e m h = rw (h, absorb_successors)

absorb_stop :
    (f s e k v : ℕ) (m : IntervalSet)
    → first_ge m s ≡ some (k, v)
    → saturating_add e 1 < k
    → absorb_successors f m s e ≡ (m, s, e)
unfolding absorb_successors
absorb_stop zero s e k v m h g = refl
absorb_stop (suc f) s e k v m h g = rw (h, absorb_successors) (rw (lt→leb k _ g))

absorb_step :
    (f s e k v : ℕ) (m : IntervalSet)
    → first_ge m s ≡ some (k, v)
    → k ≤ saturating_add e 1
    → absorb_successors (suc f) m s e ≡ absorb_successors f (remove_key m k) (min s k) (max e v)
unfolding absorb_successors
absorb_step f s e k v m h g = rw (h, absorb_successors) (rw (le→leb k _ g))

-- With all entries at or above `lo`, absorbing successors is the merge.
absorb_successors-merge_in :
    (f lo s e : ℕ) (m : IntervalSet)
    → length m ≤ f
    → IsNormal lo m
    → s ≤ lo
    → s ≤ e
    → e ≤ u64_max
    → write_back (absorb_successors f m s e) ≡ merge_in m s e
unfolding write_back first_ge
absorb_successors-merge_in f lo s e [] l n h g b = rw (absorb_none f s e [] refl, merge_in_nil s e)
absorb_successors-merge_in zero lo s e ((k, v) ∷ m) l n h g b = absurd (omega arith)
absorb_successors-merge_in (suc f) lo s e ((k, v) ∷ m) l n h g b =
    elim (lt-cases (saturating_add e 1) k) [
      | inl far ↦
          rw
            (
              absorb_stop (suc f) s e k v ((k, v) ∷ m) (first_ge_head s k v m (omega arith)) far,
              merge_in_after k v m s e (omega arith) (omega arith),
            )
            (insert_key_front (s + 1) s e ((k, v) ∷ m) (omega arith, n.1, n.2, n.3) (omega arith))
      | inr near ↦
          rw
            (
              absorb_step f s e k v ((k, v) ∷ m) (first_ge_head s k v m (omega arith)) near,
              remove_key_head k v m,
              merge_in_touching k v m s e (omega arith) (omega arith),
            )
            (absorb_successors-merge_in f (v + 2) (min s k) (max e v) m (omega arith) n.3
              (omega arith) (omega arith) (omega arith))
    ]

-- Entries below `s` do not touch it.
abbrev IsClear : ℕ → IntervalSet → Type 0
IsClear s [] = Unit {0}
IsClear s ((k, v) ∷ m) = ((v + 1 < s) ⊎ (s ≤ k)) × IsClear s m

IsClear-above : (lo s : ℕ) (m : IntervalSet) → IsNormal lo m → s ≤ lo → IsClear s m
IsClear-above lo s [] n h = tt
IsClear-above lo s ((k, v) ∷ m) n h =
    (inr (omega arith), IsClear-above (v + 2) s m n.3 (omega arith))

-- An entry below the range stays where it is.
absorb_below :
    (f s e k v : ℕ) (m : IntervalSet)
    → k < s
    → write_back (absorb_successors f ((k, v) ∷ m) s e)
      ≡ (k, v) ∷ write_back (absorb_successors f m s e)
unfolding write_back absorb_successors
absorb_below zero s e k v m h = insert_key_tail s e k v m h
absorb_below (suc f) s e k v m h = elim (Option-cases (first_ge m s)) [
  | inl stop ↦
      rw
        (
          absorb_none (suc f) s e ((k, v) ∷ m) (first_ge_tail s k v m h ∙ stop),
          absorb_none (suc f) s e m stop,
        )
        (insert_key_tail s e k v m h)
  | inr ((j, w), found) ↦ elim (lt-cases (saturating_add e 1) j) [
    | inl far ↦
        rw
          (
            absorb_stop (suc f) s e j w ((k, v) ∷ m) (first_ge_tail s k v m h ∙ found) far,
            absorb_stop (suc f) s e j w m found far,
          )
          (insert_key_tail s e k v m h)
    | inr near ↦
        let above = first_ge_bound s j w m found in
        rw
          (
            absorb_step f s e j w ((k, v) ∷ m) (first_ge_tail s k v m h ∙ found) near,
            absorb_step f s e j w m found near,
            remove_key_tail j k v m (omega arith),
          )
          (absorb_below f (min s j) (max e w) k v (remove_key m j) (omega arith))
  ]
]

absorb_clear :
    (f lo s e : ℕ) (m : IntervalSet)
    → length m ≤ f
    → IsNormal lo m
    → IsClear s m
    → s ≤ e
    → e ≤ u64_max
    → write_back (absorb_successors f m s e) ≡ merge_in m s e
absorb_clear f lo s e [] l n c h b = absorb_successors-merge_in f s s e [] l tt (omega arith) h b
absorb_clear f lo s e ((k, v) ∷ m) l n (inr above, c) h b =
    absorb_successors-merge_in f k s e ((k, v) ∷ m) l (omega arith, n.1, n.2, n.3) above h b
absorb_clear f lo s e ((k, v) ∷ m) l n (inl below, c) h b =
    rw (absorb_below f s e k v m (omega arith), merge_in_before k v m s e below)
      (ap (◌∷◌ (k, v)) (absorb_clear f (v + 2) s e m (omega arith) n.3 c h b))

-- What `absorb_lower` hands to the loop.
record IsReady (lo s e : ℕ) (m : IntervalSet) (w : IntervalSet × ℕ × ℕ) : Type 0 where
  normal : IsNormal lo w.0
  clear : IsClear w.1 w.0
  ordered : w.1 ≤ w.2
  bounded : w.2 ≤ u64_max
  low : lo ≤ w.1
  same : merge_in w.0 w.1 w.2 ≡ merge_in m s e

absorb_lower_far :
    (m : IntervalSet) (s e k v : ℕ) → v + 1 < s → absorb_lower m s e (some (k, v)) ≡ (m, s, e)
unfolding absorb_lower
absorb_lower_far m s e k v h = rw (lt→leb (s - 1) v (omega arith))

absorb_lower_near :
    (m : IntervalSet) (s e k v : ℕ)
    → s ≤ v + 1
    → absorb_lower m s e (some (k, v)) ≡ (remove_key m k, min s k, max e v)
unfolding absorb_lower
absorb_lower_near m s e k v h = rw (le→leb (s - 1) v (omega arith))

module _ (lo s e k v : ℕ) (m : IntervalSet) (n : IsNormal lo ((k, v) ∷ m)) (g : s ≤ e) where
  -- The head stays clear of the range, and the rest is ready.
  absorb_lower_tail :
      (p : Option (ℕ × ℕ))
      → last_le m s ≡ p
      → v + 1 < s
      → IsReady (v + 2) s e m (absorb_lower m s e p)
      → IsReady lo s e ((k, v) ∷ m) (absorb_lower ((k, v) ∷ m) s e (last_le ((k, v) ∷ m) s))
  unfolding absorb_lower
  absorb_lower_tail none q far r =
      rw (last_le_self s k v m q (omega arith), absorb_lower_far ((k, v) ∷ m) s e k v far)
        (record {
          normal = n;
          clear = (inl far, r.clear);
          ordered = g;
          bounded = r.bounded;
          low = omega arith;
          same = refl;
        })
  absorb_lower_tail (some (j, w)) q far r =
      let above = last_le_bound (v + 2) s j w m n.3 q in
      elim (lt-cases (w + 1) s) [
        | inl apart ↦
            let r' : IsReady (v + 2) s e m (m, s, e) = rw (absorb_lower_far m s e j w apart) at r in
            rw (last_le_cons s k v m q, absorb_lower_far ((k, v) ∷ m) s e j w apart)
              (record {
                normal = n;
                clear = (inl far, r'.clear);
                ordered = g;
                bounded = r'.bounded;
                low = omega arith;
                same = refl;
              })
        | inr near ↦
            let r' : IsReady (v + 2) s e m (remove_key m j, min s j, max e w) =
              rw (absorb_lower_near m s e j w near) at r in
            rw
              (
                last_le_cons s k v m q,
                absorb_lower_near ((k, v) ∷ m) s e j w near,
                remove_key_tail j k v m (omega arith),
              )
              (record {
                normal = (n.0, n.1, n.2, r'.normal);
                clear = (inl (omega arith), r'.clear);
                ordered = r'.ordered;
                bounded = r'.bounded;
                low = omega arith;
                same =
                    merge_in_before k v (remove_key m j) (min s j) (max e w) (omega arith)
                    ∙ ap (◌∷◌ (k, v)) r'.same
                    ∙ sym (merge_in_before k v m s e far);
              })
      ]

absorb_lower-IsReady :
    (lo s e : ℕ) (m : IntervalSet)
    → IsNormal lo m
    → lo ≤ s
    → s ≤ e
    → e ≤ u64_max
    → IsReady lo s e m (absorb_lower m s e (last_le m s))
unfolding absorb_lower
absorb_lower-IsReady lo s e [] n l g b =
    rw (last_le_above (s + 1) s [] tt (omega arith))
      (record { normal = tt; clear = tt; ordered = g; bounded = b; low = l; same = refl })
absorb_lower-IsReady lo s e ((k, v) ∷ m) n l g b = elim (lt-cases (v + 1) s) [
  | inl far ↦
      absorb_lower_tail lo s e k v m n g (last_le m s) refl far
        (absorb_lower-IsReady (v + 2) s e m n.3 (omega arith) g b)
  | inr near ↦ elim (lt-cases s k) [
    | inl before ↦
        rw (last_le_above (s + 1) s ((k, v) ∷ m) (omega arith, n.1, n.2, n.3) (omega arith))
          (record {
            normal = n;
            clear = (inr (omega arith), IsClear-above (v + 2) s m n.3 (omega arith));
            ordered = g;
            bounded = b;
            low = l;
            same = refl;
          })
    | inr after ↦
        rw
          (
            last_le_self s k v m (last_le_above (v + 2) s m n.3 (omega arith)) after,
            absorb_lower_near ((k, v) ∷ m) s e k v near,
            remove_key_head k v m,
          )
          (record {
            normal = IsNormal-mono m (omega arith) n.3;
            clear = IsClear-above (v + 2) (min s k) m n.3 (omega arith);
            ordered = omega arith;
            bounded = omega arith;
            low = omega arith;
            same = sym (merge_in_touching k v m s e near (omega arith));
          })
  ]
]

-- On a set in normal form, `insert` of a range that is not empty and ends within `u64` is the
-- structural merge.
pub insert-merge_in :
    (lo s e : ℕ) (m : IntervalSet)
    → IsNormal lo m
    → lo ≤ s
    → s ≤ e
    → e ≤ u64_max
    → insert m s e ≡ merge_in m s e
unfolding insert
insert-merge_in lo s e m n l g b =
    let r = absorb_lower-IsReady lo s e m n l g b in
    let w = absorb_lower m s e (last_le m s) in
    rw (le→ltb e s g, absorb_all)
      (absorb_clear (length w.0) lo w.1 w.2 w.0 (omega arith) r.normal r.clear r.ordered r.bounded
        ∙ r.same)
