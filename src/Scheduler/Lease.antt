-- ===== src/Scheduler/Lease.antt =====
-- crates/engine/src/scheduler/lease.rs, and the `HashMap<LeaseId, SegmentLease>` of the core: a list
-- of leases by ascending id, which stands for the map whatever the order of its iteration.
use kdown.Prelude.{
  ℕ, ◌+◌, ◌-◌, ◌≤◌, ◌<◌, ◌≡◌, refl, Option, none, some, List, [], ◌∷◌, ltb, ◌==◌, if◌then◌else◌,
  arith, All, sum_by,
}

pub record SegmentLease : Type 0 where
  pub id : ℕ
  pub generation : ℕ
  pub start : ℕ
  pub stop : ℕ  -- `end`, inclusive
  pub next_offset : ℕ

unfoldable pub remaining : SegmentLease → ℕ
remaining l = if ltb l.stop l.next_offset then 0 else l.stop - l.next_offset + 1

abbrev pub Leases : Type 0
Leases = List SegmentLease

-- `active.get(&id)`.
unfoldable pub get : Leases → ℕ → Option SegmentLease
get [] id = none
get (l ∷ ls) id = if l.id == id then some l else get ls id

-- `active.remove(&id)`, the map that is left.
unfoldable pub remove : Leases → ℕ → Leases
remove [] id = []
remove (l ∷ ls) id = if l.id == id then ls else l ∷ remove ls id

-- `active.insert(lease.id, lease)`.
unfoldable pub put : Leases → SegmentLease → Leases
put [] a = a ∷ []
put (l ∷ ls) a = if ltb a.id l.id then a ∷ l ∷ ls else if l.id == a.id then a ∷ ls else l ∷ put ls a

-- Ids ascend from `lo` and stay below `top`.
abbrev pub HasIds : ℕ → ℕ → Leases → Type 0
HasIds lo top [] = Unit {0}
HasIds lo top (l ∷ ls) = (lo ≤ l.id) × (l.id < top) × HasIds (l.id + 1) top ls

pub HasIds-mono :
    {a b top bound : ℕ} (ls : Leases) → a ≤ b → top ≤ bound → HasIds b top ls → HasIds a bound ls
HasIds-mono [] h g v = tt
HasIds-mono {bound = bound} (l ∷ ls) h g v =
    (omega arith, omega arith, HasIds-mono {a = l.id + 1} {b = l.id + 1} ls (omega arith) g v.2)

pub remove-HasIds : (lo top id : ℕ) (ls : Leases) → HasIds lo top ls → HasIds lo top (remove ls id)
unfolding remove
remove-HasIds lo top id [] v = tt
remove-HasIds lo top id (l ∷ ls) v = ground (
  arith,
  remove-HasIds (l.id + 1) top id ls v.2,
  HasIds-mono {a = lo} {b = l.id + 1} {top = top} {bound = top} ls,
)

pub put-HasIds :
    (lo top : ℕ) (a : SegmentLease) (ls : Leases)
    → HasIds lo top ls
    → lo ≤ a.id
    → a.id < top
    → HasIds lo top (put ls a)
unfolding put
put-HasIds lo top a [] v h g = (h, g, tt)
put-HasIds lo top a (l ∷ ls) v h g = ground (
  arith,
  put-HasIds (l.id + 1) top a ls v.2,
  HasIds-mono {a = a.id + 1} {b = l.id + 1} {top = top} {bound = top} ls,
)

pub get_below : (lo top id : ℕ) (ls : Leases) → HasIds lo top ls → id < lo → get ls id ≡ none
unfolding get
get_below lo top id [] v h = refl
get_below lo top id (l ∷ ls) v h = ground (arith, get_below (l.id + 1) top id ls v.2)

pub get_fresh : (lo top id : ℕ) (ls : Leases) → HasIds lo top ls → top ≤ id → get ls id ≡ none
unfolding get
get_fresh lo top id [] v h = refl
get_fresh lo top id (l ∷ ls) v h = ground (arith, get_fresh (l.id + 1) top id ls v.2)

pub get-id : (ls : Leases) (id : ℕ) {l : SegmentLease} → get ls id ≡ some l → l.id ≡ id
unfolding get
get-id [] id h = cc
get-id (a ∷ ls) id {l} h = ground (arith, get-id ls id {l = l})

pub get-remove : (lo top id : ℕ) (ls : Leases) → HasIds lo top ls → get (remove ls id) id ≡ none
unfolding get remove
get-remove lo top id [] v = refl
get-remove lo top id (l ∷ ls) v =
    ground (arith, get-remove (l.id + 1) top id ls v.2, get_below (l.id + 1) top id ls v.2)

put_front :
    (lo top : ℕ) (a : SegmentLease) (ls : Leases) → HasIds lo top ls → a.id < lo → put ls a ≡ a ∷ ls
unfolding put
put_front lo top a [] v h = refl
put_front lo top a (l ∷ ls) v h = ground arith

-- Taking a lease out and putting it back changes nothing.
pub put-remove :
    (lo top id : ℕ) (ls : Leases) {l : SegmentLease}
    → HasIds lo top ls
    → get ls id ≡ some l
    → put (remove ls id) l ≡ ls
unfolding put remove get
put-remove lo top id [] v h = cc
put-remove lo top id (a ∷ ls) {l} v h = ground (
  arith,
  put_front (a.id + 1) top a ls v.2,
  put-remove (a.id + 1) top id ls {l = l} v.2,
  get_below (a.id + 1) top id ls v.2,
  get-id ls id {l = l},
)

module _ (f : SegmentLease → ℕ) where
  pub sum_by-remove :
      (ls : Leases) (id : ℕ) {l : SegmentLease}
      → get ls id ≡ some l
      → sum_by f (remove ls id) + f l ≡ sum_by f ls
  unfolding get remove
  sum_by-remove [] id h = cc
  sum_by-remove (a ∷ ls) id {l} h = ground (arith, sum_by-remove ls id {l = l})

  pub sum_by-put :
      (ls : Leases) (a : SegmentLease)
      → get ls a.id ≡ none
      → sum_by f (put ls a) ≡ sum_by f ls + f a
  unfolding get put
  sum_by-put [] a h = omega arith
  sum_by-put (l ∷ ls) a h = ground (arith, sum_by-put ls a)

pub get-put :
    (lo top id : ℕ) (a : SegmentLease) (ls : Leases)
    → HasIds lo top ls
    → get (put ls a) id ≡ (if a.id == id then some a else get ls id)
unfolding get put
get-put lo top id a [] v = refl
get-put lo top id a (l ∷ ls) v =
    ground (arith, get-put (l.id + 1) top id a ls v.2, get_below (l.id + 1) top id ls v.2)

-- Writing over a lease.
pub sum_by-put_over :
    (f : SegmentLease → ℕ) (lo top : ℕ) (ls : Leases) (a l : SegmentLease)
    → HasIds lo top ls
    → get ls a.id ≡ some l
    → sum_by f (put ls a) + f l ≡ sum_by f ls + f a
unfolding get put
sum_by-put_over f lo top [] a l v h = cc
sum_by-put_over f lo top (b ∷ ls) a l v h =
    ground
      (arith, sum_by-put_over f (b.id + 1) top ls a l v.2, get_below (b.id + 1) top a.id ls v.2)

module _ (P : SegmentLease → Type 0) where
  pub All-remove : (ls : Leases) (id : ℕ) → All P ls → All P (remove ls id)
  unfolding remove
  All-remove [] id v = tt
  All-remove (l ∷ ls) id v = ground (arith, All-remove ls id v.1)

  pub All-put : (ls : Leases) (a : SegmentLease) → P a → All P ls → All P (put ls a)
  unfolding put
  All-put [] a p v = (p, tt)
  All-put (l ∷ ls) a p v = ground (arith, All-put ls a p v.1)

  pub All-get : (ls : Leases) (id : ℕ) {l : SegmentLease} → All P ls → get ls id ≡ some l → P l
  unfolding get
  All-get [] id v h = absurd (ground arith)
  All-get (a ∷ ls) id {l} v h = ground (arith, All-get ls id {l = l} v.1)
