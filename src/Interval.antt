-- ===== src/Interval.antt =====
-- crates/engine/src/scheduler/interval_set.rs: sets of bytes as sorted inclusive ranges.
-- The `BTreeMap<u64, u64>` (start to inclusive end) is a list of entries by ascending key, with the
-- map calls that the file makes; a method takes the set first and returns the new one.
pub mod Coverage
pub mod Reference
pub mod Map
pub mod Insert
pub mod Subtract
pub mod Laws
pub mod Canonical
pub mod Queries
pub mod Size
pub mod Examples
use kdown.Prelude.{
  ℕ, zero, suc, ◌+◌, ◌-◌, min, max, ◌≤◌, Bool, true, false, ◌&&◌, ◌||◌, Option, none, some, List,
  [], ◌∷◌, ◌++◌, ltb, leb, ◌==◌, if◌then◌else◌, length, u64_max, saturating_add, saturating_sub,
}

-- `ByteRange`, an inclusive range.
abbrev pub ByteRange : Type 0
ByteRange = ℕ × ℕ

abbrev pub IntervalSet : Type 0
IntervalSet = List ByteRange

-- `map.range(..=s).next_back()`.
unfoldable pub last_le : IntervalSet → ℕ → Option ByteRange
last_le [] s = none
last_le ((k, v) ∷ m) s = elim (last_le m s) [
  | some e ↦ some e
  | none ↦ if leb k s then some (k, v) else none
]

-- `map.range(..s).next_back()`.
unfoldable pub last_lt : IntervalSet → ℕ → Option ByteRange
last_lt [] s = none
last_lt ((k, v) ∷ m) s = elim (last_lt m s) [
  | some e ↦ some e
  | none ↦ if ltb k s then some (k, v) else none
]

-- `map.range(s..).next()`.
unfoldable pub first_ge : IntervalSet → ℕ → Option ByteRange
first_ge [] s = none
first_ge ((k, v) ∷ m) s = if leb s k then some (k, v) else first_ge m s

-- `map.range(s..=e)`.
unfoldable pub range_between : IntervalSet → ℕ → ℕ → List ByteRange
range_between [] s e = []
range_between ((k, v) ∷ m) s e =
    if leb s k && leb k e then (k, v) ∷ range_between m s e else range_between m s e

-- `map.remove(&k)`.
unfoldable pub remove_key : IntervalSet → ℕ → IntervalSet
remove_key [] k = []
remove_key ((j, v) ∷ m) k = if j == k then m else (j, v) ∷ remove_key m k

-- `map.insert(k, v)`.
unfoldable pub insert_key : IntervalSet → ℕ → ℕ → IntervalSet
insert_key [] k v = (k, v) ∷ []
insert_key ((j, w) ∷ m) k v =
    if ltb k j
    then (k, v) ∷ (j, w) ∷ m
    else if j == k
    then (k, v) ∷ m
    else (j, w) ∷ insert_key m k v

-- The predecessor is absorbed if it overlaps or touches.
unfoldable pub absorb_lower : IntervalSet → ℕ → ℕ → Option ByteRange → IntervalSet × ℕ × ℕ
unfolding remove_key
absorb_lower m lo hi none = (m, lo, hi)
absorb_lower m lo hi (some (k, v)) =
    if leb (saturating_sub lo 1) v then (remove_key m k, min lo k, max hi v) else (m, lo, hi)

-- The `loop` that absorbs successors. A round removes an entry, so `length m` rounds are enough.
unfoldable pub absorb_successors : ℕ → IntervalSet → ℕ → ℕ → IntervalSet × ℕ × ℕ
unfolding first_ge remove_key
absorb_successors zero m lo hi = (m, lo, hi)
absorb_successors (suc fuel) m lo hi = elim (first_ge m lo) [
  | none ↦ (m, lo, hi)
  | some (k, v) ↦ elim (leb k (saturating_add hi 1)) [
    | true ↦ absorb_successors fuel (remove_key m k) (min lo k) (max hi v)
    | false ↦ (m, lo, hi)
  ]
]

abbrev write_back : IntervalSet × ℕ × ℕ → IntervalSet
unfolding insert_key
write_back (m, lo, hi) = insert_key m lo hi

abbrev absorb_all : IntervalSet × ℕ × ℕ → IntervalSet
unfolding absorb_successors write_back
absorb_all (m, lo, hi) = write_back (absorb_successors (length m) m lo hi)

unfoldable pub insert : IntervalSet → ℕ → ℕ → IntervalSet
unfolding last_le absorb_lower absorb_all
insert m start stop =
    if ltb stop start then m else absorb_all (absorb_lower m start stop (last_le m start))

unfoldable pub from_ranges : List ByteRange → IntervalSet → IntervalSet
unfolding insert
from_ranges [] m = m
from_ranges ((a, b) ∷ rs) m = from_ranges rs (insert m a b)

-- The entry of `subtract` that spans `start` from below.
abbrev spanning : Option ByteRange → ℕ → List ByteRange
spanning none start = []
spanning (some (k, v)) start = if leb start v then (k, v) ∷ [] else []

-- One round of the splitting loop.
unfoldable pub split_entry : IntervalSet → ℕ → ℕ → ByteRange → IntervalSet
unfolding remove_key insert_key
split_entry m start stop (k, v) =
    let m1 = remove_key m k in
    let m2 = if ltb k start then insert_key m1 k (start - 1) else m1 in
    if ltb stop v then insert_key m2 (stop + 1) v else m2

unfoldable pub split_entries : IntervalSet → ℕ → ℕ → List ByteRange → IntervalSet
unfolding split_entry
split_entries m start stop [] = m
split_entries m start stop (e ∷ es) = split_entries (split_entry m start stop e) start stop es

unfoldable pub subtract : IntervalSet → ℕ → ℕ → IntervalSet
unfolding split_entries range_between last_lt
subtract m start stop =
    if ltb stop start
    then m
    else split_entries m start stop (range_between m start stop ++ spanning (last_lt m start) start)

abbrev within_entry : Option ByteRange → ℕ → Bool
within_entry none offset = false
within_entry (some (k, v)) offset = leb k offset && leb offset v

unfoldable pub contains : IntervalSet → ℕ → Bool
unfolding last_le
contains m offset = within_entry (last_le m offset) offset

abbrev gap_after : Option ByteRange → ℕ → Option ℕ
gap_after none limit = none
gap_after (some (k, v)) limit = if leb limit v then none else some (v + 1)

unfoldable pub first_gap_from : IntervalSet → ℕ → ℕ → Option ℕ
unfolding contains last_le
first_gap_from m start limit =
    if ltb limit start
    then none
    else if contains m start
    then gap_after (last_le m start) limit
    else some start

-- `len`: the number of covered bytes.
unfoldable pub len : IntervalSet → ℕ
len [] = 0
len ((k, v) ∷ m) = v - k + 1 + len m

unfoldable pub is_empty : IntervalSet → Bool
is_empty [] = true
is_empty ((k, v) ∷ m) = false

unfoldable pub covers : IntervalSet → ℕ → Bool
unfolding len
covers m total = total == 0 || len m == total

unfoldable pub union : IntervalSet → IntervalSet → IntervalSet
unfolding insert
union m [] = m
union m ((k, v) ∷ other) = union (insert m k v) other

-- The loop of `complement_within`, `next` being the first byte not looked at.
unfoldable pub complement_from : ℕ → IntervalSet → ℕ → List ByteRange
complement_from next [] total = if ltb next total then (next, total - 1) ∷ [] else []
complement_from next ((k, v) ∷ m) total =
    let rest = complement_from (saturating_add v 1) m total in
    if ltb next k then (next, k - 1) ∷ rest else rest

unfoldable pub complement_within : IntervalSet → ℕ → List ByteRange
unfolding complement_from
complement_within m total = complement_from 0 m total
