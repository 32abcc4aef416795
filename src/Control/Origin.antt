-- ===== src/Control/Origin.antt =====
-- crates/engine/src/control/origin.rs: the registry of origins. The clock is an argument, in
-- milliseconds; the hash map is a list of entries, one for each key. An entry that a waiting call
-- still holds after its eviction is no longer of the registry.
pub mod Eviction
pub mod Registry
pub mod Examples
use kdown.Prelude.{
  ℕ, zero, suc, ◌+◌, ◌-◌, max, Bool, true, false, not, ◌&&◌, ◌||◌, Option, none, some, List, [],
  ◌∷◌, ltb, leb, ◌==◌, if◌then◌else◌, String, str_eq, length, saturating_add, saturating_sub,
}

pub record OriginEntry : Type 0 where
  pub available : ℕ  -- the free permits of `slots`
  pub capacity : ℕ
  pub backoff_until_ms : ℕ
  pub throttle_events : ℕ
  pub success_events : ℕ
  pub last_active_ms : ℕ

abbrev pub new_entry : ℕ → ℕ → OriginEntry
new_entry now capacity = record {
  available = max capacity 1;
  capacity = max capacity 1;
  backoff_until_ms = 0;
  throttle_events = 0;
  success_events = 0;
  last_active_ms = now;
}

abbrev pub touch : ℕ → OriginEntry → OriginEntry
touch now e = record e { last_active_ms = now }

abbrev pub in_flight : OriginEntry → ℕ
in_flight e = saturating_sub e.capacity e.available

abbrev pub Entries : Type 0
Entries = List (String × OriginEntry)

pub record OriginRegistry : Type 0 where
  pub entries : Entries
  pub capacity_per_origin : ℕ
  pub max_entries : ℕ
  pub idle_ttl_ms : ℕ
  pub disabled : Bool

abbrev pub with_limits : ℕ → ℕ → ℕ → OriginRegistry
with_limits capacity_per_origin max_entries idle_ttl_ms = record {
  entries = [];
  capacity_per_origin = max capacity_per_origin 1;
  max_entries = max max_entries 1;
  idle_ttl_ms = idle_ttl_ms;
  disabled = false;
}

unfoldable pub get : Entries → String → Option OriginEntry
get [] key = none
get ((k, e) ∷ rest) key = if str_eq k key then some e else get rest key

-- A change through the shared pointer of a key.
unfoldable pub modify : (OriginEntry → OriginEntry) → Entries → String → Entries
modify f [] key = []
modify f ((k, e) ∷ rest) key = if str_eq k key then (k, f e) ∷ rest else (k, e) ∷ modify f rest key

unfoldable pub remove : Entries → String → Entries
remove [] key = []
remove ((k, e) ∷ rest) key = if str_eq k key then rest else (k, e) ∷ remove rest key

abbrev pub is_kept : ℕ → OriginEntry → Bool
is_kept cutoff e = ltb 0 (in_flight e) || ltb cutoff e.last_active_ms

unfoldable pub retain : ℕ → Entries → Entries
retain cutoff [] = []
retain cutoff ((k, e) ∷ rest) =
    if is_kept cutoff e then (k, e) ∷ retain cutoff rest else retain cutoff rest

unfoldable pub evict_idle_entries : ℕ → Entries → ℕ → Entries
unfolding retain
evict_idle_entries now m idle_ttl_ms = retain (saturating_sub now idle_ttl_ms) m

-- The less recently touched of an entry and the choice among those after it.
abbrev pub older : String → ℕ → Option (String × ℕ) → Option (String × ℕ)
older k t none = some (k, t)
older k t (some (j, u)) = if leb t u then some (k, t) else some (j, u)

-- `filter`, `min_by_key`: the key of the victim, and when it was touched.
unfoldable pub victim : Entries → Option (String × ℕ)
victim [] = none
victim ((k, e) ∷ rest) =
    let others = victim rest in if in_flight e == 0 then older k e.last_active_ms others else others

-- The loop down to the cap. A round removes an entry, so their number is fuel enough.
unfoldable pub make_room : ℕ → ℕ → Entries → Entries
unfolding remove
make_room zero max_entries m = m
make_room (suc fuel) max_entries m =
    if leb max_entries (length m)
    then (elim (victim m) [ none ↦ m | some (key, t) ↦ make_room fuel max_entries (remove m key) ])
    else m

abbrev pub evict_expired : OriginRegistry → ℕ → Entries
unfolding evict_idle_entries
evict_expired r now =
    if leb r.max_entries (length r.entries)
    then evict_idle_entries now r.entries r.idle_ttl_ms
    else r.entries

abbrev pub create : OriginRegistry → ℕ → String → Entries
unfolding make_room evict_expired
create r now key =
    let m = evict_expired r now in
    (key, new_entry now r.capacity_per_origin) ∷ make_room (length m) r.max_entries m

abbrev pub found : OriginRegistry → ℕ → String → Option OriginEntry → OriginRegistry
unfolding modify create
found r now key (some e) = record r { entries = modify (touch now) r.entries key }
found r now key none = record r { entries = create r now key }

-- `entry`, which leaves the entry of the key in the map.
unfoldable pub entry : OriginRegistry → ℕ → String → OriginRegistry
unfolding get found
entry r now key = found r now key (get r.entries key)

-- The compare-exchange loop that only extends the deadline.
abbrev pub throttle : ℕ → OriginEntry → OriginEntry
throttle until e = record e {
  throttle_events = e.throttle_events + 1;
  backoff_until_ms = if leb until e.backoff_until_ms then e.backoff_until_ms else until;
}

abbrev pub delay_of : Option ℕ → ℕ → ℕ
delay_of none fallback = fallback
delay_of (some d) fallback = d

unfoldable pub report_throttle : OriginRegistry → ℕ → String → Option ℕ → ℕ → OriginRegistry
unfolding entry modify
report_throttle r now key capped_retry_after fallback_delay =
    let next = entry r now key in
    let until = saturating_add now (delay_of capped_retry_after fallback_delay) in
    if r.disabled then r else record next { entries = modify (throttle until) next.entries key }

unfoldable pub report_success : OriginRegistry → ℕ → String → OriginRegistry
unfolding entry modify
report_success r now key =
    let next = entry r now key in
    let succeed =
      λ (e : OriginEntry). touch now (record e { success_events = e.success_events + 1 }) in
    if r.disabled then r else record next { entries = modify succeed next.entries key }

-- The deadline that `admit` waits out and `backoff_remaining` reports.
abbrev pub wait_of : ℕ → Option OriginEntry → ℕ
wait_of now none = 0
wait_of now (some e) = saturating_sub e.backoff_until_ms now

unfoldable pub backoff_remaining : OriginRegistry → ℕ → String → ℕ
unfolding get
backoff_remaining r now key = wait_of now (get r.entries key)

unfoldable pub evict_idle : OriginRegistry → ℕ → OriginRegistry
unfolding evict_idle_entries
evict_idle r now = record r { entries = evict_idle_entries now r.entries r.idle_ttl_ms }
