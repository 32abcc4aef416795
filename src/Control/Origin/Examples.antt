-- ===== src/Control/Origin/Examples.antt =====
-- Tests of crates/engine/src/control/origin.rs, and instances of its theorems.
use kdown.Prelude.{
  ◌-◌, max, false, ◌≡◌, ◌≢◌, refl, none, some, [], ◌∷◌, String, arith, str_eq_iff, saturating_add,
}
use kdown.Control.Origin.{
  OriginEntry, OriginRegistry, new_entry, get, remove, retain, victim, make_room,
  evict_idle_entries, entry, report_throttle, backoff_remaining, delay_of,
}
use kdown.Control.Origin.Eviction.{IsMap, IsBusy}
use kdown.Control.Origin.Registry.{entry-IsBusy, report_throttle-extends}

abbrev busy : OriginEntry
busy = record {
  available = 1;
  capacity = 2;
  backoff_until_ms = 0;
  throttle_events = 0;
  success_events = 0;
  last_active_ms = 5;
}

abbrev idle : OriginEntry
idle = new_entry 7 2

-- Full: one entry is busy, one idle.
abbrev full : OriginRegistry
full = record {
  entries = ("a", busy) ∷ ("b", idle) ∷ [];
  capacity_per_origin = 2;
  max_entries = 2;
  idle_ttl_ms = 100;
  disabled = false;
}

idle_evicted : (entry full 20 "c").entries ≡ ("c", new_entry 20 2) ∷ ("a", busy) ∷ []
unfolding entry get evict_idle_entries retain make_room victim remove
idle_evicted = refl

full-IsMap : IsMap full.entries
full-IsMap = ((refl, tt), (tt, tt))

abbrev busy_in_full : IsBusy full.entries "a" busy
unfolding get
busy_in_full = (refl, omega arith)

abbrev fresh_key : String
fresh_key = "c"

abbrev busy_key : String
busy_key = "a"

distinct : fresh_key ≢ busy_key
distinct e = absurd (let r = (str_eq_iff fresh_key busy_key).1 e in cc)

absent : get full.entries "c" ≡ none
unfolding get
absent = refl

entry-IsBusy_example : IsBusy (entry full 20 "c").entries "a" busy
entry-IsBusy_example =
    entry-IsBusy full 20 "c" "a" busy full-IsMap (omega arith) distinct busy_in_full

report_throttle-extends_example :
    backoff_remaining (report_throttle full 20 "a" (some 30) 10) 25 "a"
    ≡ max (backoff_remaining full 25 "a") (saturating_add 20 (delay_of (some 30) 10) - 25)
report_throttle-extends_example = report_throttle-extends full 20 "a" (some 30) 10 25 refl
