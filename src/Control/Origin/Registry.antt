-- ===== src/Control/Origin/Registry.antt =====
-- The operations of the registry of crates/engine/src/control/origin.rs as wholes.
use kdown.Prelude.{
  ℕ, ◌-◌, ◌≤◌, max, false, ◌≡◌, ◌≢◌, ◌⊎◌, refl, sym, ◌∙◌, ap, inl, inr, Option, none, some, [], ◌∷◌,
  leb, if◌then◌else◌, String, str_eq, str_eq_iff, length, arith, Bool-cases, Option-cases,
  saturating_add, saturating_sub,
}
use kdown.Control.Origin.{
  OriginEntry, OriginRegistry, Entries, touch, new_entry, get, modify, evict_idle_entries,
  make_room, evict_expired, create, found, entry, throttle, delay_of, report_throttle,
  backoff_remaining, wait_of,
}
use kdown.Control.Origin.Eviction.{
  IsMap, IsBusy, AllBusy, retain-IsMap, retain-IsBusy, make_room-IsRoom,
}

get-modify_other :
    (f : OriginEntry → OriginEntry) (m : Entries) (key k : String)
    → key ≢ k
    → get (modify f m key) k ≡ get m k
unfolding get modify
get-modify_other f [] key k n = refl
get-modify_other f ((j, e) ∷ rest) key k n = elim (Bool-cases (str_eq j key)) [
  | inr s ↦ elim (Bool-cases (str_eq j k)) [
    | inl t ↦ rw (s, t) refl
    | inr t ↦ rw (s, t) (get-modify_other f rest key k n)
  ]
  | inl s ↦ elim (Bool-cases (str_eq j k)) [
    | inr t ↦ rw (s, t) refl
    | inl t ↦ absurd (n (sym ((str_eq_iff j key).0 s) ∙ (str_eq_iff j k).0 t))
  ]
]

get-modify :
    (f : OriginEntry → OriginEntry) (m : Entries) (key : String) (e : OriginEntry)
    → get m key ≡ some e
    → get (modify f m key) key ≡ some (f e)
unfolding get modify
get-modify f [] key e g = absurd (cc)
get-modify f ((j, d) ∷ rest) key e g = elim (Bool-cases (str_eq j key)) [
  | inl s ↦
      let eq : some d ≡ some e = rw s at g in
      let same : d ≡ e = cc in rw (s, s) (ap some (ap f same))
  | inr s ↦ rw (s, s) (get-modify f rest key e (rw s at g))
]

get-cons : (j k : String) (e : OriginEntry) (m : Entries) → j ≢ k → get ((j, e) ∷ m) k ≡ get m k
unfolding get
get-cons j k e m n = elim (Bool-cases (str_eq j k)) [
  | inl s ↦ absurd (n ((str_eq_iff j k).0 s))
  | inr s ↦ rw s refl
]

get-here : (k : String) (e : OriginEntry) (m : Entries) → get ((k, e) ∷ m) k ≡ some e
unfolding get
get-here k e m = rw ((str_eq_iff k k).1 refl) refl

evict_expired-IsMap : (r : OriginRegistry) (now : ℕ) → IsMap r.entries → IsMap (evict_expired r now)
unfolding evict_expired evict_idle_entries
evict_expired-IsMap r now a = elim (Bool-cases (leb r.max_entries (length r.entries))) [
  | inl e ↦ rw e (retain-IsMap (saturating_sub now r.idle_ttl_ms) r.entries a)
  | inr e ↦ rw e a
]

evict_expired-IsBusy :
    (r : OriginRegistry) (now : ℕ) (k : String) (f : OriginEntry)
    → IsBusy r.entries k f
    → IsBusy (evict_expired r now) k f
unfolding evict_expired evict_idle_entries
evict_expired-IsBusy r now k f b = elim (Bool-cases (leb r.max_entries (length r.entries))) [
  | inl e ↦ rw e (retain-IsBusy (saturating_sub now r.idle_ttl_ms) r.entries k f b)
  | inr e ↦ rw e b
]

-- In a registry with a positive cap and no key twice, looking up or creating the entry of one
-- origin keeps that of every other origin with a request in flight, unchanged.
pub entry-IsBusy :
    (r : OriginRegistry) (now : ℕ) (key k : String) (f : OriginEntry)
    → IsMap r.entries
    → 1 ≤ r.max_entries
    → key ≢ k
    → IsBusy r.entries k f
    → IsBusy (entry r now key).entries k f
unfolding entry found create
entry-IsBusy r now key k f a p n b = elim (Option-cases (get r.entries key)) [
  | inr (e, g) ↦ rw g (get-modify_other (touch now) r.entries key k n ∙ b.0, b.1)
  | inl g ↦
      let m = evict_expired r now in
      let (a2, keep, room) =
        make_room-IsRoom (length m) r.max_entries m (evict_expired-IsMap r now a) (omega arith) p in
      let kept = keep k f (evict_expired-IsBusy r now k f b) in
      rw g (
        get-cons key k (new_entry now r.capacity_per_origin) (make_room (length m) r.max_entries m)
              n
            ∙ kept.0,
        b.1,
      )
]

-- When the entry of a new origin is created, the registry ends within its cap, or every older
-- entry has a request in flight.
pub entry-bounded :
    (r : OriginRegistry) (now : ℕ) (key : String)
    → IsMap r.entries
    → 1 ≤ r.max_entries
    → get r.entries key ≡ none
    → (length (entry r now key).entries ≤ r.max_entries)
      ⊎ ((rest : Entries) × ((entry r now key).entries
            ≡ (key, new_entry now r.capacity_per_origin) ∷ rest)
          × AllBusy rest)
unfolding entry found create
entry-bounded r now key a p g =
    let m = evict_expired r now in
    let (a2, keep, room) =
      make_room-IsRoom (length m) r.max_entries m (evict_expired-IsMap r now a) (omega arith) p in
    elim room [
      | inl below ↦ rw g (inl (omega (arith, below)))
      | inr busy ↦ rw g (inr (make_room (length m) r.max_entries m, refl, busy))
    ]

-- The deadline of the entry that `entry` leaves.
entry-wait :
    (r : OriginRegistry) (now : ℕ) (key : String)
    → (e : OriginEntry) × (get (entry r now key).entries key ≡ some e)
      × ((t : ℕ) → e.backoff_until_ms - t ≡ backoff_remaining r t key)
unfolding entry found create backoff_remaining get
entry-wait r now key = elim (Option-cases (get r.entries key)) [
  | inr (e, g) ↦ rw g (touch now e, get-modify (touch now) r.entries key e g, λ t. refl)
  | inl g ↦ rw g (
    new_entry now r.capacity_per_origin,
    get-here key (new_entry now r.capacity_per_origin)
        (make_room (length (evict_expired r now)) r.max_entries (evict_expired r now)),
    λ t. omega arith,
  )
]

backoff_remaining-get :
    (r : OriginRegistry) (t : ℕ) (key : String) (e : OriginEntry)
    → get r.entries key ≡ some e
    → backoff_remaining r t key ≡ e.backoff_until_ms - t
unfolding backoff_remaining
backoff_remaining-get r t key e g = ap (wait_of t) g

throttle-wait :
    (e : OriginEntry) (until t : ℕ)
    → (throttle until e).backoff_until_ms - t ≡ max (e.backoff_until_ms - t) (until - t)
throttle-wait e until t = ground arith

-- In a registry that is enabled, a throttle response sets the wait of its origin, at every time,
-- to the longer of what it was and the reported delay: it is never shortened.
pub report_throttle-extends :
    (r : OriginRegistry) (now : ℕ) (key : String) (capped_retry_after : Option ℕ)
    (fallback_delay t : ℕ)
    → r.disabled ≡ false
    → backoff_remaining (report_throttle r now key capped_retry_after fallback_delay) t key
      ≡ max
          (backoff_remaining r t key)
          (saturating_add now (delay_of capped_retry_after fallback_delay) - t)
unfolding report_throttle
report_throttle-extends r now key capped_retry_after fallback_delay t d =
    let until = saturating_add now (delay_of capped_retry_after fallback_delay) in
    let (e, g, wait) = entry-wait r now key in
    let next = entry r now key in
    let same : e.backoff_until_ms - t ≡ backoff_remaining r t key = wait t in
    let extended = get-modify (throttle until) next.entries key e g in
    let changed = record next { entries = modify (throttle until) next.entries key } in
    ap (λ b. backoff_remaining (if b then r else changed) t key) d
    ∙ backoff_remaining-get changed t key (throttle until e) extended
    ∙ throttle-wait e until t
    ∙ ap (λ w. max w (until - t)) same
