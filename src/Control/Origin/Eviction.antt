-- ===== src/Control/Origin/Eviction.antt =====
-- What the registry of crates/engine/src/control/origin.rs evicts, and what it keeps.
use kdown.Prelude.{
  ℕ, zero, suc, ◌+◌, ◌≤◌, ◌<◌, true, false, ◌≡◌, ◌≢◌, ◌⊎◌, refl, sym, ◌∙◌, ap, subst, inl, inr,
  Option, none, some, [], ◌∷◌, leb, ◌==◌, String, str_eq, str_eq_iff, length, arith, All,
  Bool-cases, Option-cases,
}
use kdown.Control.Origin.{
  OriginEntry, Entries, in_flight, get, remove, retain, is_kept, older, victim, make_room,
}

-- No key twice, as in a hash map.
abbrev pub IsMap : Entries → Type 0
IsMap [] = Unit {0}
IsMap ((k, e) ∷ rest) = All (λ p. str_eq p.0 k ≡ false) rest × IsMap rest

-- The entry of a key, with a request in flight.
abbrev pub IsBusy : Entries → String → OriginEntry → Type 0
IsBusy m key e = (get m key ≡ some e) × (1 ≤ in_flight e)

retain-All :
    (cutoff : ℕ) (P : String × OriginEntry → Type 0) (m : Entries)
    → All P m
    → All P (retain cutoff m)
unfolding retain
retain-All cutoff P [] a = tt
retain-All cutoff P ((k, e) ∷ rest) a = elim (Bool-cases (is_kept cutoff e)) [
  | inl y ↦ rw y (a.0, retain-All cutoff P rest a.1)
  | inr n ↦ rw n (retain-All cutoff P rest a.1)
]

pub retain-IsMap : (cutoff : ℕ) (m : Entries) → IsMap m → IsMap (retain cutoff m)
unfolding retain
retain-IsMap cutoff [] a = tt
retain-IsMap cutoff ((k, e) ∷ rest) a = elim (Bool-cases (is_kept cutoff e)) [
  | inl y ↦
      rw y (retain-All cutoff (λ p. str_eq p.0 k ≡ false) rest a.0, retain-IsMap cutoff rest a.1)
  | inr n ↦ rw n (retain-IsMap cutoff rest a.1)
]

pub retain-IsBusy :
    (cutoff : ℕ) (m : Entries) (key : String) (e : OriginEntry)
    → IsBusy m key e
    → IsBusy (retain cutoff m) key e
unfolding retain get
retain-IsBusy cutoff [] key e b = b
retain-IsBusy cutoff ((k, f) ∷ rest) key e b = elim (Bool-cases (str_eq k key)) [
  | inl s ↦
      let same : some f ≡ some e = rw s at b.0 in
      let eq : f ≡ e = cc in
      let kept : is_kept cutoff f ≡ true = ground (arith, b.1, ap in_flight eq) in
      rw (kept, s) (ap some eq, b.1)
  | inr s ↦
      let later = retain-IsBusy cutoff rest key e (rw s at b.0, b.1) in
      elim (Bool-cases (is_kept cutoff f)) [ inl y ↦ rw (y, s) later | inr n ↦ rw n later ]
]

remove-All :
    (P : String × OriginEntry → Type 0) (m : Entries) (key : String)
    → All P m
    → All P (remove m key)
unfolding remove
remove-All P [] key a = tt
remove-All P ((k, e) ∷ rest) key a = elim (Bool-cases (str_eq k key)) [
  | inl s ↦ rw s a.1
  | inr s ↦ rw s (a.0, remove-All P rest key a.1)
]

remove-IsMap : (m : Entries) (key : String) → IsMap m → IsMap (remove m key)
unfolding remove
remove-IsMap [] key a = tt
remove-IsMap ((k, e) ∷ rest) key a = elim (Bool-cases (str_eq k key)) [
  | inl s ↦ rw s a.1
  | inr s ↦ rw s (remove-All (λ p. str_eq p.0 k ≡ false) rest key a.0, remove-IsMap rest key a.1)
]

get-remove : (m : Entries) (v key : String) → v ≢ key → get (remove m v) key ≡ get m key
unfolding remove get
get-remove [] v key n = refl
get-remove ((k, e) ∷ rest) v key n = elim (Bool-cases (str_eq k v)) [
  | inr s ↦ elim (Bool-cases (str_eq k key)) [
    | inl t ↦ rw (s, t) refl
    | inr t ↦ rw (s, t) (get-remove rest v key n)
  ]
  | inl s ↦ elim (Bool-cases (str_eq k key)) [
    | inr t ↦ rw (s, t) refl
    | inl t ↦
        let a = (str_eq_iff k v).0 s in let b = (str_eq_iff k key).0 t in absurd (n (sym a ∙ b))
  ]
]

get-apart :
    (rest : Entries) (j k : String) (e : OriginEntry)
    → All (λ p. str_eq p.0 k ≡ false) rest
    → get rest j ≡ some e
    → str_eq k j ≡ false
unfolding get
get-apart [] j k e a g = absurd (cc)
get-apart ((i, f) ∷ rest) j k e a g = elim (Bool-cases (str_eq i j)) [
  | inr s ↦ get-apart rest j k e a.1 (rw s at g)
  | inl s ↦ elim (Bool-cases (str_eq k j)) [
    | inr t ↦ t
    | inl t ↦
        let same = (str_eq_iff i k).1 ((str_eq_iff i j).0 s ∙ sym ((str_eq_iff k j).0 t)) in
        let differ = a.0 in absurd (cc)
  ]
]

-- The entry that a key stands for, without requests in flight.
abbrev IsIdle : Entries → String → Type 0
IsIdle m v = (e : OriginEntry) × (get m v ≡ some e) × (in_flight e ≡ 0)

IsIdle-cons :
    (k j : String) (f : OriginEntry) (rest : Entries)
    → All (λ p. str_eq p.0 k ≡ false) rest
    → IsIdle rest j
    → IsIdle ((k, f) ∷ rest) j
unfolding get
IsIdle-cons k j f rest a (e, g, i) = (e, rw (get-apart rest j k e a g) g, i)

older-IsIdle :
    (k v : String) (f : OriginEntry) (rest : Entries) (t : ℕ) (others : Option (String × ℕ))
    → IsMap ((k, f) ∷ rest)
    → in_flight f ≡ 0
    → ((j : String) (u : ℕ) → others ≡ some (j, u) → IsIdle rest j)
    → older k f.last_active_ms others ≡ some (v, t)
    → IsIdle ((k, f) ∷ rest) v
unfolding get
older-IsIdle k v f rest t none a i h e =
    let same : k ≡ v = cc in (f, rw ((str_eq_iff k v).1 same) refl, i)
older-IsIdle k v f rest t (some (j, u)) a i h e = elim (Bool-cases (leb f.last_active_ms u)) [
  | inl y ↦
      let same : k ≡ v = (let r = rw y at e in cc) in (f, rw ((str_eq_iff k v).1 same) refl, i)
  | inr n ↦
      let same : j ≡ v = (let r = rw n at e in cc) in
      subst (IsIdle ((k, f) ∷ rest)) same (IsIdle-cons k j f rest a.0 (h j u refl))
]

victim-IsIdle : (m : Entries) (v : String) (t : ℕ) → IsMap m → victim m ≡ some (v, t) → IsIdle m v
unfolding victim
victim-IsIdle [] v t a e = absurd (cc)
victim-IsIdle ((k, f) ∷ rest) v t a e = elim (Bool-cases (in_flight f == 0)) [
  | inl z ↦
      older-IsIdle k v f rest t (victim rest) a (ground (arith, z))
        (λ j u h. victim-IsIdle rest j u a.1 h) (rw z at e)
  | inr z ↦ IsIdle-cons k v f rest a.0 (victim-IsIdle rest v t a.1 (rw z at e))
]

abbrev pub AllBusy : Entries → Type 0
AllBusy m = All (λ p. 1 ≤ in_flight p.1) m

older-some : (k : String) (t : ℕ) (others : Option (String × ℕ)) → older k t others ≢ none
older-some k t none e = absurd (cc)
older-some k t (some (j, u)) e = elim (Bool-cases (leb t u)) [
  | inl y ↦ absurd (let r = rw y at e in cc)
  | inr n ↦ absurd (let r = rw n at e in cc)
]

victim-none : (m : Entries) → victim m ≡ none → AllBusy m
unfolding victim
victim-none [] e = tt
victim-none ((k, f) ∷ rest) e = elim (Bool-cases (in_flight f == 0)) [
  | inl z ↦ absurd (older-some k f.last_active_ms (victim rest) (rw z at e))
  | inr z ↦ (ground (arith, z), victim-none rest (rw z at e))
]

length-remove :
    (m : Entries) (v : String) (e : OriginEntry)
    → get m v ≡ some e
    → length (remove m v) + 1 ≡ length m
unfolding get remove
length-remove [] v e g = absurd (cc)
length-remove ((k, f) ∷ rest) v e g = elim (Bool-cases (str_eq k v)) [
  | inl s ↦ rw s (omega arith)
  | inr s ↦ rw s (omega (arith, length-remove rest v e (rw s at g)))
]

apart :
    (m : Entries) (v key : String) (e f : OriginEntry)
    → get m v ≡ some e
    → in_flight e ≡ 0
    → IsBusy m key f
    → v ≢ key
apart m v key e f g i b same =
    let both : some e ≡ some f = sym g ∙ ap (get m) same ∙ b.0 in
    let eq : e ≡ f = cc in absurd (omega (arith, i, b.1, ap in_flight eq))

-- What is left after making room: a map, with every busy entry, and below the cap or all busy.
abbrev pub IsRoom : ℕ → Entries → Entries → Type 0
IsRoom max_entries m after =
    IsMap after
    × ((key : String) (e : OriginEntry) → IsBusy m key e → IsBusy after key e)
    × ((length after < max_entries) ⊎ AllBusy after)

pub make_room-IsRoom :
    (fuel max_entries : ℕ) (m : Entries)
    → IsMap m
    → length m ≤ fuel
    → 1 ≤ max_entries
    → IsRoom max_entries m (make_room fuel max_entries m)
unfolding make_room
make_room-IsRoom zero max_entries m a f p = (a, λ key e b. b, inl (omega (arith, f, p)))
make_room-IsRoom (suc fuel) max_entries m a f p = elim (Bool-cases (leb max_entries (length m))) [
  | inr c ↦ rw c (a, λ key e b. b, inl (ground (arith, c)))
  | inl c ↦ elim (Option-cases (victim m)) [
    | inl v ↦ rw (c, v) (a, λ key e b. b, inr (victim-none m v))
    | inr ((v, t), s) ↦
        let (e, g, i) = victim-IsIdle m v t a s in
        let (a2, keep, room) =
          make_room-IsRoom fuel max_entries (remove m v) (remove-IsMap m v a)
            (omega (arith, f, length-remove m v e g)) p in
        rw (c, s)
          (
            a2,
            λ key f2 b. keep key f2 (
              subst (λ o. o ≡ some f2) (sym (get-remove m v key (apart m v key e f2 g i b))) b.0,
              b.1,
            ),
            room,
          )
  ]
]
