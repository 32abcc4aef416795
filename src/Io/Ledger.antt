-- ===== src/Io/Ledger.antt =====
-- crates/engine/src/io/transfer_ledger.rs: the ledger of transfer memory. A pool's waiters are the
-- numbers of their tickets; a method returns the state that it leaves.
pub mod Pools
pub mod Reserve
pub mod Examples
use kdown.Prelude.{
  ℕ, ◌+◌, ◌-◌, ◌%◌, ◌^◌, min, max, Bool, true, false, not, Option, none, some, List, [], ◌∷◌, ◌++◌,
  ltb, ◌==◌, if◌then◌else◌, u64_max,
}

pub data Component : Type 0 where
  network_ingress : Component
  frames : Component
  writer : Component
  checkpoint : Component

abbrev pub index : Component → ℕ
index network_ingress = 0
index frames = 1
index writer = 2
index checkpoint = 3

pub data Probe : Type 0 where
  acquired : Probe
  oversize : Probe
  full : Probe

pub record Pool : Type 0 where
  pub cap : ℕ
  pub outstanding : ℕ
  pub high_water : ℕ
  pub waiters : List ℕ

unfoldable pub acquire_locked : Pool → ℕ → Pool × Probe
acquire_locked p bytes =
    let new = p.outstanding + bytes in
    if ltb u64_max new
    then (p, full)
    else if ltb p.cap new
    then (p, full)
    else (record p { outstanding = new; high_water = max p.high_water new }, acquired)

unfoldable pub probe_and_acquire : Pool → ℕ → Pool × Probe
unfolding acquire_locked
probe_and_acquire p bytes =
    if ltb p.cap bytes
    then (p, oversize)
    else elim p.waiters [ [] ↦ acquire_locked p bytes | t ∷ ts ↦ (p, full) ]

-- `Ticket::register`.
unfoldable pub register : Pool → ℕ → Pool
register p ticket = record p { waiters = p.waiters ++ (ticket ∷ []) }

abbrev remove_first : List ℕ → ℕ → List ℕ
remove_first [] t = []
remove_first (w ∷ ws) t = if w == t then ws else w ∷ remove_first ws t

unfoldable pub deregister : Pool → ℕ → Pool
deregister p ticket = record p { waiters = remove_first p.waiters ticket }

unfoldable pub poll_head : Pool → ℕ → ℕ → Pool × Probe
unfolding acquire_locked
poll_head p ticket bytes = elim p.waiters [
  | [] ↦ (p, full)
  | t ∷ ts ↦ if t == ticket then acquire_locked p bytes else (p, full)
]

-- `outstanding -= bytes`, which wraps in a release build.
unfoldable pub release : Pool → ℕ → Pool
release p bytes =
    if bytes == 0 then p else record p { outstanding = (p.outstanding + (2 ^ 64 - bytes)) % 2 ^ 64 }

pub record ComponentMeter : Type 0 where
  pub held : ℕ
  pub peak : ℕ

unfoldable pub charge : ComponentMeter → ℕ → ComponentMeter
charge m bytes = let new = (m.held + bytes) % 2 ^ 64 in record { held = new; peak = max m.peak new }

unfoldable pub discharge : ComponentMeter → ℕ → ComponentMeter
discharge m bytes = record { held = (m.held + (2 ^ 64 - bytes)) % 2 ^ 64; peak = m.peak }

pub record JobLedger : Type 0 where
  pub controller : Pool
  pub job : Pool
  pub components : Component → Pool
  pub meters : Component → ComponentMeter
  pub component_caps : Component → ℕ

-- A function changed at one component.
abbrev pub set_at {ℓ} : {A : Type ℓ} → (Component → A) → Component → A → Component → A
set_at f c a d = if index d == index c then a else f d

unfoldable pub tightest_cap : JobLedger → Component → ℕ
tightest_cap l c = min (min (l.component_caps c) l.job.cap) l.controller.cap

pub data LedgerRefusal : Type 0 where
  oversize_refusal : Component → ℕ → ℕ → LedgerRefusal
  no_capacity : Component → LedgerRefusal

pub data Reservation : Type 0 where
  reserved : Component → ℕ → Reservation  -- `Ok(TransferReservation)`
  refused : LedgerRefusal → Reservation

-- The refusal that a pool's probe gives. A pool names `Frames` as the component.
abbrev pub refusal : Component → Pool → ℕ → Probe → LedgerRefusal
refusal c p bytes acquired = no_capacity c
refusal c p bytes oversize = oversize_refusal frames bytes p.cap
refusal c p bytes full = no_capacity c

-- What `try_reserve` does after the controller's probe, with the component and the job charged:
-- the guard of the job's charge is armed, and that of the component's charge is disarmed.
unfoldable pub after_controller : JobLedger → Component → ℕ → Pool × Probe → JobLedger × Reservation
after_controller l c bytes (p, acquired) = (
  record l { controller = p; meters = set_at l.meters c (charge (l.meters c) bytes) },
  reserved c bytes,
)
after_controller l c bytes (p, oversize) =
    (record l { job = release l.job bytes }, refused (refusal c l.controller bytes oversize))
after_controller l c bytes (p, full) =
    (record l { job = release l.job bytes }, refused (refusal c l.controller bytes full))

-- After the job's probe, with the component charged and the guard of that charge armed.
unfoldable pub after_job : JobLedger → Component → ℕ → Pool × Probe → JobLedger × Reservation
unfolding after_controller
after_job l c bytes (p, acquired) =
    after_controller (record l { job = p }) c bytes (probe_and_acquire l.controller bytes)
after_job l c bytes (p, oversize) = (
  record l { components = set_at l.components c (release (l.components c) bytes) },
  refused (refusal c l.job bytes oversize),
)
after_job l c bytes (p, full) = (
  record l { components = set_at l.components c (release (l.components c) bytes) },
  refused (refusal c l.job bytes full),
)

-- After the component's probe.
unfoldable pub after_component : JobLedger → Component → ℕ → Pool × Probe → JobLedger × Reservation
unfolding after_job
after_component l c bytes (p, acquired) =
    after_job (record l { components = set_at l.components c p }) c bytes
      (probe_and_acquire l.job bytes)
after_component l c bytes (p, oversize) = (l, refused (refusal c (l.components c) bytes oversize))
after_component l c bytes (p, full) = (l, refused (refusal c (l.components c) bytes full))

unfoldable pub try_reserve : JobLedger → Component → ℕ → JobLedger × Reservation
unfolding tightest_cap after_component
try_reserve l c bytes =
    if ltb (tightest_cap l c) bytes
    then (l, refused (oversize_refusal c bytes (tightest_cap l c)))
    else after_component l c bytes (probe_and_acquire (l.components c) bytes)

-- `Drop for TransferReservation`.
unfoldable pub drop_reservation : JobLedger → Component → ℕ → JobLedger
drop_reservation l c bytes = record l {
  controller = release l.controller bytes;
  meters = set_at l.meters c (discharge (l.meters c) bytes);
  job = release l.job bytes;
  components = set_at l.components c (release (l.components c) bytes);
}

-- `shrink_to`: the ledger and the bytes that stay reserved.
unfoldable pub shrink_to : JobLedger → Component → ℕ → ℕ → JobLedger × ℕ
unfolding drop_reservation
shrink_to l c held bytes =
    if ltb held bytes
    then (l, held)
    else if held - bytes == 0
    then (l, held)
    else (drop_reservation l c (held - bytes), bytes)

unfoldable pub reconcile : JobLedger → Component → ℕ → ℕ → JobLedger × ℕ
reconcile l c held actual = if ltb actual held then shrink_to l c held actual else (l, held)
