-- ===== src/Io/Buffers/Bounds.antt =====
-- The pool of crates/engine/src/io/buffer_pool.rs under any order of the calls of its users.
use kdown.Prelude.{
  ℕ, ◌+◌, ◌-◌, ◌≤◌, true, false, ◌&&◌, ◌||◌, not, ◌≡◌, ◌∙◌, ap, refl, inl, inr, Option, none, some,
  List, [], ◌∷◌, ltb, leb, if◌then◌else◌, length, arith, Bool-cases,
}
use kdown.Io.Buffers.{
  Buffer, PoolState, BufferPool, new, acquire_inner, pop_or_allocate, is_idle_empty, try_acquire,
  acquire_now, blocks, release,
}

pub record Users : Type 0 where
  pub pool : BufferPool
  pub in_use : List Buffer
  pub waiting : ℕ  -- calls of `acquire` in `block_until_available`
  pub woken : ℕ  -- those that it has returned to, and that have not locked the pool again

pub data Event : Type 0 where
  tries : Event
  acquires : Event
  wakes : Event  -- a waiting call looks at the pool
  takes : Event  -- a woken call takes its buffer
  releases : Event  -- the buffer taken last is dropped

abbrev with_buffer : Users → PoolState × Buffer → Users
with_buffer u (st, b) = record u { pool = record u.pool { state = st }; in_use = b ∷ u.in_use }

abbrev or_none : Users → Option (PoolState × Buffer) → Users
or_none u none = u
or_none u (some r) = with_buffer u r

abbrev or_wait : Users → Option (PoolState × Buffer) → Users
or_wait u none = record u { waiting = u.waiting + 1 }
or_wait u (some r) = with_buffer u r

abbrev dropped : Users → List Buffer → Users
unfolding release
dropped u [] = u
dropped u (b ∷ rest) = record u { pool = record u.pool { state = release u.pool b }; in_use = rest }

unfoldable pub step : Users → Event → Users
unfolding try_acquire acquire_now blocks acquire_inner dropped
step u tries = or_none u (try_acquire u.pool)
step u acquires = or_wait u (acquire_now u.pool)
step u wakes =
    if ltb 0 u.waiting && not (blocks u.pool)
    then record u { waiting = u.waiting - 1; woken = u.woken + 1 }
    else u
step u takes =
    if ltb 0 u.woken
    then with_buffer (record u { woken = u.woken - 1 }) (acquire_inner u.pool.state)
    else u
step u releases = dropped u u.in_use

unfoldable pub run : Users → List Event → Users
unfolding step
run u [] = u
run u (e ∷ es) = run (step u e) es

abbrev pub initial : ℕ → ℕ → Users
initial buffer_size max_total_bytes = record {
  pool = new buffer_size max_total_bytes;
  in_use = [];
  waiting = 0;
  woken = 0;
}

abbrev pub count_takes : List Event → ℕ
count_takes [] = 0
count_takes (takes ∷ es) = 1 + count_takes es
count_takes (tries ∷ es) = count_takes es
count_takes (acquires ∷ es) = count_takes es
count_takes (wakes ∷ es) = count_takes es
count_takes (releases ∷ es) = count_takes es

-- Every buffer in existence is idle or in use, and there are at most `extra` over the limit.
abbrev pub IsCounted : ℕ → Users → Type 0
IsCounted extra u =
    (u.pool.state.allocated ≡ length u.pool.state.idle + length u.in_use)
    × (u.pool.state.allocated ≤ u.pool.max_buffers + extra)

acquire_inner-IsCounted :
    (u : Users) (extra : ℕ) (idle : List Buffer) (allocated : ℕ)
    → allocated ≡ length idle + length u.in_use
    → (length idle ≡ 0 → allocated + 1 ≤ u.pool.max_buffers + extra)
    → allocated ≤ u.pool.max_buffers + extra
    → IsCounted extra (with_buffer u (pop_or_allocate idle allocated))
acquire_inner-IsCounted u extra [] allocated c free b = (omega (arith, c), omega (arith, free refl))
acquire_inner-IsCounted u extra (x ∷ idle) allocated c free b = (omega (arith, c), b)

idle_empty :
    (idle : List Buffer) → (elim idle [ [] ↦ true | b ∷ rest ↦ false ]) ≡ false → 1 ≤ length idle
idle_empty [] h = absurd (cc)
idle_empty (x ∷ idle) h = omega arith

acquire-IsCounted :
    (u : Users) (extra : ℕ)
    → IsCounted extra u
    → (is_idle_empty u.pool.state ≡ true → u.pool.state.allocated + 1 ≤ u.pool.max_buffers + extra)
    → IsCounted extra (with_buffer u (acquire_inner u.pool.state))
unfolding acquire_inner
acquire-IsCounted u extra c free =
    acquire_inner-IsCounted u extra u.pool.state.idle u.pool.state.allocated c.0
      (λ z. elim (Bool-cases (is_idle_empty u.pool.state)) [
        | inl e ↦ free e
        | inr e ↦ absurd (omega (arith, idle_empty u.pool.state.idle e, z))
      ])
      c.1

release-IsCounted :
    (u : Users) (extra : ℕ) (in_use : List Buffer)
    → u.pool.state.allocated ≡ length u.pool.state.idle + length in_use
    → u.pool.state.allocated ≤ u.pool.max_buffers + extra
    → u.in_use ≡ in_use
    → IsCounted extra (dropped u in_use)
unfolding dropped release
release-IsCounted u extra [] c b e = rw e (c, b)
release-IsCounted u extra (x ∷ rest) c b e =
    elim (Bool-cases (ltb (length u.pool.state.idle) u.pool.max_buffers)) [
      | inl l ↦ rw l (omega (arith, c, b))
      | inr l ↦ rw l (omega (arith, c, b))
    ]

abbrev takes_once : Event → ℕ
takes_once takes = 1
takes_once tries = 0
takes_once acquires = 0
takes_once wakes = 0
takes_once releases = 0

step-IsCounted :
    (u : Users) (e : Event) (extra : ℕ)
    → IsCounted extra u
    → IsCounted (takes_once e + extra) (step u e)
unfolding step try_acquire acquire_now
step-IsCounted u tries extra c =
    elim (Bool-cases
      (is_idle_empty u.pool.state && leb u.pool.max_buffers u.pool.state.allocated)) [
        | inl e ↦ rw e (omega (arith, c))
        | inr e ↦
            let r = acquire-IsCounted u extra c (λ z. ground (arith, e, z)) in
            rw e (omega (arith, r))
      ]
step-IsCounted u acquires extra c =
    elim (Bool-cases
      (ltb u.pool.state.allocated u.pool.max_buffers || not (is_idle_empty u.pool.state))) [
        | inl e ↦
            let r = acquire-IsCounted u extra c (λ z. ground (arith, e, z)) in
            rw e (omega (arith, r))
        | inr e ↦ rw e (omega (arith, c))
      ]
step-IsCounted u wakes extra c = elim (Bool-cases (ltb 0 u.waiting && not (blocks u.pool))) [
  | inl e ↦ rw e (omega (arith, c))
  | inr e ↦ rw e (omega (arith, c))
]
step-IsCounted u takes extra c = elim (Bool-cases (ltb 0 u.woken)) [
  | inr e ↦ rw e (omega (arith, c))
  | inl e ↦
      let r =
        acquire-IsCounted (record u { woken = u.woken - 1 }) (1 + extra) (omega (arith, c))
          (λ z. omega (arith, c)) in
      rw e (omega (arith, r))
]
step-IsCounted u releases extra c =
    let r = release-IsCounted u extra u.in_use c.0 c.1 refl in omega (arith, r)

count_takes-cons :
    (e : Event) (es : List Event) → count_takes (e ∷ es) ≡ takes_once e + count_takes es
count_takes-cons takes es = refl
count_takes-cons tries es = omega arith
count_takes-cons acquires es = omega arith
count_takes-cons wakes es = omega arith
count_takes-cons releases es = omega arith

from-IsCounted :
    (es : List Event) (u : Users) (extra : ℕ)
    → IsCounted extra u
    → IsCounted (count_takes es + extra) (run u es)
unfolding run
from-IsCounted [] u extra c = omega (arith, c)
from-IsCounted (e ∷ es) u extra c =
    let r = from-IsCounted es (step u e) (takes_once e + extra) (step-IsCounted u e extra c) in
    omega (arith, r, count_takes-cons e es)

-- After any calls, every buffer in existence is idle or in use, and there are at most
-- `max_buffers` and one for each buffer that a call took after it waited.
pub run-IsCounted :
    (buffer_size max_total_bytes : ℕ) (es : List Event)
    → IsCounted (count_takes es) (run (initial buffer_size max_total_bytes) es)
run-IsCounted buffer_size max_total_bytes es =
    let r = from-IsCounted es (initial buffer_size max_total_bytes) 0 (omega arith) in
    omega (arith, r)

run-step :
    (u : Users) {v : Users} (e : Event) (es : List Event) → step u e ≡ v → run u (e ∷ es) ≡ run v es
unfolding run
run-step u e es h = ap (λ w. run w es) h

run-nil : (u : Users) → run u [] ≡ u
unfolding run
run-nil u = refl

module _ (size max_buffers : ℕ) (b : Buffer) (rest : List Buffer)
    (some_buffer : 1 ≤ max_buffers) where
  -- The pool and its users, with these idle and allocated, in use, waiting and woken.
  abbrev pub users : List Buffer → ℕ → List Buffer → ℕ → ℕ → Users
  users idle allocated in_use waiting woken = record {
    pool = record {
      buffer_size = size;
      max_buffers = max_buffers;
      state = record { idle = idle; allocated = allocated };
    };
    in_use = in_use;
    waiting = waiting;
    woken = woken;
  }

  acquires-waits :
      (waiting : ℕ)
      → step (users [] max_buffers (b ∷ rest) waiting 0) acquires
        ≡ users [] max_buffers (b ∷ rest) (waiting + 1) 0
  unfolding step acquire_now
  acquires-waits waiting = let no : ltb max_buffers max_buffers ≡ false = ground arith in rw no refl

  releases-returns :
      step (users [] max_buffers (b ∷ rest) 2 0) releases ≡ users (b ∷ []) max_buffers rest 2 0
  unfolding step dropped release
  releases-returns = let yes : ltb 0 max_buffers ≡ true = ground arith in rw yes refl

  wakes-first :
      step (users (b ∷ []) max_buffers rest 2 0) wakes ≡ users (b ∷ []) max_buffers rest 1 1
  unfolding step blocks
  wakes-first = let full : leb max_buffers max_buffers ≡ true = ground arith in rw full refl

  wakes-second :
      step (users (b ∷ []) max_buffers rest 1 1) wakes ≡ users (b ∷ []) max_buffers rest 0 2
  unfolding step blocks
  wakes-second = let full : leb max_buffers max_buffers ≡ true = ground arith in rw full refl

  takes-first :
      step (users (b ∷ []) max_buffers rest 0 2) takes ≡ users [] max_buffers (b ∷ rest) 0 1
  unfolding step acquire_inner
  takes-first = refl

  takes-second :
      step (users [] max_buffers (b ∷ rest) 0 1) takes
      ≡ users [] (max_buffers + 1) ([] ∷ b ∷ rest) 0 0
  unfolding step acquire_inner
  takes-second = refl

  abbrev both_take : List Event
  both_take = takes ∷ takes ∷ []

  abbrev returned : List Event
  returned = releases ∷ wakes ∷ wakes ∷ both_take

  -- Two calls that wait for one buffer.
  abbrev pub two_wait : List Event
  two_wait = acquires ∷ acquires ∷ returned

  -- If a full pool has a buffer in use, and two calls wait when it is released, both see it idle,
  -- and both take one: the second buffer is allocated beyond `max_buffers`.
  pub two_wait-overshoots :
      run (users [] max_buffers (b ∷ rest) 0 0) two_wait
      ≡ users [] (max_buffers + 1) ([] ∷ b ∷ rest) 0 0
  two_wait-overshoots =
      run-step (users [] max_buffers (b ∷ rest) 0 0) acquires (acquires ∷ returned)
        (acquires-waits 0)
      ∙ run-step (users [] max_buffers (b ∷ rest) 1 0) acquires returned (acquires-waits 1)
      ∙ run-step (users [] max_buffers (b ∷ rest) 2 0) releases (wakes ∷ wakes ∷ both_take)
          releases-returns
      ∙ run-step (users (b ∷ []) max_buffers rest 2 0) wakes (wakes ∷ both_take) wakes-first
      ∙ run-step (users (b ∷ []) max_buffers rest 1 1) wakes both_take wakes-second
      ∙ run-step (users (b ∷ []) max_buffers rest 0 2) takes (takes ∷ []) takes-first
      ∙ run-step (users [] max_buffers (b ∷ rest) 0 1) takes [] takes-second
      ∙ run-nil (users [] (max_buffers + 1) ([] ∷ b ∷ rest) 0 0)
