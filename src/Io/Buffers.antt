-- ===== src/Io/Buffers.antt =====
-- crates/engine/src/io/buffer_pool.rs: the pool of byte buffers. A buffer is the list of its bytes.
pub mod Bounds
pub mod Examples
use kdown.Prelude.{
  ℕ, zero, suc, ◌+◌, ◌-◌, ◌*◌, ◌/◌, max, Bool, true, false, ◌&&◌, ◌||◌, not, Option, none, some,
  List, [], ◌∷◌, ltb, leb, if◌then◌else◌, length, saturating_sub,
}

abbrev pub Buffer : Type 0
Buffer = List ℕ

pub record PoolState : Type 0 where
  pub idle : List Buffer
  pub allocated : ℕ

pub record BufferPool : Type 0 where
  pub buffer_size : ℕ
  pub max_buffers : ℕ
  pub state : PoolState

abbrev pub new : ℕ → ℕ → BufferPool
new buffer_size max_total_bytes = record {
  buffer_size = max buffer_size 1;
  max_buffers = max (max_total_bytes / max buffer_size 1) 1;
  state = record { idle = []; allocated = 0 };
}

abbrev pub bytes_outstanding : BufferPool → ℕ
bytes_outstanding p = p.state.allocated * p.buffer_size

-- `Vec` pops and pushes at its end, the head here.
abbrev pub pop_or_allocate : List Buffer → ℕ → PoolState × Buffer
pop_or_allocate [] allocated = (record { idle = []; allocated = allocated + 1 }, [])
pop_or_allocate (b ∷ rest) allocated = (record { idle = rest; allocated = allocated }, b)

unfoldable pub acquire_inner : PoolState → PoolState × Buffer
acquire_inner st = pop_or_allocate st.idle st.allocated

abbrev pub is_idle_empty : PoolState → Bool
is_idle_empty st = elim st.idle [ [] ↦ true | b ∷ rest ↦ false ]

unfoldable pub try_acquire : BufferPool → Option (PoolState × Buffer)
unfolding acquire_inner
try_acquire p =
    if is_idle_empty p.state && leb p.max_buffers p.state.allocated
    then none
    else some (acquire_inner p.state)

-- `acquire` before it waits: none if it goes on to wait.
unfoldable pub acquire_now : BufferPool → Option (PoolState × Buffer)
unfolding acquire_inner
acquire_now p =
    if ltb p.state.allocated p.max_buffers || not (is_idle_empty p.state)
    then some (acquire_inner p.state)
    else none

-- The test of the loop of `block_until_available`: whether it waits on.
unfoldable pub blocks : BufferPool → Bool
blocks p = leb p.max_buffers p.state.allocated && is_idle_empty p.state

unfoldable pub release : BufferPool → Buffer → PoolState
release p b =
    if ltb (length p.state.idle) p.max_buffers
    then record p.state { idle = b ∷ p.state.idle }
    else record p.state { allocated = saturating_sub p.state.allocated 1 }
