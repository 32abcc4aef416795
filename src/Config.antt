-- ===== src/Config.antt =====
-- crates/engine/src/config.rs: the configuration of the engine and its validation. A record has the
-- fields that are validated; durations are in milliseconds. An error has the field that it names. The
-- multiplier's comparison of floats and the port of a proxy's URL, which a library reads, are
-- arguments.
pub mod Feasible
pub mod Examples
use kdown.Prelude.{
  ℕ, ◌+◌, ◌*◌, min, max, Bool, true, false, not, ◌&&◌, ◌||◌, Option, none, some, List, [], ◌∷◌,
  ◌++◌, ltb, leb, ◌==◌, if◌then◌else◌, String, saturating_mul, u64_max, Result, ok, err,
}

pub record ConfigurationError : Type 0 where
  pub field : String

abbrev pub ingress_window_cap : ℕ
ingress_window_cap = 2 * 1024 * 1024

abbrev pub max_header_list_bytes : ℕ
max_header_list_bytes = 64 * 1024

abbrev pub min_checkpoint_bytes : ℕ
min_checkpoint_bytes = 256

pub record TransferMemoryConfig : Type 0 where
  pub aggregate_max_bytes : ℕ
  pub job_max_bytes : ℕ
  pub network_ingress_max_bytes : ℕ
  pub frames_max_bytes : ℕ
  pub writer_max_bytes : ℕ
  pub checkpoint_max_bytes : ℕ

pub record PoolConfig : Type 0 where
  pub max_total : ℕ
  pub max_per_origin : ℕ
  pub idle_timeout : ℕ

pub record WriteBudgetConfig : Type 0 where
  pub global_max_bytes : ℕ
  pub job_max_bytes : ℕ
  pub worker_read_ahead_bytes : ℕ

pub record WriteExecutorConfig : Type 0 where
  pub writer_threads : ℕ
  pub max_queued_bytes : ℕ

pub record TransferPolicy : Type 0 where
  pub max_workers : ℕ
  pub min_workers : ℕ
  pub initial_segment_size : ℕ
  pub min_segment_size : ℕ
  pub max_segment_size : ℕ
  pub auto_oversubscription : ℕ

pub record RetryPolicy : Type 0 where
  pub max_attempts_per_segment : ℕ
  pub base_delay : ℕ
  pub max_delay : ℕ
  pub multiplier_below_one : Bool  -- `multiplier < 1.0`

pub record NetworkPolicy : Type 0 where
  pub connect_timeout : ℕ
  pub tls_handshake_timeout : ℕ
  pub response_header_timeout : ℕ
  pub read_idle_timeout : ℕ

pub data H2ConnectionPolicy : Type 0 where
  single : H2ConnectionPolicy
  additional : ℕ → H2ConnectionPolicy

-- A proxy's URL as the port that is read from it, none if it does not parse.
pub data ProxyConfig : Type 0 where
  no_proxy : ProxyConfig
  http_proxy : Option ℕ → ProxyConfig
  socks5_proxy : Option ℕ → ProxyConfig

pub record EngineConfig : Type 0 where
  pub max_active_jobs : ℕ
  pub max_connections_total : ℕ
  pub max_connections_per_origin : ℕ
  pub read_buffer_size : ℕ
  pub buffer_pool_max_bytes : ℕ
  pub checkpoint_flush_interval : ℕ
  pub metrics_interval : ℕ
  pub pool : PoolConfig
  pub h2_policy : H2ConnectionPolicy
  pub proxy : ProxyConfig
  pub transfer : TransferPolicy
  pub retry : RetryPolicy
  pub network : NetworkPolicy
  pub write_budget : WriteBudgetConfig
  pub transfer_memory : TransferMemoryConfig
  pub write_executor : WriteExecutorConfig
  pub global_rate_limit : Option ℕ

-- A violation, and the field to name for it. The first that holds is the error.
abbrev pub Check : Type 0
Check = Bool × String

unfoldable pub first_violation : List Check → Result ConfigurationError (Unit {0})
first_violation [] = ok tt
first_violation (c ∷ rest) = if c.0 then err (record { field = c.1 }) else first_violation rest

unfoldable pub connection_ingress_footprint : TransferMemoryConfig → ℕ → ℕ
connection_ingress_footprint m read_buffer_size =
    max (min ingress_window_cap m.network_ingress_max_bytes)
      (min read_buffer_size m.network_ingress_max_bytes)
    + min max_header_list_bytes m.network_ingress_max_bytes

unfoldable pub connection_ingress_reserve : TransferMemoryConfig → ℕ → ℕ → ℕ
unfolding connection_ingress_footprint
connection_ingress_reserve m read_buffer_size max_connections_total =
    saturating_mul (connection_ingress_footprint m read_buffer_size) max_connections_total

-- `checked_mul` and `checked_add`: none on overflow.
abbrev pub checked_reserve : ℕ → ℕ → ℕ → Option ℕ
checked_reserve connections footprint job =
    if ltb u64_max (connections * footprint)
    then none
    else if ltb u64_max (connections * footprint + job)
    then none
    else some (connections * footprint + job)

abbrev pub exceeds : Option ℕ → ℕ → Bool
exceeds none limit = true
exceeds (some n) limit = ltb limit n

abbrev pub memory_checks : TransferMemoryConfig → EngineConfig → List Check
memory_checks m engine =
    (m.aggregate_max_bytes == 0, "transfer_memory.aggregate_max_bytes")
    ∷ (m.job_max_bytes == 0, "transfer_memory.job_max_bytes")
    ∷ (m.network_ingress_max_bytes == 0, "transfer_memory.network_ingress_max_bytes")
    ∷ (m.frames_max_bytes == 0, "transfer_memory.frames_max_bytes")
    ∷ (m.writer_max_bytes == 0, "transfer_memory.writer_max_bytes")
    ∷ (m.checkpoint_max_bytes == 0, "transfer_memory.checkpoint_max_bytes")
    ∷ (ltb m.job_max_bytes m.network_ingress_max_bytes, "transfer_memory.network_ingress_max_bytes")
    ∷ (ltb m.job_max_bytes m.frames_max_bytes, "transfer_memory.frames_max_bytes")
    ∷ (ltb m.job_max_bytes m.writer_max_bytes, "transfer_memory.writer_max_bytes")
    ∷ (ltb m.job_max_bytes m.checkpoint_max_bytes, "transfer_memory.checkpoint_max_bytes")
    ∷ (ltb m.aggregate_max_bytes m.job_max_bytes, "transfer_memory.job_max_bytes")
    ∷ (
      ltb m.network_ingress_max_bytes engine.read_buffer_size,
      "transfer_memory.network_ingress_max_bytes",
    )
    ∷ (ltb m.frames_max_bytes engine.read_buffer_size, "transfer_memory.frames_max_bytes")
    ∷ (ltb m.checkpoint_max_bytes min_checkpoint_bytes, "transfer_memory.checkpoint_max_bytes")
    ∷ (m.aggregate_max_bytes == u64_max, "transfer_memory.aggregate_max_bytes")
    ∷ (
      exceeds
          (checked_reserve engine.max_connections_total
            (connection_ingress_footprint m engine.read_buffer_size) m.job_max_bytes)
          m.aggregate_max_bytes,
      "transfer_memory.aggregate_max_bytes",
    )
    ∷ (ltb m.job_max_bytes engine.write_budget.job_max_bytes, "write_budget.job_max_bytes")
    ∷ (
      ltb m.aggregate_max_bytes engine.write_budget.global_max_bytes,
      "write_budget.global_max_bytes",
    )
    ∷ (
      ltb m.writer_max_bytes engine.write_budget.worker_read_ahead_bytes,
      "write_budget.worker_read_ahead_bytes",
    )
    ∷ (
      ltb m.aggregate_max_bytes engine.write_executor.max_queued_bytes,
      "write_executor.max_queued_bytes",
    )
    ∷ []

abbrev pub transfer_checks : TransferPolicy → List Check
transfer_checks t =
    (t.max_workers == 0, "transfer.max_workers")
    ∷ (t.min_workers == 0 || ltb t.max_workers t.min_workers, "transfer.min_workers")
    ∷ (t.min_segment_size == 0, "transfer.min_segment_size")
    ∷ (ltb t.max_segment_size t.min_segment_size, "transfer.max_segment_size")
    ∷ (
      ltb t.initial_segment_size t.min_segment_size
          || ltb t.max_segment_size t.initial_segment_size,
      "transfer.initial_segment_size",
    )
    ∷ (t.auto_oversubscription == 0, "transfer.auto_oversubscription")
    ∷ []

abbrev pub retry_checks : RetryPolicy → List Check
retry_checks r =
    (r.max_attempts_per_segment == 0, "retry.max_attempts_per_segment")
    ∷ (r.base_delay == 0, "retry.base_delay")
    ∷ (ltb r.max_delay r.base_delay, "retry.max_delay")
    ∷ (r.multiplier_below_one, "retry.multiplier")
    ∷ []

abbrev pub network_checks : NetworkPolicy → List Check
network_checks n =
    (n.connect_timeout == 0, "network.connect_timeout")
    ∷ (n.tls_handshake_timeout == 0, "network.tls_handshake_timeout")
    ∷ (n.response_header_timeout == 0, "network.response_header_timeout")
    ∷ (n.read_idle_timeout == 0, "network.read_idle_timeout")
    ∷ []

abbrev pub pool_checks : PoolConfig → ℕ → ℕ → List Check
pool_checks p max_total max_per_origin =
    (p.max_total == 0 || p.max_per_origin == 0, "pool.max_total/max_per_origin")
    ∷ (ltb p.max_total p.max_per_origin, "pool.max_per_origin")
    ∷ (not (max_total == p.max_total) || not (max_per_origin == p.max_per_origin), "pool.max_total")
    ∷ (p.idle_timeout == 0, "pool.idle_timeout")
    ∷ []

abbrev pub is_zero_limit : Option ℕ → Bool
is_zero_limit none = false
is_zero_limit (some n) = n == 0

-- The port of the URL, 0 if it names none.
abbrev pub lacks_port : Option ℕ → Bool
lacks_port none = true
lacks_port (some port) = port == 0

abbrev pub bad_proxy : ProxyConfig → Bool
bad_proxy no_proxy = false
bad_proxy (http_proxy port) = lacks_port port
bad_proxy (socks5_proxy port) = lacks_port port

abbrev pub bad_h2 : H2ConnectionPolicy → Bool
bad_h2 single = false
bad_h2 (additional max_connections) = max_connections == 0

-- Up to the call for `transfer_memory`.
abbrev pub engine_checks : EngineConfig → List Check
engine_checks c =
    (c.max_active_jobs == 0, "max_active_jobs")
    ∷ (c.max_connections_total == 0 || c.max_connections_per_origin == 0, "max_connections_*")
    ∷ (ltb c.max_connections_total c.max_connections_per_origin, "max_connections_per_origin")
    ∷ (ltb c.read_buffer_size 4096, "read_buffer_size")
    ∷ (ltb c.buffer_pool_max_bytes c.read_buffer_size, "buffer_pool_max_bytes")
    ∷ (
      c.write_budget.global_max_bytes == 0
          || c.write_budget.job_max_bytes == 0
          || c.write_budget.worker_read_ahead_bytes == 0,
      "write_budget.*",
    )
    ∷ (
      ltb c.write_budget.global_max_bytes c.write_budget.job_max_bytes,
      "write_budget.job_max_bytes",
    )
    ∷ (is_zero_limit c.global_rate_limit, "global_rate_limit")
    ∷ (
      ltb c.write_budget.job_max_bytes c.write_budget.worker_read_ahead_bytes,
      "write_budget.worker_read_ahead_bytes",
    )
    ∷ (
      ltb c.write_budget.worker_read_ahead_bytes c.read_buffer_size,
      "write_budget.worker_read_ahead_bytes",
    )
    ∷ (c.write_executor.writer_threads == 0, "write_executor.writer_threads")
    ∷ (ltb c.write_executor.max_queued_bytes c.read_buffer_size, "write_executor.max_queued_bytes")
    ∷ []

-- After it.
abbrev pub later_checks : EngineConfig → List Check
later_checks c =
    (
      c.checkpoint_flush_interval == 0 || c.metrics_interval == 0,
      "checkpoint_flush_interval/metrics_interval",
    )
      ∷ transfer_checks c.transfer
    ++ retry_checks c.retry
    ++ network_checks c.network
    ++ pool_checks c.pool c.max_connections_total c.max_connections_per_origin
    ++ (bad_proxy c.proxy, "proxy.url") ∷ (bad_h2 c.h2_policy, "h2_policy.max_connections") ∷ []

unfoldable pub validate : EngineConfig → Result ConfigurationError (Unit {0})
unfolding first_violation connection_ingress_footprint
validate c =
    first_violation (engine_checks c ++ memory_checks c.transfer_memory c ++ later_checks c)
