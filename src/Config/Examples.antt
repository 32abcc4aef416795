-- ===== src/Config/Examples.antt =====
-- Tests of crates/engine/src/config.rs, and instances of its theorems.
use kdown.Prelude.{◌*◌, false, ◌≡◌, refl, none, arith, ok, err}
use kdown.Config.{
  EngineConfig, validate, first_violation, connection_ingress_footprint, no_proxy, single,
}
use kdown.Config.Feasible.{idle_budgets, frame_reserved}
use kdown.Io.Budget.{holds, reserve, poll}

-- A configuration that passes.
abbrev standard : EngineConfig
standard = record {
  max_active_jobs = 4;
  max_connections_total = 64;
  max_connections_per_origin = 16;
  read_buffer_size = 128 * 1024;
  buffer_pool_max_bytes = 64 * 1024 * 1024;
  checkpoint_flush_interval = 2000;
  metrics_interval = 500;
  pool = record { max_total = 64; max_per_origin = 16; idle_timeout = 90000 };
  h2_policy = single;
  proxy = no_proxy;
  transfer = record {
    max_workers = 16;
    min_workers = 1;
    initial_segment_size = 4 * 1024 * 1024;
    min_segment_size = 1024 * 1024;
    max_segment_size = 64 * 1024 * 1024;
    auto_oversubscription = 4;
  };
  retry = record {
    max_attempts_per_segment = 5;
    base_delay = 500;
    max_delay = 30000;
    multiplier_below_one = false;
  };
  network = record {
    connect_timeout = 10000;
    tls_handshake_timeout = 10000;
    response_header_timeout = 30000;
    read_idle_timeout = 30000;
  };
  write_budget = record {
    global_max_bytes = 64 * 1024 * 1024;
    job_max_bytes = 4 * 1024 * 1024;
    worker_read_ahead_bytes = 1024 * 1024;
  };
  transfer_memory = record {
    aggregate_max_bytes = 1024 * 1024 * 1024;
    job_max_bytes = 8 * 1024 * 1024;
    network_ingress_max_bytes = 8 * 1024 * 1024;
    frames_max_bytes = 2 * 1024 * 1024;
    writer_max_bytes = 2 * 1024 * 1024;
    checkpoint_max_bytes = 1024 * 1024;
  };
  write_executor = record { writer_threads = 2; max_queued_bytes = 32 * 1024 * 1024 };
  global_rate_limit = none;
}

standard-validate : validate standard ≡ ok tt
unfolding validate first_violation connection_ingress_footprint
standard-validate = refl

-- A worker's budget below a frame is refused.
abbrev narrow : EngineConfig
narrow = record standard {
  write_budget = record standard.write_budget { worker_read_ahead_bytes = 4096 };
}

narrow_refused : validate narrow ≡ err (record { field = "write_budget.worker_read_ahead_bytes" })
unfolding validate first_violation connection_ingress_footprint
narrow_refused = refl

frame_reserved_example :
    (poll
      (poll (idle_budgets standard standard-validate) (reserve 4096)).0
      (poll (idle_budgets standard standard-validate) (reserve 4096)).1).1
    ≡ holds 4096
frame_reserved_example = frame_reserved standard standard-validate 4096 (omega arith) (omega arith)
