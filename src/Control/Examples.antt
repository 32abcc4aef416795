-- ===== src/Control/Examples.antt =====
-- Tests of crates/engine/src/control/retry.rs, and instances of its theorems.
use kdown.Prelude.{◌+◌, max, ◌≤◌, ◌<◌, true, false, ◌≡◌, refl, some, none}
use kdown.Control.Error.{
  protocol_error, server_error, category, http_status, transient, retryability,
}
use kdown.Control.Retry.{
  RetryPolicy, retries, gives_up, retryable, honor_retry_after, longer, decide,
}
use kdown.Control.Decision.{retry_408_unused, decide_retries}

abbrev policy : RetryPolicy
policy = record {
  max_attempts_per_segment = 3;
  retry_408 = true;
  retry_429 = true;
  retry_5xx = true;
  honors_retry_after = true;
  retry_after_max = 120;
}

server_waits : decide policy (server_error 503) 1 (some 500) 40 ≡ retries 2 120
unfolding decide retryable category http_status honor_retry_after longer
server_waits = refl

last_attempt : decide policy (server_error 503) 3 none 40 ≡ gives_up
unfolding decide retryable category http_status
last_attempt = refl

retry_408_unused_example :
    retryable (record policy { retry_408 = false }) (protocol_error "408")
    ≡ retryable policy (protocol_error "408")
retry_408_unused_example = retry_408_unused policy (protocol_error "408") false

decide_retries_example :
    (retryability (server_error 503) ≡ transient)
    × (1 < 3)
    × (2 ≡ 1 + 1)
    × (40 ≤ 120)
    × (120 ≤ max 40 policy.retry_after_max)
decide_retries_example = decide_retries policy (server_error 503) 1 (some 500) 40 2 120 server_waits
