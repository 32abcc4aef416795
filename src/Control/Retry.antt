-- ===== src/Control/Retry.antt =====
-- crates/engine/src/control/retry.rs: whether and when a failed operation is tried again. A duration
-- is a number of nanoseconds; the delay that `backoff_delay` draws at random is an argument.
use kdown.Prelude.{
  ℕ, ◌+◌, min, max, Bool, true, false, not, Option, none, some, leb, ◌==◌, if◌then◌else◌,
}
use kdown.Control.Error.{
  ErrorCategory, dns, connect_timeout, connection, server, rate_limited, protocol, cancelled,
  retry_exhausted, DownloadError, category, http_status,
}

-- The fields of `RetryPolicy` that the decision reads.
pub record RetryPolicy : Type 0 where
  pub max_attempts_per_segment : ℕ
  pub retry_408 : Bool
  pub retry_429 : Bool
  pub retry_5xx : Bool
  pub honors_retry_after : Bool  -- `honor_retry_after`
  pub retry_after_max : ℕ

pub data RetryDecision : Type 0 where
  retries : ℕ → ℕ → RetryDecision  -- `Retry { attempt, delay }`
  gives_up : RetryDecision

abbrev pub is_timeout : Option ℕ → Bool
is_timeout (some status) = status == 408
is_timeout none = false

abbrev pub category_retryable : RetryPolicy → Option ℕ → ErrorCategory → Bool
category_retryable p status dns = true
category_retryable p status connect_timeout = true
category_retryable p status connection = true
category_retryable p status retry_exhausted = true
category_retryable p status server = p.retry_5xx
category_retryable p status rate_limited = p.retry_429
category_retryable p status protocol = if is_timeout status then p.retry_408 else true
category_retryable p status c = false

unfoldable pub retryable : RetryPolicy → DownloadError → Bool
retryable p err = category_retryable p (http_status err) (category err)

unfoldable pub honor_retry_after : RetryPolicy → Option ℕ → Option ℕ
honor_retry_after p none = none
honor_retry_after p (some d) =
    if not p.honors_retry_after
    then none
    else if min d p.retry_after_max == 0
    then none
    else some (min d p.retry_after_max)

abbrev pub is_cancelled : ErrorCategory → Bool
is_cancelled cancelled = true
is_cancelled c = false

unfoldable pub longer : Option ℕ → ℕ → ℕ
longer (some ra) backoff = max ra backoff
longer none backoff = backoff

unfoldable pub decide : RetryPolicy → DownloadError → ℕ → Option ℕ → ℕ → RetryDecision
decide p err attempt retry_after backoff =
    if is_cancelled (category err)
    then gives_up
    else if not (retryable p err)
    then gives_up
    else if leb p.max_attempts_per_segment attempt
    then gives_up
    else retries (attempt + 1) (longer (honor_retry_after p retry_after) backoff)
