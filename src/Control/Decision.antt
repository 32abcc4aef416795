-- ===== src/Control/Decision.antt =====
-- What crates/engine/src/control/retry.rs retries, and when.
use kdown.Prelude.{
  ℕ, ◌+◌, max, ◌≤◌, ◌<◌, Bool, true, ◌≡◌, refl, Option, none, some, leb, leb→lt, arith, Bool-cases,
  Option-cases, inl, inr,
}
use kdown.Control.Error.{
  DownloadError, configuration_error, invalid_url_error, unsupported_scheme_error, dns_error,
  connect_timeout_error, connection_error, tls_error, proxy_error, authentication_required_error,
  authorization_failed_error, not_found_error, server_error, rate_limited_error, redirect_error,
  protocol_error, range_unsupported_error, invalid_range_response_error, resource_changed_error,
  unknown_length_unsupported_for_mode_error, sink_open_error, sink_write_error, disk_full_error,
  permission_denied_error, checkpoint_error, integrity_mismatch_error, commit_error,
  destination_conflict_error, cancelled_error, deadline_exceeded_error, retry_exhausted_error,
  memory_cap_exceeded_error, admission_rejected_error, category, http_status, transient,
  retryability,
}
use kdown.Control.Retry.{
  RetryPolicy, retries, retryable, honor_retry_after, is_cancelled, longer, decide,
}

retryable-retryability :
    (p : RetryPolicy) (err : DownloadError) → retryable p err ≡ true → retryability err ≡ transient
unfolding retryable category http_status retryability
retryable-retryability p (configuration_error x) h = absurd (ground (arith, h))
retryable-retryability p (invalid_url_error x) h = absurd (ground (arith, h))
retryable-retryability p (unsupported_scheme_error x) h = absurd (ground (arith, h))
retryable-retryability p (dns_error x) h = refl
retryable-retryability p connect_timeout_error h = refl
retryable-retryability p (connection_error x) h = refl
retryable-retryability p (tls_error x) h = absurd (ground (arith, h))
retryable-retryability p (proxy_error x) h = absurd (ground (arith, h))
retryable-retryability p authentication_required_error h = absurd (ground (arith, h))
retryable-retryability p authorization_failed_error h = absurd (ground (arith, h))
retryable-retryability p (not_found_error x) h = absurd (ground (arith, h))
retryable-retryability p (server_error x) h = refl
retryable-retryability p (rate_limited_error x) h = refl
retryable-retryability p (redirect_error x) h = absurd (ground (arith, h))
retryable-retryability p (protocol_error x) h = refl
retryable-retryability p range_unsupported_error h = absurd (ground (arith, h))
retryable-retryability p (invalid_range_response_error x) h = absurd (ground (arith, h))
retryable-retryability p (resource_changed_error x) h = absurd (ground (arith, h))
retryable-retryability p unknown_length_unsupported_for_mode_error h = absurd (ground (arith, h))
retryable-retryability p (sink_open_error x) h = absurd (ground (arith, h))
retryable-retryability p (sink_write_error x) h = absurd (ground (arith, h))
retryable-retryability p (disk_full_error x) h = absurd (ground (arith, h))
retryable-retryability p (permission_denied_error x) h = absurd (ground (arith, h))
retryable-retryability p (checkpoint_error x) h = absurd (ground (arith, h))
retryable-retryability p (integrity_mismatch_error x) h = absurd (ground (arith, h))
retryable-retryability p (commit_error x) h = absurd (ground (arith, h))
retryable-retryability p (destination_conflict_error x) h = absurd (ground (arith, h))
retryable-retryability p cancelled_error h = absurd (ground (arith, h))
retryable-retryability p deadline_exceeded_error h = absurd (ground (arith, h))
retryable-retryability p (retry_exhausted_error x) h = refl
retryable-retryability p (memory_cap_exceeded_error x y z) h = absurd (ground (arith, h))
retryable-retryability p (admission_rejected_error x y) h = absurd (ground (arith, h))

-- The policy's switch for status 408 changes no answer of the classifier on any error.
pub retry_408_unused :
    (p : RetryPolicy) (err : DownloadError) (flag : Bool)
    → retryable (record p { retry_408 = flag }) err ≡ retryable p err
unfolding retryable category http_status
retry_408_unused p (configuration_error x) flag = refl
retry_408_unused p (invalid_url_error x) flag = refl
retry_408_unused p (unsupported_scheme_error x) flag = refl
retry_408_unused p (dns_error x) flag = refl
retry_408_unused p connect_timeout_error flag = refl
retry_408_unused p (connection_error x) flag = refl
retry_408_unused p (tls_error x) flag = refl
retry_408_unused p (proxy_error x) flag = refl
retry_408_unused p authentication_required_error flag = refl
retry_408_unused p authorization_failed_error flag = refl
retry_408_unused p (not_found_error x) flag = refl
retry_408_unused p (server_error x) flag = refl
retry_408_unused p (rate_limited_error x) flag = refl
retry_408_unused p (redirect_error x) flag = refl
retry_408_unused p (protocol_error x) flag = refl
retry_408_unused p range_unsupported_error flag = refl
retry_408_unused p (invalid_range_response_error x) flag = refl
retry_408_unused p (resource_changed_error x) flag = refl
retry_408_unused p unknown_length_unsupported_for_mode_error flag = refl
retry_408_unused p (sink_open_error x) flag = refl
retry_408_unused p (sink_write_error x) flag = refl
retry_408_unused p (disk_full_error x) flag = refl
retry_408_unused p (permission_denied_error x) flag = refl
retry_408_unused p (checkpoint_error x) flag = refl
retry_408_unused p (integrity_mismatch_error x) flag = refl
retry_408_unused p (commit_error x) flag = refl
retry_408_unused p (destination_conflict_error x) flag = refl
retry_408_unused p cancelled_error flag = refl
retry_408_unused p deadline_exceeded_error flag = refl
retry_408_unused p (retry_exhausted_error x) flag = refl
retry_408_unused p (memory_cap_exceeded_error x y z) flag = refl
retry_408_unused p (admission_rejected_error x y) flag = refl

honored_le :
    (p : RetryPolicy) (after : Option ℕ) (d : ℕ)
    → honor_retry_after p after ≡ some d
    → d ≤ p.retry_after_max
unfolding honor_retry_after
honored_le p none d h = absurd (cc)
honored_le p (some x) d h = ground (arith, h)

delay_lem :
    (p : RetryPolicy) (after : Option ℕ) (backoff : ℕ)
    → (backoff ≤ longer (honor_retry_after p after) backoff)
      × (longer (honor_retry_after p after) backoff ≤ max backoff p.retry_after_max)
unfolding longer
delay_lem p after backoff = elim (Option-cases (honor_retry_after p after)) [
  | inl e ↦ rw e (omega arith, omega arith)
  | inr (x, e) ↦ rw e (omega arith, omega (arith, honored_le p after x e))
]

-- A retry is decided only for an error that the taxonomy calls transient and below the limit of
-- attempts; it counts the attempt, and waits at least the backoff and at most the longer of the
-- backoff and the cap on a server's Retry-After.
pub decide_retries :
    (p : RetryPolicy) (err : DownloadError) (attempt : ℕ) (after : Option ℕ) (backoff n d : ℕ)
    → decide p err attempt after backoff ≡ retries n d
    → (retryability err ≡ transient)
      × (attempt < p.max_attempts_per_segment)
      × (n ≡ attempt + 1)
      × (backoff ≤ d)
      × (d ≤ max backoff p.retry_after_max)
unfolding decide
decide_retries p err attempt after backoff n d h =
    let (least, most) = delay_lem p after backoff in
    elim (Bool-cases (is_cancelled (category err))) [
      | inl c ↦ absurd (ground (arith, h, c))
      | inr c ↦ elim (Bool-cases (retryable p err)) [
        | inr r ↦ absurd (ground (arith, h, c, r))
        | inl r ↦ elim (Bool-cases (leb p.max_attempts_per_segment attempt)) [
          | inl l ↦ absurd (ground (arith, h, c, r, l))
          | inr l ↦
              let same : (attempt + 1 ≡ n) × (longer (honor_retry_after p after) backoff ≡ d) =
                ground (arith, h, c, r, l) in
              (
                retryable-retryability p err r,
                leb→lt p.max_attempts_per_segment attempt l,
                omega arith,
                omega arith,
                omega arith,
              )
        ]
      ]
    ]
