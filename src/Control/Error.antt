-- ===== src/Control/Error.antt =====
-- crates/engine/src/error.rs: the kinds of failure. A constructor of an error ends in `_error`, since
-- that of its category has the name.
use kdown.Prelude.{ℕ, String, Option, none, some}

pub data ErrorCategory : Type 0 where
  configuration : ErrorCategory
  invalid_url : ErrorCategory
  unsupported_scheme : ErrorCategory
  dns : ErrorCategory
  connect_timeout : ErrorCategory
  connection : ErrorCategory
  tls : ErrorCategory
  proxy : ErrorCategory
  authentication_required : ErrorCategory
  authorization_failed : ErrorCategory
  not_found : ErrorCategory
  server : ErrorCategory
  rate_limited : ErrorCategory
  redirect : ErrorCategory
  protocol : ErrorCategory
  range_unsupported : ErrorCategory
  invalid_range_response : ErrorCategory
  resource_changed : ErrorCategory
  unknown_length_unsupported_for_mode : ErrorCategory
  sink_open : ErrorCategory
  sink_write : ErrorCategory
  disk_full : ErrorCategory
  permission_denied : ErrorCategory
  checkpoint : ErrorCategory
  integrity_mismatch : ErrorCategory
  commit : ErrorCategory
  destination_conflict : ErrorCategory
  cancelled : ErrorCategory
  deadline_exceeded : ErrorCategory
  retry_exhausted : ErrorCategory
  memory_cap : ErrorCategory

pub data DownloadError : Type 0 where
  configuration_error : String → DownloadError
  invalid_url_error : String → DownloadError
  unsupported_scheme_error : String → DownloadError
  dns_error : String → DownloadError
  connect_timeout_error : DownloadError
  connection_error : String → DownloadError
  tls_error : String → DownloadError
  proxy_error : String → DownloadError
  authentication_required_error : DownloadError
  authorization_failed_error : DownloadError
  not_found_error : ℕ → DownloadError
  server_error : ℕ → DownloadError
  rate_limited_error : ℕ → DownloadError
  redirect_error : String → DownloadError
  protocol_error : String → DownloadError
  range_unsupported_error : DownloadError
  invalid_range_response_error : String → DownloadError
  resource_changed_error : String → DownloadError
  unknown_length_unsupported_for_mode_error : DownloadError
  sink_open_error : String → DownloadError
  sink_write_error : String → DownloadError
  disk_full_error : String → DownloadError
  permission_denied_error : String → DownloadError
  checkpoint_error : String → DownloadError
  integrity_mismatch_error : String → DownloadError
  commit_error : String → DownloadError
  destination_conflict_error : String → DownloadError
  cancelled_error : DownloadError
  deadline_exceeded_error : DownloadError
  retry_exhausted_error : DownloadError → DownloadError
  memory_cap_exceeded_error : String → ℕ → ℕ → DownloadError
  admission_rejected_error : ℕ → ℕ → DownloadError

unfoldable pub category : DownloadError → ErrorCategory
category (configuration_error x) = configuration
category (invalid_url_error x) = invalid_url
category (unsupported_scheme_error x) = unsupported_scheme
category (dns_error x) = dns
category connect_timeout_error = connect_timeout
category (connection_error x) = connection
category (tls_error x) = tls
category (proxy_error x) = proxy
category authentication_required_error = authentication_required
category authorization_failed_error = authorization_failed
category (not_found_error x) = not_found
category (server_error x) = server
category (rate_limited_error x) = rate_limited
category (redirect_error x) = redirect
category (protocol_error x) = protocol
category range_unsupported_error = range_unsupported
category (invalid_range_response_error x) = invalid_range_response
category (resource_changed_error x) = resource_changed
category unknown_length_unsupported_for_mode_error = unknown_length_unsupported_for_mode
category (sink_open_error x) = sink_open
category (sink_write_error x) = sink_write
category (disk_full_error x) = disk_full
category (permission_denied_error x) = permission_denied
category (checkpoint_error x) = checkpoint
category (integrity_mismatch_error x) = integrity_mismatch
category (commit_error x) = commit
category (destination_conflict_error x) = destination_conflict
category cancelled_error = cancelled
category deadline_exceeded_error = deadline_exceeded
category (retry_exhausted_error x) = retry_exhausted
category (memory_cap_exceeded_error x y z) = memory_cap
category (admission_rejected_error x y) = memory_cap

unfoldable pub http_status : DownloadError → Option ℕ
http_status (not_found_error status) = some status
http_status (server_error status) = some status
http_status (rate_limited_error status) = some status
http_status e = none

pub data Retryability : Type 0 where
  transient : Retryability
  permanent : Retryability
  never : Retryability

-- `ErrorCategory::retryable`, the hint of the taxonomy.
unfoldable pub category_hint : ErrorCategory → Retryability
category_hint dns = transient
category_hint connect_timeout = transient
category_hint connection = transient
category_hint server = transient
category_hint rate_limited = transient
category_hint protocol = transient
category_hint retry_exhausted = transient
category_hint c = never

unfoldable pub retryability : DownloadError → Retryability
unfolding category category_hint
retryability e = category_hint (category e)
