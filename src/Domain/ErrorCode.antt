-- ===== src/Domain/ErrorCode.antt =====
-- crates/domain/src/error.rs: the error codes and what a client sees of them.
use panda_server.Prelude.{ℕ, String, Bool, true, false}

pub data ErrorCode : Type 0 where
  invalid_argument unauthenticated permission_denied not_found conflict : ErrorCode
  revision_conflict content_conflict lease_conflict precondition_failed : ErrorCode
  resource_exhausted failed_precondition internal unavailable : ErrorCode

abbrev pub as_str : ErrorCode → String
as_str ErrorCode.invalid_argument = "invalid_argument"
as_str ErrorCode.unauthenticated = "unauthenticated"
as_str ErrorCode.permission_denied = "permission_denied"
as_str ErrorCode.not_found = "not_found"
as_str ErrorCode.conflict = "conflict"
as_str ErrorCode.revision_conflict = "revision_conflict"
as_str ErrorCode.content_conflict = "content_conflict"
as_str ErrorCode.lease_conflict = "lease_conflict"
as_str ErrorCode.precondition_failed = "precondition_failed"
as_str ErrorCode.resource_exhausted = "resource_exhausted"
as_str ErrorCode.failed_precondition = "failed_precondition"
as_str ErrorCode.internal = "internal"
as_str ErrorCode.unavailable = "unavailable"

abbrev pub http_status : ErrorCode → ℕ
http_status ErrorCode.invalid_argument = 400
http_status ErrorCode.unauthenticated = 401
http_status ErrorCode.permission_denied = 403
http_status ErrorCode.not_found = 404
http_status ErrorCode.conflict = 409
http_status ErrorCode.revision_conflict = 409
http_status ErrorCode.content_conflict = 409
http_status ErrorCode.lease_conflict = 409
http_status ErrorCode.precondition_failed = 428
http_status ErrorCode.failed_precondition = 428
http_status ErrorCode.resource_exhausted = 429
http_status ErrorCode.unavailable = 503
http_status ErrorCode.internal = 500

abbrev pub retryable : ErrorCode → Bool
retryable ErrorCode.unavailable = true
retryable ErrorCode.resource_exhausted = true
retryable ErrorCode.internal = true
retryable _ = false
