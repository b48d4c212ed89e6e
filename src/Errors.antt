-- ===== src/Errors.antt =====
-- apps/backend/src/errors: the HTTP statuses, and the strict base64 decoder of base64.ts.
-- A byte is a number below 256, and a `Buffer` a list of bytes.
mod Examples
pub mod Base64
use credentials_issuer.Prelude.{ℕ}
use credentials_issuer.Prelude.Result.{
  ErrorCode, request_invalid, bundle_size, blank_format, claim_invalid, idempotency_conflict,
  rate_limited, wrong_epoch, receipt_invalid, entitlement_unknown, not_due,
}

-- `STATUS`, as the numbers of `HttpStatus`.
unfoldable pub status : ErrorCode → ℕ
status request_invalid = 400
status bundle_size = 400
status blank_format = 400
status claim_invalid = 402
status idempotency_conflict = 409
status rate_limited = 429
status wrong_epoch = 400
status receipt_invalid = 400
status entitlement_unknown = 404
status not_due = 409
