-- ===== src/Payment.antt =====
-- apps/backend/src/payment: the crypto rail's proof of payment, and the rate limiter.
mod Examples
pub mod Decimal
pub mod ClaimSigning
pub mod Claim
pub mod Verifier
pub mod Rejections
pub mod RateLimiter
