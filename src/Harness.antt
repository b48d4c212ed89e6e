-- ===== src/Harness.antt =====
-- packages/buyer-harness/src: the client that buys a bundle and judges the issuer's answer.
pub mod Outcome
pub mod Payment
pub mod Client
pub mod Conformance
pub mod Issued
pub mod Claims
pub mod Blinding
pub mod Purchase
pub mod Cli
mod Examples
