-- ===== src/Signing.antt =====
-- The blind signing: apps/backend/src/signing.
pub mod Pool
pub mod RsaRaw
pub mod Suite
pub mod BlindSigner
mod Examples
