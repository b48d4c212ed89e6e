-- ===== src/Issuance.antt =====
-- apps/backend/src/issuance: the path that both rails share.
pub mod Request
pub mod Signing
pub mod Service
