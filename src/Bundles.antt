-- ===== src/Bundles.antt =====
-- apps/backend/src/bundles: the crypto rail. The controller passes the two headers and the body on.
pub mod Service
