-- ===== src/Entitlements.antt =====
-- apps/backend/src/entitlements: the fiat rail.
pub mod Receipt
pub mod Uuid
pub mod Service
