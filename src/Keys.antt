-- ===== src/Keys.antt =====
-- The epoch keys: apps/backend/src/keys.
pub mod Examples
pub mod Document
pub mod Health
pub mod Keyring
pub mod Pem
pub mod Service
