-- ===== src/Rotation.antt =====
-- scripts/rotate-epoch.ts and scripts/vault-kv.ts: the tool that adds an epoch to the keyring.
pub mod NextKeyring
pub mod Built
pub mod Accepted
pub mod Sealed
pub mod Retained
pub mod Rotated
pub mod Grace
pub mod Vault
pub mod Examples
