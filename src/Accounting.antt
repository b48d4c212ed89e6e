-- ===== src/Accounting.antt =====
-- apps/backend/src/accounting: the epoch counters and their reconciliation with the ledger.
mod Examples
pub mod EpochCounters
pub mod Reconciliation
pub mod Balance
