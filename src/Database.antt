-- ===== src/Database.antt =====
-- The stores: the Postgres tables of the entities, and the sorted sets of Redis that the rate
-- limiter keeps. A column that no code reads (identifiers and time stamps that the database fills
-- in) is left out, and a `bigint` is a number.
-- (apps/backend/src: issuance/*.entity.ts, accounting/*.entity.ts, entitlements/entitlement.entity.ts)
use credentials_issuer.Prelude.{ℕ, List, [], Str}
use credentials_issuer.Prelude.Int.{ℤ}
use credentials_issuer.Prelude.Result.{RejectionReason}

pub record IdempotencyRecord : Type 0 where
  pub payment_ref : Str
  pub idempotency_key : Str
  pub request_fingerprint : Str

pub record IssuanceRecord : Type 0 where
  pub payment_ref : Str
  pub epoch : Str
  pub bundle_count : ℕ

pub record EpochCounter : Type 0 where
  pub epoch : Str
  pub bundle_size : ℕ
  pub bundles_paid : ℕ
  pub signatures_issued : ℕ

pub record ClaimRejection : Type 0 where
  pub reason : RejectionReason
  pub count : ℕ

pub data AlarmKind : Type 0 where
  overissuance underissuance ledger_mismatch : AlarmKind

pub record ReconciliationAlarm : Type 0 where
  pub epoch : Str
  pub kind : AlarmKind
  pub expected : ℕ
  pub actual : ℕ
  pub delta : ℤ

-- Times are milliseconds.
pub record Entitlement : Type 0 where
  pub entitlement_id : Str
  pub receipt_hash : Str
  pub drip_interval_seconds : ℕ
  pub next_drip_at : ℕ
  pub drips_issued : ℕ

-- A sorted set holds the scores of its members, and is deleted when it expires.
pub record SortedSet : Type 0 where
  pub key : Str
  pub scores : List ℕ
  pub expires_at : ℕ

pub record Database : Type 0 where
  pub idempotency_records : List IdempotencyRecord
  pub issuance_records : List IssuanceRecord
  pub epoch_counters : List EpochCounter
  pub claim_rejections : List ClaimRejection
  pub alarms : List ReconciliationAlarm
  pub entitlements : List Entitlement

pub record Stores : Type 0 where
  pub database : Database
  pub open database use *
  pub redis : List SortedSet

abbrev pub empty_database : Database
empty_database = record {
  idempotency_records = [];
  issuance_records = [];
  epoch_counters = [];
  claim_rejections = [];
  alarms = [];
  entitlements = [];
}

abbrev pub empty_stores : Stores
empty_stores = record { database = empty_database; redis = [] }
