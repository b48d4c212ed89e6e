-- ===== src/Issuance/Service/Committed.antt =====
-- What the transaction of `record` has written when it commits.
use credentials_issuer.Prelude.{
  ℕ, ◌≡◌, refl, sym, ap, ◌∙◌, false, Option, none, some, List, ◌∷◌, Str, length, arith, inl, inr,
  any, Bool-cases,
}
use credentials_issuer.Prelude.Result.{ok}
use credentials_issuer.Effect.{Action}
use credentials_issuer.Database.{IdempotencyRecord, IssuanceRecord, EpochCounter, Stores}
use credentials_issuer.Accounting.EpochCounters.{bundle_paid, signatures_issued}
use credentials_issuer.Issuance.Request.{BundleRequest}
use credentials_issuer.Issuance.Signing.{BundleResponse}
use credentials_issuer.Issuance.Service.{IssuanceGrant, has_key, consume_grant, record_body}

-- A grant whose bookkeeping leaves the ledger, the counters and the claimed keys alone.
pub record KeepsLedger (grant : IssuanceGrant) : Type 0 where
  pub idempotency_records :
      (consume : Action Stores (Unit {0})) (s : Stores)
      → grant.consume ≡ some consume
      → (consume s).1.idempotency_records ≡ s.idempotency_records
  pub issuance_records :
      (consume : Action Stores (Unit {0})) (s : Stores)
      → grant.consume ≡ some consume
      → (consume s).1.issuance_records ≡ s.issuance_records
  pub epoch_counters :
      (consume : Action Stores (Unit {0})) (s : Stores)
      → grant.consume ≡ some consume
      → (consume s).1.epoch_counters ≡ s.epoch_counters

abbrev pub ledger_row : Str → Str → IssuanceRecord
ledger_row reference epoch = record { payment_ref = reference; epoch = epoch; bundle_count = 1 }

abbrev pub counted_bundle : Str → ℕ → ℕ → List EpochCounter → List EpochCounter
counted_bundle epoch signatures k counters =
    signatures_issued epoch signatures k (bundle_paid epoch k counters)

abbrev pub claimed_keys : Str → Option (Str × Str) → List IdempotencyRecord → List IdempotencyRecord
claimed_keys reference none rows = rows
claimed_keys reference (some (key, fingerprint)) rows =
    record { payment_ref = reference; idempotency_key = key; request_fingerprint = fingerprint }
    ∷ rows

-- The stores when the grant is consumed.
abbrev pub before_consume :
    ℕ → IssuanceGrant → BundleRequest → BundleResponse → Option (Str × Str) → Stores → Stores
before_consume k grant request response idempotency s = record s {
  database = record s.database {
    idempotency_records = claimed_keys grant.reference idempotency s.idempotency_records;
    issuance_records = ledger_row grant.reference request.epoch ∷ s.issuance_records;
    epoch_counters =
        counted_bundle request.epoch (length response.blind_signatures) k s.epoch_counters;
  };
}

module _ (k : ℕ) (grant : IssuanceGrant) (request : BundleRequest) (response : BundleResponse)
    (s t : Stores) where
  -- A transaction that commits has written all of its rows, and consumed the grant after them.
  pub record_body-consumed :
      (idempotency : Option (Str × Str))
      → record_body k grant request response idempotency s ≡ (ok tt, t)
      → consume_grant grant.consume (before_consume k grant request response idempotency s)
        ≡ (ok tt, t)
  unfolding record_body
  record_body-consumed none h = h
  record_body-consumed (some (key, fingerprint)) h =
      elim (Bool-cases (any (has_key grant.reference key) s.idempotency_records)) [
        | inl used ↦ ground arith
        | inr fresh ↦ ground arith
      ]

  -- A claimed key was free before.
  pub record_body-fresh :
      (key fingerprint : Str)
      → record_body k grant request response (some (key, fingerprint)) s ≡ (ok tt, t)
      → any (has_key grant.reference key) s.idempotency_records ≡ false
  unfolding record_body
  record_body-fresh key fingerprint h = ground arith

consumed-keeps :
    (grant : IssuanceGrant) (consume : Option (Action Stores (Unit {0}))) (s t : Stores)
    → grant.consume ≡ consume
    → KeepsLedger grant
    → consume_grant consume s ≡ (ok tt, t)
    → (t.idempotency_records ≡ s.idempotency_records)
      × (t.issuance_records ≡ s.issuance_records)
      × (t.epoch_counters ≡ s.epoch_counters)
unfolding consume_grant
consumed-keeps grant none s t e keeps h =
    let same : s ≡ t = cc h in
    (
      ap (λ (u : Stores). u.idempotency_records) (sym same),
      ap (λ (u : Stores). u.issuance_records) (sym same),
      ap (λ (u : Stores). u.epoch_counters) (sym same),
    )
consumed-keeps grant (some consume) s t e keeps h =
    let after : t ≡ (consume s).1 = cc h in
    (
      ap (λ (u : Stores). u.idempotency_records) after ∙ keeps.idempotency_records consume s e,
      ap (λ (u : Stores). u.issuance_records) after ∙ keeps.issuance_records consume s e,
      ap (λ (u : Stores). u.epoch_counters) after ∙ keeps.epoch_counters consume s e,
    )

-- What has changed in the three tables of the purchase.
pub record Committed (k : ℕ) (grant : IssuanceGrant) (request : BundleRequest)
    (response : BundleResponse) (idempotency : Option (Str × Str)) (s t : Stores) : Type 0 where
  pub keys : t.idempotency_records ≡ claimed_keys grant.reference idempotency s.idempotency_records
  pub ledger : t.issuance_records ≡ ledger_row grant.reference request.epoch ∷ s.issuance_records
  pub counters :
      t.epoch_counters
      ≡ counted_bundle request.epoch (length response.blind_signatures) k s.epoch_counters

pub record_body-Committed :
    (k : ℕ) (grant : IssuanceGrant) (request : BundleRequest) (response : BundleResponse)
    (idempotency : Option (Str × Str)) (s t : Stores)
    → KeepsLedger grant
    → record_body k grant request response idempotency s ≡ (ok tt, t)
    → Committed k grant request response idempotency s t
record_body-Committed k grant request response idempotency s t keeps h =
    let (keys, ledger, counters) =
      consumed-keeps grant grant.consume (before_consume k grant request response idempotency s) t
        refl keeps (record_body-consumed k grant request response s t idempotency h) in
    record { keys = keys; ledger = ledger; counters = counters }
