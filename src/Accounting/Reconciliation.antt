-- ===== src/Accounting/Reconciliation.antt =====
-- accounting/reconciliation.service.ts. The rows are visited in the order of the table.
pub mod Alarms
use credentials_issuer.Prelude.{
  ℕ, ◌+◌, ◌*◌, Bool, true, false, not, Option, List, [], ◌∷◌, ◌++◌, Str, ltb, ◌==◌, ◌===◌, length,
  count_where, keep_where, sum_by, if◌then◌else◌,
}
use credentials_issuer.Prelude.Int.{ℤ, sub_ℕ}
use credentials_issuer.Prelude.Result.{ok}
use credentials_issuer.Effect.{Action, pure, gets, ◌>>=◌, ◌>>◌}
use credentials_issuer.Database.{
  IssuanceRecord, EpochCounter, AlarmKind, overissuance, underissuance, ledger_mismatch,
  ReconciliationAlarm, Stores,
}

pub record EpochReconciliation : Type 0 where
  pub epoch : Str
  pub bundle_size : ℕ
  pub bundles_paid : ℕ
  pub signatures_issued : ℕ
  pub expected_signatures : ℕ
  pub delta : ℤ
  pub ledger_bundles : ℕ
  pub ledger_delta : ℤ
  pub alarms : List AlarmKind

-- `SUM(bundle_count) … GROUP BY epoch` at one epoch, 0 where it has no row.
unfoldable pub ledger_bundles_of : Str → List IssuanceRecord → ℕ
ledger_bundles_of epoch [] = 0
ledger_bundles_of epoch (r ∷ rs) =
    let rest = ledger_bundles_of epoch rs in
    if r.epoch === epoch then r.bundle_count + rest else rest

-- `if (test) alarms.push(kind)`, before those that are pushed later.
unfoldable pub push_if : Bool → AlarmKind → List AlarmKind → List AlarmKind
push_if true kind later = kind ∷ later
push_if false kind later = later

unfoldable pub alarms_of : ℕ → ℕ → ℕ → ℕ → List AlarmKind
alarms_of issued expected paid ledger = push_if (ltb expected issued) overissuance (
    push_if (ltb issued expected) underissuance (push_if (not (paid == ledger)) ledger_mismatch []))

unfoldable pub reconcile_row : List IssuanceRecord → EpochCounter → EpochReconciliation
reconcile_row records counter =
    let expected = counter.bundles_paid * counter.bundle_size in
    let ledger = ledger_bundles_of counter.epoch records in
    record {
      epoch = counter.epoch;
      bundle_size = counter.bundle_size;
      bundles_paid = counter.bundles_paid;
      signatures_issued = counter.signatures_issued;
      expected_signatures = expected;
      delta = sub_ℕ counter.signatures_issued expected;
      ledger_bundles = ledger;
      ledger_delta = sub_ℕ counter.bundles_paid ledger;
      alarms = alarms_of counter.signatures_issued expected counter.bundles_paid ledger;
    }

-- What an alarm of a row says was expected and found.
expected_of : EpochReconciliation → AlarmKind → ℕ
expected_of r ledger_mismatch = r.ledger_bundles
expected_of r kind = r.expected_signatures

actual_of : EpochReconciliation → AlarmKind → ℕ
actual_of r ledger_mismatch = r.bundles_paid
actual_of r kind = r.signatures_issued

alarm_of : EpochReconciliation → AlarmKind → ReconciliationAlarm
alarm_of r kind = record {
  epoch = r.epoch;
  kind = kind;
  expected = expected_of r kind;
  actual = actual_of r kind;
  delta = sub_ℕ (actual_of r kind) (expected_of r kind);
}

raise : EpochReconciliation → AlarmKind → Action Stores (Unit {0})
raise r kind s =
    (ok tt, record s { database = record s.database { alarms = alarm_of r kind ∷ s.alarms } })

raise_all : EpochReconciliation → List AlarmKind → Action Stores (Unit {0})
raise_all r [] = pure tt
raise_all r (kind ∷ kinds) = do raise r kind; raise_all r kinds

reconcile_rows : List IssuanceRecord → List EpochCounter → Action Stores (List EpochReconciliation)
reconcile_rows ledger [] = pure []
reconcile_rows ledger (counter ∷ counters) = do
  raise_all (reconcile_row ledger counter) (reconcile_row ledger counter).alarms
  results ← reconcile_rows ledger counters
  pure (reconcile_row ledger counter ∷ results)

-- The ledger is read first, and then the counters.
pub reconcile : Action Stores (List EpochReconciliation)
unfolding raise_all raise alarm_of expected_of actual_of reconcile_rows
reconcile = do
  ledger ← gets (λ s. s.issuance_records)
  counters ← gets (λ s. s.epoch_counters)
  reconcile_rows ledger counters

-- `process` of accounting/reconciliation.processor.ts: how many epochs were reconciled, and how many
-- of them diverge, as its log line says.
unfoldable pub process : Action Stores (ℕ × ℕ)
process = do
  results ← reconcile
  pure (length results, count_where (λ r. ltb 0 (length r.alarms)) results)
