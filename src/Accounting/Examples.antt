-- ===== src/Accounting/Examples.antt =====
-- A test of the reconciliation: two bundles of three were paid for, the ledger has one, and seven
-- signatures were issued.
use credentials_issuer.Prelude.{◌≡◌, ◌↔◌, ◌⊎◌, refl, [], ◌∷◌, List, code_units}
use credentials_issuer.Prelude.Result.{ok}
use credentials_issuer.Database.{
  EpochCounter, IssuanceRecord, ReconciliationAlarm, Stores, empty_stores, overissuance,
  ledger_mismatch,
}
use credentials_issuer.Accounting.Reconciliation.{reconcile, reconcile_row, ledger_bundles_of}
use credentials_issuer.Accounting.Reconciliation.Alarms.{Has, Diverges, reconcile-Diverges}

abbrev a_counter : EpochCounter
a_counter = record {
  epoch = code_units "e";
  bundle_size = 3;
  bundles_paid = 2;
  signatures_issued = 7;
}

abbrev a_ledger : List IssuanceRecord
a_ledger = record { payment_ref = code_units "p"; epoch = code_units "e"; bundle_count = 1 } ∷ []

alarms_test : (reconcile_row a_ledger a_counter).alarms ≡ overissuance ∷ ledger_mismatch ∷ []
unfolding reconcile_row credentials_issuer.Accounting.Reconciliation.alarms_of
    credentials_issuer.Accounting.Reconciliation.push_if ledger_bundles_of
    credentials_issuer.Prelude.◌===◌
alarms_test = refl

abbrev some_stores : Stores
some_stores = record empty_stores {
  database = record empty_stores.database {
    issuance_records = a_ledger;
    epoch_counters = a_counter ∷ [];
  };
}

reconcile-Diverges_example :
    (raised : List ReconciliationAlarm) × (reconcile some_stores ≡ (
      ok (reconcile_row a_ledger a_counter ∷ []),
      record some_stores { database = record some_stores.database { alarms = raised } },
    ))
    × ((a : ReconciliationAlarm)
        → Has a raised
          ↔ (Has a [] ⊎ ((c : EpochCounter) × Has c (a_counter ∷ []) × Diverges a_ledger c a)))
reconcile-Diverges_example = reconcile-Diverges some_stores
