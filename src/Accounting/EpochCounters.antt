-- ===== src/Accounting/EpochCounters.antt =====
-- accounting/epoch-counters.service.ts. `INSERT … ON CONFLICT (epoch) DO UPDATE` on the list of
-- rows: the row of the epoch is updated, and a new one is added if there is none.
use credentials_issuer.Prelude.{ℕ, ◌+◌, Option, List, [], ◌∷◌, Str, find, ◌===◌, if◌then◌else◌}
use credentials_issuer.Prelude.Result.{ok}
use credentials_issuer.Effect.{Action}
use credentials_issuer.Database.{EpochCounter, Stores}

upsert : EpochCounter → (EpochCounter → EpochCounter) → List EpochCounter → List EpochCounter
upsert fresh update [] = fresh ∷ []
upsert fresh update (c ∷ cs) =
    if c.epoch === fresh.epoch then update c ∷ cs else c ∷ upsert fresh update cs

-- The counters of an epoch after one more bundle was paid for.
unfoldable pub bundle_paid : Str → ℕ → List EpochCounter → List EpochCounter
unfolding upsert
bundle_paid epoch bundle_size =
    upsert
      (record { epoch = epoch; bundle_size = bundle_size; bundles_paid = 1; signatures_issued = 0 })
      (λ c. record c { bundles_paid = c.bundles_paid + 1 })

unfoldable pub signatures_issued : Str → ℕ → ℕ → List EpochCounter → List EpochCounter
unfolding upsert
signatures_issued epoch signatures bundle_size =
    upsert
      (record {
        epoch = epoch;
        bundle_size = bundle_size;
        bundles_paid = 0;
        signatures_issued = signatures;
      })
      (λ c. record c { signatures_issued = c.signatures_issued + signatures })

abbrev pub record_bundle_paid : Str → ℕ → Action Stores (Unit {0})
record_bundle_paid epoch bundle_size s = (
  ok tt,
  record s {
    database = record s.database {
      epoch_counters = bundle_paid epoch bundle_size s.database.epoch_counters;
    };
  },
)

abbrev pub record_signatures_issued : Str → ℕ → ℕ → Action Stores (Unit {0})
record_signatures_issued epoch signatures bundle_size s = (
  ok tt,
  record s {
    database = record s.database {
      epoch_counters = signatures_issued epoch signatures bundle_size s.database.epoch_counters;
    };
  },
)

unfoldable pub for_epoch : Str → List EpochCounter → Option EpochCounter
for_epoch epoch = find (λ c. c.epoch === epoch)
