-- ===== src/Accounting/Balance.antt =====
-- The counters of every epoch agree with each other and with the ledger.
use credentials_issuer.Prelude.{
  ℕ, suc, ◌*◌, ◌≡◌, ◌≢◌, refl, sym, ap, ◌∙◌, List, [], ◌∷◌, Str, All, arith, eq-text, eq-text_refl,
  ◌===◌, if◌then◌else◌,
}
use credentials_issuer.Database.{IssuanceRecord, EpochCounter}
use credentials_issuer.Accounting.EpochCounters.{bundle_paid, signatures_issued}
use credentials_issuer.Accounting.Reconciliation.{ledger_bundles_of}

-- The bundles that the first row of an epoch says were paid for.
pub paid_of : Str → List EpochCounter → ℕ
paid_of epoch [] = 0
paid_of epoch (c ∷ cs) =
    let rest = paid_of epoch cs in if c.epoch === epoch then c.bundles_paid else rest

-- No two rows have the same epoch (the primary key).
abbrev pub Distinct : List EpochCounter → Type 0
Distinct [] = Unit
Distinct (c ∷ cs) = All (λ d. d.epoch ≢ c.epoch) cs × Distinct cs

-- Each paid bundle has `k` signatures.
abbrev pub IsSettled : ℕ → EpochCounter → Type 0
IsSettled k c = (c.bundle_size ≡ k) × (c.signatures_issued ≡ c.bundles_paid * k)

pub record IsBalanced (k : ℕ) (ledger : List IssuanceRecord) (counters : List EpochCounter)
    : Type 0 where
  pub agrees : (epoch : Str) → ledger_bundles_of epoch ledger ≡ paid_of epoch counters
  pub settled : All (IsSettled k) counters
  pub distinct : Distinct counters

abbrev pub count_bundle : Str → ℕ → List EpochCounter → List EpochCounter
count_bundle epoch k counters = signatures_issued epoch k k (bundle_paid epoch k counters)

paid_of-count_bundle :
    (epoch other : Str) (k : ℕ) (cs : List EpochCounter)
    → paid_of other (count_bundle epoch k cs)
      ≡ (if epoch === other then suc (paid_of other cs) else paid_of other cs)
unfolding paid_of bundle_paid signatures_issued
paid_of-count_bundle epoch other k [] = ground (arith, eq-text epoch epoch)
paid_of-count_bundle epoch other k (c ∷ cs) = ground (
  arith,
  paid_of-count_bundle epoch other k cs,
  eq-text c.epoch epoch,
  eq-text c.epoch other,
  eq-text epoch other,
)

IsSettled-count_bundle :
    (epoch : Str) (k : ℕ) (cs : List EpochCounter)
    → All (IsSettled k) cs
    → All (IsSettled k) (count_bundle epoch k cs)
unfolding bundle_paid signatures_issued
IsSettled-count_bundle epoch k [] h = ground (arith, eq-text epoch epoch)
IsSettled-count_bundle epoch k (c ∷ cs) ((size, sum), h) =
    ground (arith, IsSettled-count_bundle epoch k cs h, eq-text c.epoch epoch)

-- The epochs of the rows, but for the one that is counted, are those of before.
others-count_bundle :
    (epoch other : Str) (k : ℕ) (cs : List EpochCounter)
    → other ≢ epoch
    → All (λ d. d.epoch ≢ other) cs
    → All (λ d. d.epoch ≢ other) (count_bundle epoch k cs)
unfolding bundle_paid signatures_issued
others-count_bundle epoch other k [] ne h = ground (arith, eq-text epoch epoch)
others-count_bundle epoch other k (c ∷ cs) ne (hc, h) =
    ground (arith, others-count_bundle epoch other k cs ne h, eq-text c.epoch epoch)

Distinct-count_bundle :
    (epoch : Str) (k : ℕ) (cs : List EpochCounter)
    → Distinct cs
    → Distinct (count_bundle epoch k cs)
unfolding bundle_paid signatures_issued
Distinct-count_bundle epoch k [] h = ground (arith, eq-text epoch epoch)
Distinct-count_bundle epoch k (c ∷ cs) (hc, h) = ground (
  arith,
  Distinct-count_bundle epoch k cs h,
  others-count_bundle epoch c.epoch k cs,
  eq-text c.epoch epoch,
)

-- A bundle that is counted on both sides keeps the balance.
pub IsBalanced-count_bundle :
    (k : ℕ) (reference epoch : Str) (ledger : List IssuanceRecord) (counters : List EpochCounter)
    → IsBalanced k ledger counters
    → IsBalanced k
        (record { payment_ref = reference; epoch = epoch; bundle_count = 1 } ∷ ledger)
        (count_bundle epoch k counters)
unfolding ledger_bundles_of
IsBalanced-count_bundle k reference epoch ledger counters b = record {
  agrees = λ other. ground (arith, paid_of-count_bundle epoch other k counters, b.agrees other);
  settled = IsSettled-count_bundle epoch k counters b.settled;
  distinct = Distinct-count_bundle epoch k counters b.distinct;
}

own_under_cons :
    (c : EpochCounter) (cs ds : List EpochCounter)
    → All (λ d. d.epoch ≢ c.epoch) ds
    → All (λ d. paid_of d.epoch cs ≡ d.bundles_paid) ds
    → All (λ d. paid_of d.epoch (c ∷ cs) ≡ d.bundles_paid) ds
unfolding paid_of
own_under_cons c cs [] ne h = tt
own_under_cons c cs (d ∷ ds) (nd, ne) (hd, h) =
    (ground (arith, eq-text c.epoch d.epoch), own_under_cons c cs ds ne h)

-- In rows with distinct epochs each row is the first one of its epoch.
paid_of-own :
    (cs : List EpochCounter) → Distinct cs → All (λ c. paid_of c.epoch cs ≡ c.bundles_paid) cs
unfolding paid_of
paid_of-own [] h = tt
paid_of-own (c ∷ cs) (ne, h) =
    (rw (eq-text_refl c.epoch), own_under_cons c cs cs ne (paid_of-own cs h))

-- What makes a row quiet: all that reconciliation compares is equal.
abbrev pub IsReconciled : List IssuanceRecord → EpochCounter → Type 0
IsReconciled ledger c =
    (c.signatures_issued ≡ c.bundles_paid * c.bundle_size)
    × (c.bundles_paid ≡ ledger_bundles_of c.epoch ledger)

IsReconciled-rows :
    (k : ℕ) (ledger : List IssuanceRecord) (counters cs : List EpochCounter)
    → ((epoch : Str) → ledger_bundles_of epoch ledger ≡ paid_of epoch counters)
    → All (IsSettled k) cs
    → All (λ c. paid_of c.epoch counters ≡ c.bundles_paid) cs
    → All (IsReconciled ledger) cs
IsReconciled-rows k ledger counters [] agrees settled own = tt
IsReconciled-rows k ledger counters (c ∷ cs) agrees ((size, sum), settled) (here, own) = (
  (sum ∙ ap (λ (n : ℕ). c.bundles_paid * n) (sym size), sym (agrees c.epoch ∙ here)),
  IsReconciled-rows k ledger counters cs agrees settled own,
)

pub IsBalanced-IsReconciled :
    (k : ℕ) (ledger : List IssuanceRecord) (counters : List EpochCounter)
    → IsBalanced k ledger counters
    → All (IsReconciled ledger) counters
IsBalanced-IsReconciled k ledger counters b =
    IsReconciled-rows k ledger counters counters b.agrees b.settled
      (paid_of-own counters b.distinct)

pub IsBalanced-empty : (k : ℕ) → IsBalanced k [] []
unfolding ledger_bundles_of paid_of
IsBalanced-empty k = record { agrees = λ epoch. refl; settled = tt; distinct = tt }
