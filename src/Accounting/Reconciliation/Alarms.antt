-- ===== src/Accounting/Reconciliation/Alarms.antt =====
-- The alarms that a reconciliation raises.
use credentials_issuer.Prelude.{
  ℕ, ◌*◌, ◌≡◌, ◌≢◌, ◌<◌, ◌↔◌, List, [], ◌∷◌, All, arith, refl, map, not, Bool, true, false, ◌⊎◌,
  ltb, ◌==◌, inl, inr, ap, subst, sym, ◌∙◌,
}
use credentials_issuer.Database.{
  IssuanceRecord, EpochCounter, AlarmKind, ReconciliationAlarm, Stores, overissuance, underissuance,
  ledger_mismatch,
}
use credentials_issuer.Prelude.Int.{sub_ℕ}
use credentials_issuer.Prelude.Result.{ok}
use credentials_issuer.Accounting.Balance.{IsBalanced, IsReconciled, IsBalanced-IsReconciled}
use credentials_issuer.Accounting.Reconciliation.{
  EpochReconciliation, push_if, alarms_of, alarm_of, expected_of, actual_of, raise, raise_all,
  reconcile_rows, reconcile, ledger_bundles_of, reconcile_row,
}

-- A list has an item.
abbrev pub Has : {A : Type 0} → A → List A → Type 0
Has a [] = ⊥
Has a (x ∷ xs) = (x ≡ a) ⊎ Has a xs

Has-push_if :
    (kind k : AlarmKind) (b : Bool) (later : List AlarmKind)
    → Has kind (push_if b k later) ↔ (((b ≡ true) × (k ≡ kind)) ⊎ Has kind later)
unfolding push_if
Has-push_if kind k true later = ground arith
Has-push_if kind k false later = ground arith

alarms_of_iff :
    (kind : AlarmKind) (issued expected paid ledger : ℕ)
    → Has kind (alarms_of issued expected paid ledger) ↔ (
        ((overissuance ≡ kind) × (expected < issued))
        ⊎ (((underissuance ≡ kind) × (issued < expected))
            ⊎ ((ledger_mismatch ≡ kind) × (paid ≢ ledger))))
unfolding alarms_of
alarms_of_iff kind issued expected paid ledger = ground (
  arith,
  Has-push_if kind overissuance (ltb expected issued) (
      push_if (ltb issued expected) underissuance
        (push_if (not (paid == ledger)) ledger_mismatch [])),
  Has-push_if kind underissuance (ltb issued expected)
      (push_if (not (paid == ledger)) ledger_mismatch []),
  Has-push_if kind ledger_mismatch (not (paid == ledger)) [],
)

alarm_kinds :
    (ledger : List IssuanceRecord) (c : EpochCounter) (kind : AlarmKind)
    → Has kind (reconcile_row ledger c).alarms ↔ (
        ((overissuance ≡ kind) × (c.bundles_paid * c.bundle_size < c.signatures_issued))
        ⊎ (((underissuance ≡ kind) × (c.signatures_issued < c.bundles_paid * c.bundle_size))
            ⊎ ((ledger_mismatch ≡ kind) × (c.bundles_paid ≢ ledger_bundles_of c.epoch ledger))))
unfolding reconcile_row
alarm_kinds ledger c kind =
    alarms_of_iff kind c.signatures_issued (c.bundles_paid * c.bundle_size) c.bundles_paid
      (ledger_bundles_of c.epoch ledger)

-- What an alarm has to say of an epoch: that more signatures were issued than the paid bundles hold,
-- that fewer were, or that the ledger has another count of bundles; with what was expected and found.
abbrev pub Diverges : List IssuanceRecord → EpochCounter → ReconciliationAlarm → Type 0
Diverges ledger c a =
    let expected = c.bundles_paid * c.bundle_size in
    let recorded = ledger_bundles_of c.epoch ledger in
    ((expected < c.signatures_issued)
      × (record {
        epoch = c.epoch;
        kind = overissuance;
        expected = expected;
        actual = c.signatures_issued;
        delta = sub_ℕ c.signatures_issued expected;
      }
          ≡ a))
    ⊎ (((c.signatures_issued < expected)
          × (record {
            epoch = c.epoch;
            kind = underissuance;
            expected = expected;
            actual = c.signatures_issued;
            delta = sub_ℕ c.signatures_issued expected;
          }
              ≡ a))
        ⊎ ((c.bundles_paid ≢ recorded)
            × (record {
              epoch = c.epoch;
              kind = ledger_mismatch;
              expected = recorded;
              actual = c.bundles_paid;
              delta = sub_ℕ c.bundles_paid recorded;
            }
                ≡ a)))

-- The alarm of some kind of a row.
abbrev IsAlarmOf : EpochReconciliation → List AlarmKind → ReconciliationAlarm → Type 0
IsAlarmOf r kinds a = (kind : AlarmKind) × Has kind kinds × (alarm_of r kind ≡ a)

alarm_of-Diverges :
    (ledger : List IssuanceRecord) (c : EpochCounter) (kind : AlarmKind) (a : ReconciliationAlarm)
    → Has kind (reconcile_row ledger c).alarms
    → alarm_of (reconcile_row ledger c) kind ≡ a
    → Diverges ledger c a
unfolding reconcile_row alarm_of expected_of actual_of
alarm_of-Diverges ledger c overissuance a there same =
    inl (ground (arith, (alarm_kinds ledger c overissuance).0 there), same)
alarm_of-Diverges ledger c underissuance a there same =
    inr (inl (ground (arith, (alarm_kinds ledger c underissuance).0 there), same))
alarm_of-Diverges ledger c ledger_mismatch a there same =
    inr (inr (ground (arith, (alarm_kinds ledger c ledger_mismatch).0 there), same))

IsAlarmOf-Diverges :
    (ledger : List IssuanceRecord) (c : EpochCounter) (a : ReconciliationAlarm)
    → IsAlarmOf (reconcile_row ledger c) (reconcile_row ledger c).alarms a ↔ Diverges ledger c a
unfolding reconcile_row alarm_of expected_of actual_of
IsAlarmOf-Diverges ledger c a = (
  λ (kind, there, same). alarm_of-Diverges ledger c kind a there same,
  λ h. elim h [
    | inl (more, same) ↦
        (overissuance, (alarm_kinds ledger c overissuance).1 (inl (refl, more)), same)
    | inr (inl (fewer, same)) ↦
        (underissuance, (alarm_kinds ledger c underissuance).1 (inr (inl (refl, fewer))), same)
    | inr (inr (other, same)) ↦
        (ledger_mismatch, (alarm_kinds ledger c ledger_mismatch).1 (inr (inr (refl, other))), same)
  ],
)

-- The stores with other alarms.
abbrev with_alarms : List ReconciliationAlarm → Stores → Stores
with_alarms raised s = record s { database = record s.database { alarms = raised } }

raised_by :
    EpochReconciliation → List AlarmKind → List ReconciliationAlarm → List ReconciliationAlarm
raised_by r [] before = before
raised_by r (kind ∷ kinds) before = raised_by r kinds (alarm_of r kind ∷ before)

raise_all-stores :
    (r : EpochReconciliation) (kinds : List AlarmKind) (s : Stores)
    → raise_all r kinds s ≡ (ok tt, with_alarms (raised_by r kinds s.alarms) s)
unfolding raise_all raise raised_by
raise_all-stores r [] s = refl
raise_all-stores r (kind ∷ kinds) s =
    raise_all-stores r kinds (with_alarms (alarm_of r kind ∷ s.alarms) s)

Has-raised_by :
    (r : EpochReconciliation) (kinds : List AlarmKind) (before : List ReconciliationAlarm)
    (a : ReconciliationAlarm)
    → Has a (raised_by r kinds before) ↔ (Has a before ⊎ IsAlarmOf r kinds a)
unfolding raised_by
Has-raised_by r [] before a = (
  λ h. inl h,
  λ h. elim h [ inl there ↦ there | inr (kind, none_there, same) ↦ absurd none_there ],
)
Has-raised_by r (kind ∷ kinds) before a =
    let later = Has-raised_by r kinds (alarm_of r kind ∷ before) a in
    (
      λ h. elim (later.0 h) [
        | inl (inl here) ↦ inr (kind, inl refl, here)
        | inl (inr there) ↦ inl there
        | inr (k, there, same) ↦ inr (k, inr there, same)
      ],
      λ h. later.1 (elim h [
        | inl there ↦ inl (inr there)
        | inr (k, inl here, same) ↦ inl (inl (ap (alarm_of r) here ∙ same))
        | inr (k, inr there, same) ↦ inr (k, there, same)
      ]),
    )

raised_for :
    List IssuanceRecord → List EpochCounter → List ReconciliationAlarm → List ReconciliationAlarm
raised_for ledger [] before = before
raised_for ledger (c ∷ cs) before =
    raised_for ledger cs (raised_by (reconcile_row ledger c) (reconcile_row ledger c).alarms before)

reconcile_rows-stores :
    (ledger : List IssuanceRecord) (cs : List EpochCounter) (s : Stores)
    → reconcile_rows ledger cs s
      ≡ (ok (map (reconcile_row ledger) cs), with_alarms (raised_for ledger cs s.alarms) s)
unfolding reconcile_rows raised_for
reconcile_rows-stores ledger [] s = refl
reconcile_rows-stores ledger (c ∷ cs) s =
    let r = reconcile_row ledger c in
    let t = with_alarms (raised_by r r.alarms s.alarms) s in
    rw (raise_all-stores r r.alarms s, reconcile_rows-stores ledger cs t)

Has-raised_for :
    (ledger : List IssuanceRecord) (cs : List EpochCounter) (before : List ReconciliationAlarm)
    (a : ReconciliationAlarm)
    → Has a (raised_for ledger cs before)
      ↔ (Has a before ⊎ ((c : EpochCounter) × Has c cs × Diverges ledger c a))
unfolding raised_for
Has-raised_for ledger [] before a = (
  λ h. inl h,
  λ h. elim h [ inl there ↦ there | inr (c, none_there, diverges) ↦ absurd none_there ],
)
Has-raised_for ledger (c ∷ cs) before a =
    let r = reconcile_row ledger c in
    let now = Has-raised_by r r.alarms before a in
    let row = IsAlarmOf-Diverges ledger c a in
    let later = Has-raised_for ledger cs (raised_by r r.alarms before) a in
    (
      λ h. elim (later.0 h) [
        | inr (d, there, diverges) ↦ inr (d, inr there, diverges)
        | inl raised ↦ elim (now.0 raised) [
          | inl earlier ↦ inl earlier
          | inr its ↦ inr (c, inl refl, row.0 its)
        ]
      ],
      λ h. later.1 (elim h [
        | inl earlier ↦ inl (now.1 (inl earlier))
        | inr (d, inl here, diverges) ↦
            inl (now.1 (inr (row.1 (subst (λ x. Diverges ledger x a) (sym here) diverges))))
        | inr (d, inr there, diverges) ↦ inr (d, there, diverges)
      ]),
    )

-- Reconciliation of any stores reports every counter and changes nothing but the alarms. An alarm is
-- stored afterwards exactly if it was before, or the counter of some epoch diverges as it says: more
-- signatures were issued than the paid bundles hold, fewer were, or the ledger has another count.
pub reconcile-Diverges :
    (s : Stores)
    → (raised : List ReconciliationAlarm) × (reconcile s ≡ (
      ok (map (reconcile_row s.issuance_records) s.epoch_counters),
      record s { database = record s.database { alarms = raised } },
    ))
      × ((a : ReconciliationAlarm)
          → Has a raised ↔ (
              Has a s.alarms
              ⊎ ((c : EpochCounter) × Has c s.epoch_counters × Diverges s.issuance_records c a)))
unfolding reconcile
reconcile-Diverges s = (
  raised_for s.issuance_records s.epoch_counters s.alarms,
  reconcile_rows-stores s.issuance_records s.epoch_counters s,
  Has-raised_for s.issuance_records s.epoch_counters s.alarms,
)

quiet_row :
    (ledger : List IssuanceRecord) (c : EpochCounter)
    → IsReconciled ledger c
    → (reconcile_row ledger c).alarms ≡ []
unfolding reconcile_row alarms_of push_if
quiet_row ledger c (signed, paid) = rw (signed, paid) (ground arith)

quiet_rows :
    (ledger : List IssuanceRecord) (cs : List EpochCounter) (s : Stores)
    → All (IsReconciled ledger) cs
    → reconcile_rows ledger cs s ≡ (ok (map (reconcile_row ledger) cs), s)
unfolding reconcile_rows raise_all
quiet_rows ledger [] s h = refl
quiet_rows ledger (c ∷ cs) s (hc, h) = rw (quiet_row ledger c hc, quiet_rows ledger cs s h)

-- Reconciling balanced counters raises nothing and writes nothing, and reports every row.
pub reconcile-quiet :
    (k : ℕ) (s : Stores)
    → IsBalanced k s.issuance_records s.epoch_counters
    → reconcile s ≡ (ok (map (reconcile_row s.issuance_records) s.epoch_counters), s)
unfolding reconcile
reconcile-quiet k s b =
    quiet_rows s.issuance_records s.epoch_counters s
      (IsBalanced-IsReconciled k s.issuance_records s.epoch_counters b)
