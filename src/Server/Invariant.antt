-- ===== src/Server/Invariant.antt =====
-- What holds in every store that calls can lead to.
use credentials_issuer.Prelude.{
  ℕ, ◌≡◌, ◌≤◌, refl, sym, subst, Bool, Option, none, some, List, [], ◌∷◌, Str, arith, any,
  count_where, map, inl, inr, Bool-cases,
}
use credentials_issuer.Prelude.Json.{Json}
use credentials_issuer.Prelude.Result.{ok, RejectionReason, Result-cases}
use credentials_issuer.Effect.{Action}
use credentials_issuer.Config.{IssuerConfig}
use credentials_issuer.Database.{Database, Entitlement, Stores}
use credentials_issuer.Accounting.Balance.{IsBalanced, IsBalanced-empty}
use credentials_issuer.Accounting.Reconciliation.{reconcile, reconcile_row}
use credentials_issuer.Accounting.Reconciliation.Alarms.{reconcile-quiet}
use credentials_issuer.Errors.Base64.{Bytes}
use credentials_issuer.Issuance.Service.{IssuanceGrant, Services, issue}
use credentials_issuer.Issuance.Service.Committed.{KeepsLedger}
use credentials_issuer.Issuance.Service.Purchases.{issue-IsBalanced}
use credentials_issuer.Bundles.Service.{parse_reason, purchase}
use credentials_issuer.Bundles.Service.Admission.{Purchase, purchase-Purchase, with_rejection}
use credentials_issuer.Entitlements.Service.{
  has_id, has_receipt, claim_drip, advance, drip_grant, admit_pickup, pickup, register,
  insert_entitlement, Schedule,
}
use credentials_issuer.Entitlements.Service.Unique.{one_more}
use credentials_issuer.Entitlements.Service.Registration.{register-stores}
use credentials_issuer.Issuance.Service.Keeps.{issue-keeps}
use credentials_issuer.Entitlements.Service.Drips.{drip_grant-KeepsLedger, admit_pickup-same}
use credentials_issuer.Server.{Step, Reachable}

-- The counters are in balance with the ledger, no alarm was ever raised, and an identifier has at
-- most one entitlement.
pub record IsSound (k : ℕ) (d : Database) : Type 0 where
  pub balanced : IsBalanced k d.issuance_records d.epoch_counters
  pub quiet : d.alarms ≡ []
  pub unique : (id : Str) → count_where (has_id id) d.entitlements ≤ 1

-- The part of it that is not about the purchase's tables.
abbrev IsOrderly : Database → Type 0
IsOrderly d = (d.alarms ≡ []) × ((id : Str) → count_where (has_id id) d.entitlements ≤ 1)

claim_drip-count :
    (id other : Str) (interval now : ℕ) (es : List Entitlement)
    → count_where (has_id other) (claim_drip id interval now es).0 ≡ count_where (has_id other) es
unfolding claim_drip has_id
claim_drip-count id other interval now [] = refl
claim_drip-count id other interval now (e ∷ es) =
    ground (arith, claim_drip-count id other interval now es)

advance-IsOrderly :
    (id : Str) (interval now : ℕ) (s : Stores)
    → IsOrderly s.database
    → IsOrderly (advance id interval now s).1.database
unfolding advance
advance-IsOrderly id interval now s (quiet, unique) =
    elim (Bool-cases (claim_drip id interval now s.entitlements).1) [
      | inl changed ↦ rw changed (
        quiet,
        λ other. rw (claim_drip-count id other interval now s.entitlements) (unique other),
      )
      | inr same ↦ rw same (quiet, unique)
    ]

with_rejection-IsSound :
    (k : ℕ) (reason : RejectionReason) (s : Stores)
    → IsSound k s.database
    → IsSound k (with_rejection reason s).database
with_rejection-IsSound k reason s h = record {
  balanced = h.balanced;
  quiet = h.quiet;
  unique = h.unique;
}

issue-IsSound :
    (config : IssuerConfig) (services : Services) (grant : IssuanceGrant) (key : Option Str)
    (body : Json) (s : Stores)
    → KeepsLedger grant
    → ((consume : Action Stores (Unit {0})) (t : Stores)
        → grant.consume ≡ some consume
        → IsOrderly t.database
        → IsOrderly (consume t).1.database)
    → IsSound config.bundle_size s.database
    → IsSound config.bundle_size (issue config services grant key body s).1.database
issue-IsSound config services grant key body s keeps orderly h =
    let (quiet, unique) =
      issue-keeps IsOrderly (λ d keys ledger counters o. o) config services grant orderly key body s
        (h.quiet, h.unique) in
    record {
      balanced = issue-IsBalanced config services grant key body s keeps h.balanced;
      quiet = quiet;
      unique = unique;
    }

-- The paid rail has nothing to consume.
paid_grant-KeepsLedger :
    (reference : Str) → KeepsLedger (record { reference = reference; consume = none })
paid_grant-KeepsLedger reference = record {
  idempotency_records = λ consume s e. cc e;
  issuance_records = λ consume s e. cc e;
  epoch_counters = λ consume s e. cc e;
}

purchase-IsSound :
    (config : IssuerConfig) (decode_json : Str → Option Json)
    (verify_signature : Option (Bytes → Str → Bool)) (services : Services) (header key : Option Str)
    (body : Json) (s : Stores)
    → IsSound config.bundle_size s.database
    → IsSound config.bundle_size
        (purchase config decode_json verify_signature services header key body s).1.database
purchase-IsSound config decode_json verify_signature services header key body s h =
    elim (purchase-Purchase config decode_json verify_signature services header key body s) [
      | Purchase.unreadable e bad ends ↦
          rw ends (with_rejection-IsSound config.bundle_size (parse_reason header) s h)
      | Purchase.refused claim reason parsed failed ends ↦
          rw ends (with_rejection-IsSound config.bundle_size reason s h)
      | Purchase.broken claim e parsed failed other ends ↦ rw ends h
      | Purchase.accepted claim parsed good ends ↦ rw ends (
          issue-IsSound config services (record { reference = claim.payment_ref; consume = none })
            key body s (paid_grant-KeepsLedger claim.payment_ref) (λ consume t e. cc e) h)
    ]

consumed-IsOrderly :
    (found : Schedule) (now : ℕ) (consume : Action Stores (Unit {0})) (t : Stores)
    → (drip_grant found now).consume ≡ some consume
    → IsOrderly t.database
    → IsOrderly (consume t).1.database
consumed-IsOrderly found now consume t e h =
    let called : advance found.id found.interval_seconds now ≡ consume = cc e in
    subst (λ (c : Action Stores (Unit {0})). IsOrderly (c t).1.database) called
      (advance-IsOrderly found.id found.interval_seconds now t h)

pickup-IsSound :
    (config : IssuerConfig) (services : Services) (seen_at now : ℕ)
    (entitlement_id key : Option Str) (body : Json) (s : Stores)
    → IsSound config.bundle_size s.database
    → IsSound config.bundle_size
        (pickup config services seen_at now entitlement_id key body s).1.database
unfolding pickup
pickup-IsSound config services seen_at now entitlement_id key body s h =
    let admitted = admit_pickup seen_at entitlement_id key s in
    let kept : IsSound config.bundle_size admitted.1.database =
      subst (λ (t : Stores). IsSound config.bundle_size t.database)
        (sym (admit_pickup-same seen_at entitlement_id key s)) h in
    elim (Result-cases admitted.0) [
      | inr (e, rejected) ↦ rw rejected kept
      | inl (found, good) ↦ rw good (
          issue-IsSound config services (drip_grant found now) key body admitted.1
            (drip_grant-KeepsLedger found now) (consumed-IsOrderly found now) kept)
    ]

insert-IsSound :
    (k : ℕ) (e : Entitlement) (s : Stores)
    → IsSound k s.database
    → IsSound k (insert_entitlement e s).1.database
unfolding insert_entitlement
insert-IsSound k e s h = elim (Bool-cases (any (has_receipt e.receipt_hash) s.entitlements)) [
  | inl known ↦ rw known h
  | inr new ↦ elim (Bool-cases (any (has_id e.entitlement_id) s.entitlements)) [
    | inl taken ↦ rw (new, taken) h
    | inr free ↦
        rw (new, free)
          (record {
            balanced = h.balanced;
            quiet = h.quiet;
            unique = one_more e s.entitlements free h.unique;
          })
  ]
]

register-IsSound :
    (config : IssuerConfig) (sha256 : Str → Str) (uuid : Str) (now : ℕ) (body : Json) (s : Stores)
    → IsSound config.bundle_size s.database
    → IsSound config.bundle_size (register config sha256 uuid now body s).1.database
unfolding register
register-IsSound config sha256 uuid now body s h =
    elim (register-stores config sha256 uuid now body s) [
      | inl same ↦ rw same h
      | inr (e, inserted) ↦ rw inserted (insert-IsSound config.bundle_size e s h)
    ]

Step-IsSound :
    (config : IssuerConfig) (s t : Stores)
    → Step config s t
    → IsSound config.bundle_size s.database
    → IsSound config.bundle_size t.database
Step-IsSound config s t (Step.purchased decode_json verify_signature services header key body) h =
    purchase-IsSound config decode_json verify_signature services header key body s h
Step-IsSound config s t (Step.registered sha256 uuid now body) h =
    register-IsSound config sha256 uuid now body s h
Step-IsSound config s t (Step.picked_up services seen_at now entitlement_id key body) h =
    pickup-IsSound config services seen_at now entitlement_id key body s h
Step-IsSound config s t Step.reconciled h = rw (reconcile-quiet config.bundle_size s h.balanced) h

-- Every store that calls can lead to, from the empty one on, is sound: the counters are in balance
-- with the ledger, no alarm was raised, and no two entitlements share an identifier.
pub Reachable-IsSound :
    (config : IssuerConfig) (s : Stores)
    → Reachable config s
    → IsSound config.bundle_size s.database
Reachable-IsSound config s Reachable.start = record {
  balanced = IsBalanced-empty config.bundle_size;
  quiet = refl;
  unique = λ id. omega arith;
}
Reachable-IsSound config s (Reachable.after {s = before} earlier step) =
    Step-IsSound config before s step (Reachable-IsSound config before earlier)

-- In every store that calls can lead to, reconciliation raises nothing and writes nothing: it
-- reports each counter.
pub Reachable-quiet :
    (config : IssuerConfig) (s : Stores)
    → Reachable config s
    → reconcile s ≡ (ok (map (reconcile_row s.issuance_records) s.epoch_counters), s)
Reachable-quiet config s reached =
    reconcile-quiet config.bundle_size s (Reachable-IsSound config s reached).balanced
