-- ===== src/Server/Drips.antt =====
-- A drip that was claimed is not claimed again within its interval, whatever other calls there are.
use credentials_issuer.Prelude.{
  ℕ, ◌≡◌, ◌≢◌, ◌≤◌, ◌<◌, ◌+◌, ◌*◌, sym, subst, Option, none, some, Str, count_where, inl, inr,
}
use credentials_issuer.Prelude.Json.{Json}
use credentials_issuer.Prelude.Result.{Result, Result-cases}
use credentials_issuer.Effect.{Action}
use credentials_issuer.Config.{IssuerConfig}
use credentials_issuer.Database.{Database, Stores}
use credentials_issuer.Accounting.Reconciliation.Alarms.{reconcile-Diverges}
use credentials_issuer.Bundles.Service.Admission.{Purchase, purchase-Purchase}
use credentials_issuer.Issuance.Service.{IssuanceGrant, Services, given_key, issue, consume_grant}
use credentials_issuer.Issuance.Service.Atomic.{Issued, issue-Issued, idempotency_claim}
use credentials_issuer.Issuance.Service.Committed.{record_body-consumed, before_consume}
use credentials_issuer.Issuance.Service.Keeps.{issue-keeps}
use credentials_issuer.Issuance.Signing.{BundleResponse}
use credentials_issuer.Entitlements.Service.{
  has_id, advance, drip_grant, admit_pickup, pickup, register, Schedule,
}
use credentials_issuer.Entitlements.Service.Drips.{NotDue, NotDue-unchanged, admit_pickup-same}
use credentials_issuer.Entitlements.Service.Registration.{register-stores}
use credentials_issuer.Entitlements.Service.Waiting.{
  IsWaiting, advance-IsWaiting, advance-IsWaiting_after, insert-IsWaiting,
}
use credentials_issuer.Server.{Step, Follows}

module _ (config : IssuerConfig) (id : Str) (later : ℕ) where
  issue-IsWaiting :
      (services : Services) (grant : IssuanceGrant) (key : Option Str) (body : Json) (s : Stores)
      → ((consume : Action Stores (Unit {0})) (t : Stores)
          → grant.consume ≡ some consume
          → IsWaiting id later t.entitlements
          → IsWaiting id later (consume t).1.entitlements)
      → IsWaiting id later s.entitlements
      → IsWaiting id later (issue config services grant key body s).1.entitlements
  issue-IsWaiting services grant key body s consumed h =
      issue-keeps (λ d. IsWaiting id later d.entitlements) (λ d keys ledger counters w. w) config
        services grant consumed key body s h

  consumed-IsWaiting :
      (found : Schedule) (now : ℕ) (consume : Action Stores (Unit {0})) (t : Stores)
      → (drip_grant found now).consume ≡ some consume
      → IsWaiting id later t.entitlements
      → IsWaiting id later (consume t).1.entitlements
  consumed-IsWaiting found now consume t e h =
      let same : advance found.id found.interval_seconds now ≡ consume = cc e in
      subst (λ (c : Action Stores (Unit {0})). IsWaiting id later (c t).1.entitlements) same
        (advance-IsWaiting id found.id found.interval_seconds now later t h)

  Step-IsWaiting :
      (s t : Stores)
      → Step config s t
      → IsWaiting id later s.entitlements
      → IsWaiting id later t.entitlements
  unfolding register pickup
  Step-IsWaiting s t (Step.purchased decode_json verify_signature services header key body) h =
      elim (purchase-Purchase config decode_json verify_signature services header key body s) [
        | Purchase.unreadable e bad ends ↦ rw ends h
        | Purchase.refused claim reason parsed failed ends ↦ rw ends h
        | Purchase.broken claim e parsed failed other ends ↦ rw ends h
        | Purchase.accepted claim parsed good ends ↦ rw ends (
            issue-IsWaiting services (record { reference = claim.payment_ref; consume = none }) key
              body s (λ consume u e. cc e) h)
      ]
  Step-IsWaiting s t (Step.registered sha256 uuid now body) h =
      elim (register-stores config sha256 uuid now body s) [
        | inl same ↦ rw same h
        | inr (e, inserted) ↦ rw inserted (insert-IsWaiting id later e s h)
      ]
  Step-IsWaiting s t (Step.picked_up services seen_at now entitlement_id key body) h =
      let admitted = admit_pickup seen_at entitlement_id key s in
      let kept : IsWaiting id later admitted.1.entitlements =
        subst (λ (u : Stores). IsWaiting id later u.entitlements)
          (sym (admit_pickup-same seen_at entitlement_id key s)) h in
      elim (Result-cases admitted.0) [
        | inr (e, rejected) ↦ rw rejected kept
        | inl (found, good) ↦ rw good (
            issue-IsWaiting services (drip_grant found now) key body admitted.1
              (consumed-IsWaiting found now) kept)
      ]
  Step-IsWaiting s t Step.reconciled h =
      let (raised, ends, all_of_them) = reconcile-Diverges s in rw ends h

  Follows-IsWaiting :
      (s t : Stores)
      → Follows config s t
      → IsWaiting id later s.entitlements
      → IsWaiting id later t.entitlements
  Follows-IsWaiting s t Follows.at_once h = h
  Follows-IsWaiting s t (Follows.called {t = u} before step) h =
      Step-IsWaiting u t step (Follows-IsWaiting s u before h)
  Follows-IsWaiting s t (Follows.issued {t = u} services found now key body before) h =
      issue-IsWaiting services (drip_grant found now) key body u (consumed-IsWaiting found now)
        (Follows-IsWaiting s u before h)

-- A pickup that changes the database has claimed the drip.
Issued-IsWaiting :
    (config : IssuerConfig) (services : Services) (found : Schedule) (now later : ℕ)
    (key : Option Str) (body : Json) (s : Stores) (p : Result BundleResponse × Stores)
    → count_where (has_id found.id) s.entitlements ≤ 1
    → later < now + found.interval_seconds * 1000
    → p.1.database ≢ s.database
    → Issued config services (drip_grant found now) key body s p
    → IsWaiting found.id later p.1.entitlements
unfolding consume_grant
Issued-IsWaiting config services found now later key body s p one early changed
      (Issued.failed e f same) =
    absurd (changed same)
Issued-IsWaiting config services found now later key body s p one early changed
      (Issued.replayed request r used row valid usable signed given have print g same) =
    absurd (changed same)
Issued-IsWaiting config services found now later key body s p one early changed
      (Issued.recorded request r counted valid usable signed same committed g) =
    let grant = drip_grant found now in
    let claim = idempotency_claim services.sha256 grant.reference request (given_key key) in
    let before = before_consume config.bundle_size grant request r claim counted in
    let single : count_where (has_id found.id) before.entitlements ≤ 1 =
      subst (λ (d : Database). count_where (has_id found.id) d.entitlements ≤ 1) (sym same) one in
    advance-IsWaiting_after found.id found.interval_seconds now later before p.1 single
      (record_body-consumed config.bundle_size grant request r counted p.1 claim committed) early

-- A pickup of an identifier with at most one entitlement that changes the database has claimed the
-- drip for its interval: whatever calls of either rail, registrations, reconciliations and other
-- pickups follow, no pickup of the entitlement within the interval changes the database, also if its
-- checks saw the drip due before the first one claimed it.
pub drip_once :
    (config : IssuerConfig) (first second : Services) (found again : Schedule) (now later : ℕ)
    (key other_key : Option Str) (body other_body : Json) (s u : Stores)
    → count_where (has_id found.id) s.entitlements ≤ 1
    → (issue config first (drip_grant found now) key body s).1.database ≢ s.database
    → Follows config (issue config first (drip_grant found now) key body s).1 u
    → again.id ≡ found.id
    → later < now + found.interval_seconds * 1000
    → (issue config second (drip_grant again later) other_key other_body u).1.database ≡ u.database
drip_once config first second found again now later key other_key body other_body s u one changed
      follow same early =
    let claimed =
      Issued-IsWaiting config first found now later key body s _ one early changed
        (issue-Issued config first (drip_grant found now) key body s) in
    let (late, there) = Follows-IsWaiting config found.id later _ u follow claimed in
    NotDue-unchanged config second again later other_key other_body u _
      (subst (λ id. NotDue id later u.entitlements) (sym same) late)
      (issue-Issued config second (drip_grant again later) other_key other_body u)
