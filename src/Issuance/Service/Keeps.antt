-- ===== src/Issuance/Service/Keeps.antt =====
-- What a purchase and its grant leave alone.
use credentials_issuer.Prelude.{◌≡◌, refl, sym, subst, Option, none, some, List, Str}
use credentials_issuer.Prelude.Json.{Json}
use credentials_issuer.Prelude.Result.{Result}
use credentials_issuer.Effect.{Action}
use credentials_issuer.Config.{IssuerConfig}
use credentials_issuer.Database.{Database, IdempotencyRecord, IssuanceRecord, EpochCounter, Stores}
use credentials_issuer.Issuance.Service.{IssuanceGrant, Services, consume_grant, given_key, issue}
use credentials_issuer.Issuance.Service.Atomic.{Issued, issue-Issued, idempotency_claim}
use credentials_issuer.Issuance.Service.Committed.{record_body-consumed, before_consume}
use credentials_issuer.Issuance.Signing.{BundleResponse}

-- A property that the writes of a purchase and the grant keep holds after a call.
module _ (P : Database → Type 0)
    (written : (d : Database) (keys : List IdempotencyRecord) (ledger : List IssuanceRecord)
        (counters : List EpochCounter)
      → P d
      → P (record d {
        idempotency_records = keys;
        issuance_records = ledger;
        epoch_counters = counters;
      }))
    (config : IssuerConfig) (services : Services) (grant : IssuanceGrant)
    (consumed : (consume : Action Stores (Unit {0})) (s : Stores)
      → grant.consume ≡ some consume
      → P s.database
      → P (consume s).1.database) where
  consume_grant-keeps :
      (consume : Option (Action Stores (Unit {0}))) (s : Stores)
      → grant.consume ≡ consume
      → P s.database
      → P (consume_grant consume s).1.database
  unfolding consume_grant
  consume_grant-keeps none s e h = h
  consume_grant-keeps (some consume) s e h = consumed consume s e h

  Issued-keeps :
      (key : Option Str) (body : Json) (s : Stores) (p : Result BundleResponse × Stores)
      → Issued config services grant key body s p
      → P s.database
      → P p.1.database
  Issued-keeps key body s p (Issued.failed f g same) h = subst P (sym same) h
  Issued-keeps key body s p
        (Issued.replayed request r used row valid usable signed given found print g same) h =
      subst P (sym same) h
  Issued-keeps key body s p (Issued.recorded request r counted valid usable signed same committed g)
        h =
      let claim = idempotency_claim services.sha256 grant.reference request (given_key key) in
      let before = before_consume config.bundle_size grant request r claim counted in
      let kept : P before.database = written counted.database _ _ _ (subst P (sym same) h) in
      subst (λ (q : Result (Unit {0}) × Stores). P q.1.database)
        (record_body-consumed config.bundle_size grant request r counted p.1 claim committed)
        (consume_grant-keeps grant.consume before refl kept)

  pub issue-keeps :
      (key : Option Str) (body : Json) (s : Stores)
      → P s.database
      → P (issue config services grant key body s).1.database
  issue-keeps key body s h =
      Issued-keeps key body s _ (issue-Issued config services grant key body s) h
