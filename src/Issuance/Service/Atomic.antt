-- ===== src/Issuance/Service/Atomic.antt =====
-- How a call of `issue` can end, and what it has then done to the database.
use credentials_issuer.Prelude.{
  ℕ, ◌≡◌, refl, sym, ap, ◌∙◌, subst, true, Option, none, some, Str, arith, Bool-cases, inl, inr,
  ◌===◌, eq-text-true,
}
use credentials_issuer.Prelude.Json.{Json}
use credentials_issuer.Prelude.Result.{
  Result, ok, err, Failure, exception, unique_violation, idempotency_conflict, rate_limited,
  wrong_epoch, claim_rejected, error, Result-cases,
}
use credentials_issuer.Config.{IssuerConfig}
use credentials_issuer.Database.{Database, IdempotencyRecord, Stores}
use credentials_issuer.Payment.RateLimiter.{allow, count_request, within_budget}
use credentials_issuer.Issuance.Request.{BundleRequest, validate_bundle_request}
use credentials_issuer.Issuance.Signing.{BundleResponse, sign_bundle, fingerprint_request}
use credentials_issuer.Issuance.Service.{
  IssuanceGrant, Services, claimed, given_key, record_body, record_issuance, replay_or_conflict,
  on_record_error, deliver, issue,
}

-- The claim that goes into the transaction: the key and the fingerprint of the request.
abbrev pub idempotency_claim : (Str → Str) → Str → BundleRequest → Option Str → Option (Str × Str)
idempotency_claim sha256 reference request none = none
idempotency_claim sha256 reference request (some key) =
    some (key, fingerprint_request sha256 reference request)

-- The three ways to end after the bundle was signed.
data Delivered (k : ℕ) (sha256 : Str → Str) (grant : IssuanceGrant) (key : Option Str)
    (request : BundleRequest) (response : BundleResponse) (s : Stores)
    (p : Result BundleResponse × Stores) : Type 0 where
  failed : (e : Failure) → p.0 ≡ err e → p.1 ≡ s → Delivered k sha256 grant key request response s p
  recorded :
      p.0 ≡ ok response
      → record_body k grant request response
          (idempotency_claim sha256 grant.reference request key)
          s
        ≡ (ok tt, p.1)
      → Delivered k sha256 grant key request response s p
  replayed :
      (used : Str) (row : IdempotencyRecord)
      → key ≡ some used
      → claimed grant.reference used s ≡ some row
      → row.request_fingerprint ≡ fingerprint_request sha256 grant.reference request
      → p.0 ≡ ok response
      → p.1 ≡ s
      → Delivered k sha256 grant key request response s p

module _ (k : ℕ) (sha256 : Str → Str) (grant : IssuanceGrant) (request : BundleRequest)
    (response : BundleResponse) (s : Stores) where
  replay_or_conflict-Delivered :
      (used : Str) (found : Option IdempotencyRecord)
      → claimed grant.reference used s ≡ found
      → Delivered k sha256 grant
          (some used)
          request
          response
          s
          (replay_or_conflict (fingerprint_request sha256 grant.reference request) response found s)
  unfolding replay_or_conflict
  replay_or_conflict-Delivered used none e = failed (exception idempotency_conflict) refl refl
  replay_or_conflict-Delivered used (some row) e =
      elim (Bool-cases
        (row.request_fingerprint === fingerprint_request sha256 grant.reference request)) [
          | inl same ↦ replayed used row refl e (eq-text-true same) (ground arith) (ground arith)
          | inr other ↦ failed (exception idempotency_conflict) (ground arith) (ground arith)
        ]

  -- A refused key is looked up in the store as it was before the transaction.
  deliver-unique_violation :
      (used : Str)
      → (record_body k grant request response
          (some (used, fingerprint_request sha256 grant.reference request))
          s).0
        ≡ err unique_violation
      → replay_or_conflict
          (fingerprint_request sha256 grant.reference request)
          response
          (claimed grant.reference used s)
          s
        ≡ deliver k sha256 grant (some used) request response s
  unfolding deliver record_issuance on_record_error
  deliver-unique_violation used h = rw h

  thrown-Delivered :
      (used : Str) (e : Failure)
      → (record_body k grant request response
          (some (used, fingerprint_request sha256 grant.reference request))
          s).0
        ≡ err e
      → Delivered k sha256 grant
          (some used)
          request
          response
          s
          (deliver k sha256 grant (some used) request response s)
  unfolding deliver record_issuance on_record_error
  thrown-Delivered used unique_violation h =
      subst (Delivered k sha256 grant (some used) request response s)
        (deliver-unique_violation used h)
        (replay_or_conflict-Delivered used (claimed grant.reference used s) refl)
  thrown-Delivered used (exception c) h = failed (exception c) (ground arith) (ground arith)
  thrown-Delivered used (claim_rejected r) h =
      failed (claim_rejected r) (ground arith) (ground arith)
  thrown-Delivered used (error m) h = failed (error m) (ground arith) (ground arith)

  deliver-Delivered :
      (key : Option Str)
      → Delivered k sha256 grant key request response s
          (deliver k sha256 grant key request response s)
  unfolding deliver record_issuance
  deliver-Delivered none = elim (Result-cases (record_body k grant request response none s).0) [
    | inl (a, done) ↦ recorded (ground arith) (ground arith)
    | inr (e, thrown) ↦ failed e (ground arith) (ground arith)
  ]
  deliver-Delivered (some used) =
      elim (Result-cases
        (record_body k grant request response
          (some (used, fingerprint_request sha256 grant.reference request)) s).0) [
            | inl (a, done) ↦ recorded (ground arith) (ground arith)
            | inr (e, thrown) ↦ thrown-Delivered used e thrown
          ]

-- The ways to end a whole call: `after` holds the stores once the rate limiter has counted the call.
pub data Issued (config : IssuerConfig) (services : Services) (grant : IssuanceGrant)
    (key : Option Str) (body : Json) (s : Stores) (p : Result BundleResponse × Stores)
    : Type 0 where
  failed :
      (e : Failure)
      → p.0 ≡ err e
      → p.1.database ≡ s.database
      → Issued config services grant key body s p
  recorded :
      (request : BundleRequest) (response : BundleResponse) (counted : Stores)
      → validate_bundle_request config body ≡ ok request
      → services.usable request.epoch ≡ true
      → sign_bundle services.sign_blinded_blank request ≡ ok response
      → counted.database ≡ s.database
      → record_body config.bundle_size grant request response
          (idempotency_claim services.sha256 grant.reference request (given_key key))
          counted
        ≡ (ok tt, p.1)
      → p.0 ≡ ok response
      → Issued config services grant key body s p
  replayed :
      (request : BundleRequest) (response : BundleResponse) (used : Str) (row : IdempotencyRecord)
      → validate_bundle_request config body ≡ ok request
      → services.usable request.epoch ≡ true
      → sign_bundle services.sign_blinded_blank request ≡ ok response
      → given_key key ≡ some used
      → claimed grant.reference used s ≡ some row
      → row.request_fingerprint ≡ fingerprint_request services.sha256 grant.reference request
      → p.0 ≡ ok response
      → p.1.database ≡ s.database
      → Issued config services grant key body s p

module _ (config : IssuerConfig) (services : Services) (grant : IssuanceGrant) (key : Option Str)
    (body : Json) (s : Stores) where
  Delivered-Issued :
      (request : BundleRequest) (response : BundleResponse) (counted : Stores)
      (p : Result BundleResponse × Stores)
      → validate_bundle_request config body ≡ ok request
      → services.usable request.epoch ≡ true
      → sign_bundle services.sign_blinded_blank request ≡ ok response
      → counted.database ≡ s.database
      → Delivered config.bundle_size services.sha256 grant
          (given_key key)
          request
          response
          counted
          p
      → Issued config services grant key body s p
  unfolding claimed
  Delivered-Issued request response counted p valid usable signed same (failed e h q) =
      failed e h (ap (λ (t : Stores). t.database) q ∙ same)
  Delivered-Issued request response counted p valid usable signed same (recorded h q) =
      recorded request response counted valid usable signed same q h
  Delivered-Issued request response counted p valid usable signed same
        (replayed used row e c f h q) =
      replayed request response used row valid usable signed e
        (ground (arith, ap (λ (t : Database). t.idempotency_records) same)) f h
        (ap (λ (t : Stores). t.database) q ∙ same)

  -- The stores once the rate limiter has counted the call.
  counted : Stores
  counted = record s {
    redis = count_request config services.now services.redis_now grant.reference s.redis;
  }

  -- Every call of `issue` ends in one of the three ways.
  pub issue-Issued :
      Issued config services grant key body s (issue config services grant key body s)
  unfolding issue allow counted
  issue-Issued =
      elim (Bool-cases
        (within_budget config services.now services.redis_now grant.reference s.redis)) [
          | inr blocked ↦ failed (exception rate_limited) (ground arith) (ground arith)
          | inl allowed ↦ elim (Result-cases (validate_bundle_request config body)) [
            | inr (e, invalid) ↦ failed e (ground arith) (ground arith)
            | inl (request, valid) ↦ elim (Bool-cases (services.usable request.epoch)) [
              | inr expired ↦ failed (exception wrong_epoch) (ground arith) (ground arith)
              | inl usable ↦ elim (Result-cases (sign_bundle services.sign_blinded_blank request)) [
                | inr (e, unsigned) ↦ failed e (ground arith) (ground arith)
                | inl (response, signed) ↦
                    Delivered-Issued request response counted _ valid usable signed refl (
                      subst
                        (Delivered config.bundle_size services.sha256 grant (given_key key) request
                          response counted)
                        (sym (rw (allowed, valid, usable, signed) refl))
                        (deliver-Delivered config.bundle_size services.sha256 grant request response
                          counted (given_key key)))
              ]
            ]
          ]
        ]
