-- ===== src/Issuance/Service/Retries.antt =====
-- What a second call with the same idempotency key gets.
use credentials_issuer.Prelude.{
  ◌≡◌, refl, sym, ap, ◌∙◌, Bool, true, Option, some, List, [], ◌∷◌, Str, arith, inl, inr, find, any,
  ◌===◌, eq-text, eq-text_refl, if◌then◌else◌, Bool-cases,
}
use credentials_issuer.Prelude.Json.{Json}
use credentials_issuer.Prelude.Result.{Result, ok, err, exception, idempotency_conflict}
use credentials_issuer.Config.{IssuerConfig}
use credentials_issuer.Database.{Database, IdempotencyRecord, Stores}
use credentials_issuer.Payment.RateLimiter.{allow, count_request, within_budget}
use credentials_issuer.Issuance.Request.{BundleRequest, validate_bundle_request}
use credentials_issuer.Issuance.Signing.{BundleResponse, sign_bundle, fingerprint_request}
use credentials_issuer.Issuance.Service.{
  IssuanceGrant, Services, has_key, claimed, given_key, deliver, record_issuance, record_body,
  on_record_error, replay_or_conflict, issue,
}
use credentials_issuer.Issuance.Service.Atomic.{Issued, issue-Issued, idempotency_claim}
use credentials_issuer.Issuance.Service.Committed.{KeepsLedger, claimed_keys, record_body-Committed}

any-find :
    (p : IdempotencyRecord → Bool) (rows : List IdempotencyRecord) (row : IdempotencyRecord)
    → find p rows ≡ some row
    → any p rows ≡ true
any-find p [] row h = cc
any-find p (x ∷ rows) row h = elim (Bool-cases (p x)) [
  | inl passes ↦ rw passes
  | inr fails ↦ rw fails (any-find p rows row (ground arith))
]

-- The limiter counts the call, whatever comes after.
abbrev pub counted_call : IssuerConfig → Services → Str → Stores → Stores
counted_call config services reference s = record s {
  redis = count_request config services.now services.redis_now reference s.redis;
}

issue-claimed_stores :
    (config : IssuerConfig) (services : Services) (grant : IssuanceGrant) (key : Option Str)
    (body : Json) (s : Stores) (used : Str) (row : IdempotencyRecord) (request : BundleRequest)
    (response : BundleResponse)
    → within_budget config services.now services.redis_now grant.reference s.redis ≡ true
    → validate_bundle_request config body ≡ ok request
    → services.usable request.epoch ≡ true
    → sign_bundle services.sign_blinded_blank request ≡ ok response
    → given_key key ≡ some used
    → claimed grant.reference used s ≡ some row
    → issue config services grant key body s ≡ (
      if row.request_fingerprint === fingerprint_request services.sha256 grant.reference request
          then ok response
          else err (exception idempotency_conflict),
      counted_call config services grant.reference s,
    )
unfolding issue allow deliver record_issuance record_body on_record_error replay_or_conflict claimed
issue-claimed_stores config services grant key body s used row request response budget valid usable
      signed given found =
    let taken = any-find (has_key grant.reference used) s.idempotency_records row found in
    rw (budget, valid, usable, signed, given, taken, found)
      (elim (Bool-cases
        (row.request_fingerprint === fingerprint_request services.sha256 grant.reference request)) [
          | inl same ↦ rw same refl
          | inr other ↦ rw other refl
        ])

-- A call that gets past the checks with a key that is already claimed: the bundle again if the
-- claim has the fingerprint of this request, and otherwise a conflict. Nothing is written to the
-- database.
pub issue-claimed :
    (config : IssuerConfig) (services : Services) (grant : IssuanceGrant) (key : Option Str)
    (body : Json) (s : Stores) (used : Str) (row : IdempotencyRecord) (request : BundleRequest)
    (response : BundleResponse)
    → within_budget config services.now services.redis_now grant.reference s.redis ≡ true
    → validate_bundle_request config body ≡ ok request
    → services.usable request.epoch ≡ true
    → sign_bundle services.sign_blinded_blank request ≡ ok response
    → given_key key ≡ some used
    → claimed grant.reference used s ≡ some row
    → ((issue config services grant key body s).0 ≡ (
        if row.request_fingerprint === fingerprint_request services.sha256 grant.reference request
        then ok response
        else err (exception idempotency_conflict)))
      × ((issue config services grant key body s).1.database ≡ s.database)
issue-claimed config services grant key body s used row request response budget valid usable signed
      given found =
    let ends =
      issue-claimed_stores config services grant key body s used row request response budget valid
        usable signed given found in
    (ap (λ p. p.0) ends, ap (λ (p : Result BundleResponse × Stores). p.1.database) ends)

found_first :
    (reference key fingerprint : Str) (rows : List IdempotencyRecord)
    → find (has_key reference key) (claimed_keys reference (some (key, fingerprint)) rows)
      ≡ some (record {
        payment_ref = reference;
        idempotency_key = key;
        request_fingerprint = fingerprint;
      })
unfolding has_key
found_first reference key fingerprint rows = rw (eq-text_refl reference, eq-text_refl key)

-- The key of a call that delivered is claimed afterwards, with the fingerprint of its request.
Issued-claimed :
    (config : IssuerConfig) (services : Services) (grant : IssuanceGrant) (key : Option Str)
    (body : Json) (s : Stores) (p : Result BundleResponse × Stores) (used : Str)
    (request : BundleRequest) (response : BundleResponse)
    → KeepsLedger grant
    → Issued config services grant key body s p
    → p.0 ≡ ok response
    → given_key key ≡ some used
    → validate_bundle_request config body ≡ ok request
    → (row : IdempotencyRecord) × (claimed grant.reference used p.1 ≡ some row)
      × (row.request_fingerprint ≡ fingerprint_request services.sha256 grant.reference request)
      × (sign_bundle services.sign_blinded_blank request ≡ ok response)
unfolding claimed
Issued-claimed config services grant key body s p used request response keeps
      (Issued.failed f g same) h given valid =
    cc
Issued-claimed config services grant key body s p used request response keeps
      (Issued.recorded request' r counted valid' usable signed same committed g) h given valid =
    let asked : request' ≡ request = cc (valid', valid) in
    let written =
      record_body-Committed config.bundle_size grant request' r _ counted p.1 keeps committed in
    let row : IdempotencyRecord = record {
      payment_ref = grant.reference;
      idempotency_key = used;
      request_fingerprint = fingerprint_request services.sha256 grant.reference request';
    } in
    (
      row,
      ap (find (has_key grant.reference used)) (
            written.keys
            ∙ ap
                (λ k.
                  claimed_keys grant.reference
                    (idempotency_claim services.sha256 grant.reference request' k)
                    counted.idempotency_records)
                given)
          ∙ found_first grant.reference used row.request_fingerprint counted.idempotency_records,
      ap (fingerprint_request services.sha256 grant.reference) asked,
      cc (signed, asked, g, h),
    )
Issued-claimed config services grant key body s p used request response keeps
      (Issued.replayed request' r used' row valid' usable signed given' found print g same) h given
      valid =
    let asked : request' ≡ request = cc (valid', valid) in
    let reused : used' ≡ used = cc (given', given) in
    (
      row,
      ap (λ (d : Database). find (has_key grant.reference used) d.idempotency_records) same
          ∙ cc (found, reused),
      print ∙ ap (fingerprint_request services.sha256 grant.reference) asked,
      cc (signed, asked, g, h),
    )

-- A retry after a delivery, under the same key and reference and with the same body, at any stores
-- that still have the claim: it gets the same bundle, and changes nothing but the calls that the
-- limiter has counted. The grant's bookkeeping leaves ledger, counters and claimed keys alone, the
-- second call is within its budget and its epoch still usable, and its services may differ in all but
-- the hash and the signatures of the request.
pub issue-retry :
    (config : IssuerConfig) (first second : Services) (grant : IssuanceGrant) (key : Option Str)
    (body : Json) (s t : Stores) (used : Str) (request : BundleRequest) (response : BundleResponse)
    → KeepsLedger grant
    → (issue config first grant key body s).0 ≡ ok response
    → given_key key ≡ some used
    → validate_bundle_request config body ≡ ok request
    → claimed grant.reference used t
      ≡ claimed grant.reference used (issue config first grant key body s).1
    → second.sha256 ≡ first.sha256
    → sign_bundle second.sign_blinded_blank request ≡ sign_bundle first.sign_blinded_blank request
    → second.usable request.epoch ≡ true
    → within_budget config second.now second.redis_now grant.reference t.redis ≡ true
    → issue config second grant key body t
      ≡ (ok response, counted_call config second grant.reference t)
issue-retry config first second grant key body s t used request response keeps h given valid kept
      hash signer usable budget =
    let (row, found, print, signed) =
      Issued-claimed config first grant key body s _ used request response keeps
        (issue-Issued config first grant key body s) h given valid in
    let ends =
      issue-claimed_stores config second grant key body t used row request response budget valid
        usable (signer ∙ signed) given (kept ∙ found) in
    let agree : (row.request_fingerprint
          === fingerprint_request second.sha256 grant.reference request)
        ≡ true =
      (eq-text _ _).1 (
        print ∙ ap (λ (f : Str → Str). fingerprint_request f grant.reference request) (sym hash)) in
    ends ∙ rw agree refl
