-- ===== src/Bundles/Service/Admission.antt =====
-- The ways a purchase goes before and up to the shared issuance path.
use credentials_issuer.Prelude.{◌≡◌, ◌≢◌, Bool, Option, none, Str, inl, inr}
use credentials_issuer.Prelude.Json.{Json}
use credentials_issuer.Prelude.Result.{
  Result, ok, err, Failure, exception, claim_invalid, claim_rejected, unique_violation, error,
  RejectionReason, Result-cases,
}
use credentials_issuer.Config.{IssuerConfig}
use credentials_issuer.Database.{Stores}
use credentials_issuer.Errors.Base64.{Bytes}
use credentials_issuer.Payment.Claim.{PaymentClaim, parse_payment_claim}
use credentials_issuer.Payment.Verifier.{verify}
use credentials_issuer.Payment.Rejections.{increment, record_rejection}
use credentials_issuer.Issuance.Signing.{BundleResponse}
use credentials_issuer.Issuance.Service.{Services, issue}
use credentials_issuer.Bundles.Service.{parse_reason, on_verify_error, admit, purchase}

-- The stores with one more rejection for a reason, and nothing else changed.
abbrev pub with_rejection : RejectionReason → Stores → Stores
with_rejection reason s = record s {
  database = record s.database { claim_rejections = increment reason s.claim_rejections };
}

module _ (config : IssuerConfig) (decode_json : Str → Option Json)
    (verify_signature : Option (Bytes → Str → Bool)) (services : Services) (header key : Option Str)
    (body : Json) (s : Stores) where
  abbrev verified : PaymentClaim → Result (Unit {0})
  verified claim = verify config.bundle_price verify_signature claim

  pub data Purchase (p : Result BundleResponse × Stores) : Type 0 where
    unreadable :
        (e : Failure)
        → parse_payment_claim decode_json header ≡ err e
        → p ≡ (err e, with_rejection (parse_reason header) s)
        → Purchase p
    refused :
        (claim : PaymentClaim) (reason : RejectionReason)
        → parse_payment_claim decode_json header ≡ ok claim
        → verified claim ≡ err (claim_rejected reason)
        → p ≡ (err (exception claim_invalid), with_rejection reason s)
        → Purchase p
    broken :
        (claim : PaymentClaim) (e : Failure)
        → parse_payment_claim decode_json header ≡ ok claim
        → verified claim ≡ err e
        → ((reason : RejectionReason) → e ≢ claim_rejected reason)
        → p ≡ (err e, s)
        → Purchase p
    accepted :
        (claim : PaymentClaim)
        → parse_payment_claim decode_json header ≡ ok claim
        → verified claim ≡ ok tt
        → p
          ≡ issue config services
              (record { reference = claim.payment_ref; consume = none })
              key
              body
              s
        → Purchase p

  verify_failed-Purchase :
      (claim : PaymentClaim) (e : Failure)
      → parse_payment_claim decode_json header ≡ ok claim
      → verified claim ≡ err e
      → Purchase (purchase config decode_json verify_signature services header key body s)
  unfolding purchase admit on_verify_error record_rejection
  verify_failed-Purchase claim (claim_rejected reason) parsed failed =
      refused claim reason parsed failed (rw (parsed, failed))
  verify_failed-Purchase claim (exception c) parsed failed =
      broken claim (exception c) parsed failed (λ reason same. cc same) (rw (parsed, failed))
  verify_failed-Purchase claim unique_violation parsed failed =
      broken claim unique_violation parsed failed (λ reason same. cc same) (rw (parsed, failed))
  verify_failed-Purchase claim (error m) parsed failed =
      broken claim (error m) parsed failed (λ reason same. cc same) (rw (parsed, failed))

  -- A purchase ends in one of four ways: the claim cannot be read, and its rejection is counted as
  -- missing or malformed; the claim is refused, the reason counted, and CLAIM_INVALID answered; the
  -- verifier fails with something else than a refusal, which is passed on and changes nothing; or the claim is
  -- verified and the issuance runs under its payment reference. In the first three ways no rate
  -- budget is spent and nothing is signed or written beside the count.
  pub purchase-Purchase :
      Purchase (purchase config decode_json verify_signature services header key body s)
  unfolding purchase admit record_rejection
  purchase-Purchase = elim (Result-cases (parse_payment_claim decode_json header)) [
    | inr (e, bad) ↦ unreadable e bad (rw bad)
    | inl (claim, parsed) ↦ elim (Result-cases (verified claim)) [
      | inr (e, failed) ↦ verify_failed-Purchase claim e parsed failed
      | inl (u, good) ↦ accepted claim parsed good (rw (parsed, good))
    ]
  ]
