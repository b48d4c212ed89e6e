-- ===== src/Bundles/Service.antt =====
-- bundles/bundles.service.ts. `decode_json` and `verify_signature` are those of the modules
-- Payment.Claim and Payment.Verifier.
pub mod Admission
use credentials_issuer.Prelude.{Bool, Option, none, some, Str}
use credentials_issuer.Prelude.Json.{Json}
use credentials_issuer.Prelude.Result.{
  ok, Failure, exception, claim_invalid, claim_rejected, RejectionReason, missing, malformed,
}
use credentials_issuer.Effect.{Action, lift, throw, catch, ◌>>=◌, ◌>>◌}
use credentials_issuer.Config.{IssuerConfig}
use credentials_issuer.Database.{Stores}
use credentials_issuer.Errors.Base64.{Bytes}
use credentials_issuer.Payment.Claim.{PaymentClaim, parse_payment_claim, header_text}
use credentials_issuer.Payment.Verifier.{verify}
use credentials_issuer.Payment.Rejections.{record_rejection}
use credentials_issuer.Issuance.Signing.{BundleResponse}
use credentials_issuer.Issuance.Service.{Services, issue}

-- `claimHeader ? 'malformed' : 'missing'`
pub parse_reason : Option Str → RejectionReason
parse_reason header = elim (header_text header) [ none ↦ missing | some s ↦ malformed ]

-- A rejected claim is counted and told as `CLAIM_INVALID`; another error goes on.
pub on_verify_error : Failure → Action Stores PaymentClaim
on_verify_error (claim_rejected reason) = do
  record_rejection reason
  throw (exception claim_invalid)
on_verify_error e = throw e

module _ (config : IssuerConfig) (decode_json : Str → Option Json)
    (verify_signature : Option (Bytes → Str → Bool)) where
  pub admit : Option Str → Action Stores PaymentClaim
  unfolding on_verify_error parse_reason
  admit header = do
    claim ←
        catch (lift (parse_payment_claim decode_json header))
          (λ e. (record_rejection (parse_reason header) >> throw e))
    catch (do lift (verify config.bundle_price verify_signature claim); λ s. (ok claim, s))
        on_verify_error

  pub purchase : Services → Option Str → Option Str → Json → Action Stores BundleResponse
  purchase services header idempotency_key body = do
    claim ← admit header
    issue config services (record { reference = claim.payment_ref; consume = none }) idempotency_key
        body
