-- ===== src/Payment/Verifier.antt =====
-- payment/claim-verifier.service.ts. `verify_signature` is WebCrypto's Ed25519 `verify` under the
-- loaded proxy key, on the signature's bytes and the text whose UTF-8 bytes are signed; it is `none`
-- before the key is loaded.
pub mod Admits
use credentials_issuer.Prelude.{
  Bool, true, false, not, Option, none, some, Str, [], ◌∷◌, code_units,
}
use credentials_issuer.Prelude.Json.{Json}
use credentials_issuer.Prelude.Result.{
  Result, ok, err, Failure, error, claim_rejected, malformed, bad_signature, amount_mismatch, ◌>>=◌,
  ◌>>◌, require,
}
use credentials_issuer.Errors.Base64.{Bytes, to_base64, from_base64}
use credentials_issuer.Issuance.Request.{non_empty_string}
use credentials_issuer.Payment.Decimal.{is_decimal, decimal_equals}
use credentials_issuer.Payment.Claim.{PaymentClaim}
use credentials_issuer.Payment.ClaimSigning.{SignedClaimFields, canonical_claim_payload}

-- `base64ToBytes(Buffer.from(proxy_sig, 'base64url').toString('base64'))`
unfoldable pub signature_bytes : Str → Bytes
signature_bytes proxy_sig = from_base64 (to_base64 (from_base64 proxy_sig))

loaded {ℓ} : {A : Type ℓ} → Option A → Result A
loaded (some a) = ok a
loaded none = err (error (code_units "proxy public key not loaded"))

-- `typeof value !== 'string' || value.length === 0`
present : Option Str → Result Str
present (some s) = ok s
present none = err (claim_rejected malformed)

-- The signature is checked before the amount.
pub verify_parts :
    Str
    → Str
    → Option (Bytes → Str → Bool)
    → Option Str
    → Option Str
    → Option Str
    → Result (Unit {0})
unfolding loaded present
verify_parts bundle_price payment_ref verify_signature amount_field route_id_field proxy_sig_field =
    do
      verify_under_key ← loaded verify_signature
      amount ← present amount_field
      route_id ← present route_id_field
      proxy_sig ← present proxy_sig_field
      let fields : SignedClaimFields = record {
        payment_ref = payment_ref;
        amount = amount;
        route_id = route_id;
      }
      require (verify_under_key (signature_bytes proxy_sig) (canonical_claim_payload fields))
          (claim_rejected bad_signature)
      require (decimal_equals amount bundle_price) (claim_rejected amount_mismatch)

pub verify : Str → Option (Bytes → Str → Bool) → PaymentClaim → Result (Unit {0})
unfolding verify_parts
verify bundle_price verify_signature claim =
    verify_parts bundle_price claim.payment_ref verify_signature (non_empty_string claim.amount)
      (non_empty_string claim.route_id) (non_empty_string claim.proxy_sig)

-- The part of `onModuleInit` behind the import of the key.
unfoldable pub check_price : Str → Result (Unit {0})
check_price bundle_price =
    require (is_decimal bundle_price) (error (code_units "BUNDLE_PRICE must be a decimal string"))
