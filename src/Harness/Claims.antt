-- ===== src/Harness/Claims.antt =====
-- packages/buyer-harness/src/claim.ts, the harness's own version of the proxy's signed claim.
-- Parameters: `sign` is WebCrypto's Ed25519 `sign` under the proxy's key, on the text whose UTF-8
-- bytes are signed, `import_pkcs8` its import of the key, and `encode` is
-- `Buffer.from(JSON.stringify(_), 'utf8').toString('base64url')`.
pub mod Admitted
use credentials_issuer.Prelude.{Option, none, some, List, [], ◌∷◌, Str, code_units}
use credentials_issuer.Prelude.Json.{Json, str, obj, field, end}
use credentials_issuer.Prelude.Result.{Result, ok, err, error, ◌>>=◌}
use credentials_issuer.Errors.Base64.{Bytes}
use credentials_issuer.Errors.Base64.Canonical.Url.{to_base64url}
use credentials_issuer.Keys.Pem.{pkcs8_pem_to_der}
use credentials_issuer.Stringify.{stringify}

pub record PaymentClaimFields : Type 0 where
  pub payment_ref : Str
  pub amount : Str
  pub route_id : Str

unfoldable pub canonical_claim_payload : PaymentClaimFields → Str
canonical_claim_payload fields = stringify (
    (code_units "amount", fields.amount)
    ∷ (code_units "payment_ref", fields.payment_ref)
    ∷ (code_units "route_id", fields.route_id)
    ∷ [])

-- The text of the key is read by the same steps as in apps/backend/src/keys/pem.ts.
unfoldable pub import_proxy_signing_key :
    (Bytes → Option (Str → Bytes)) → Str → Result (Str → Bytes)
import_proxy_signing_key import_pkcs8 pem = do
  der ← pkcs8_pem_to_der pem
  elim (import_pkcs8 der) [
    | none ↦ err (error (code_units "the proxy key cannot be imported"))
    | some sign ↦ ok sign
  ]

-- The claim under its signature.
pub signed_claim : PaymentClaimFields → (Str → Bytes) → Json
signed_claim fields sign = obj (
    field (code_units "payment_ref") (str fields.payment_ref) (
      field (code_units "amount") (str fields.amount) (
        field (code_units "route_id") (str fields.route_id) (
          field (code_units "proxy_sig")
            (str (to_base64url (sign (canonical_claim_payload fields)))) end))))

unfoldable pub sign_payment_claim : (Json → Str) → PaymentClaimFields → (Str → Bytes) → Str
sign_payment_claim encode fields sign = encode (signed_claim fields sign)

unfoldable pub encode_payment_claim : (Json → Str) → Str → Str
encode_payment_claim encode payment_ref =
    encode (obj (field (code_units "payment_ref") (str payment_ref) end))
