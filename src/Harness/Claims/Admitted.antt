-- ===== src/Harness/Claims/Admitted.antt =====
-- The issuer admits the claims that the harness signs, and refuses those that it leaves unsigned.
use credentials_issuer.Prelude.{
  ◌≡◌, ◌≢◌, refl, ap, subst, true, Bool, Option, some, [], ◌∷◌, Str, code_units, length, ◌===◌,
}
use credentials_issuer.Prelude.Json.{Json, str, is_object, get, lookup_field}
use credentials_issuer.Prelude.Result.{ok}
use credentials_issuer.Errors.Base64.{Bytes, from_base64, to_base64}
use credentials_issuer.Errors.Base64.Canonical.{IsBytes, from_base64-to_base64}
use credentials_issuer.Errors.Base64.Canonical.Url.{
  to_base64url, from_base64-to_base64url, to_base64url-nonempty,
}
use credentials_issuer.Issuance.Request.Accepted.{non_empty_string-str}
use credentials_issuer.Payment.Claim.{
  PaymentClaim, parse_payment_claim, header_text, or_claim_invalid,
}
use credentials_issuer.Payment.ClaimSigning
use credentials_issuer.Payment.Decimal.{decimal_equals}
use credentials_issuer.Payment.Verifier.{verify, signature_bytes}
use credentials_issuer.Payment.Verifier.Admits.{verify_iff}
use credentials_issuer.Harness.Claims.{
  PaymentClaimFields, canonical_claim_payload, signed_claim, sign_payment_claim,
}

-- The claim that the issuer reads out of the header.
abbrev pub claim_of : PaymentClaimFields → (Str → Bytes) → PaymentClaim
claim_of fields sign = record {
  payment_ref = fields.payment_ref;
  amount = some (str fields.amount);
  route_id = some (str fields.route_id);
  proxy_sig = some (str (to_base64url (sign (canonical_claim_payload fields))));
}

-- The proxy's key pair as documented: what is signed is accepted, and a signature is some bytes.
pub record IsProxyKey (sign : Str → Bytes) (check : Bytes → Str → Bool) : Type 0 where
  pub bytes : (text : Str) → IsBytes (sign text)
  pub filled : (text : Str) → sign text ≢ []
  pub agrees : (text : Str) → check (sign text) text ≡ true

header_text-filled : (header : Str) → header ≢ [] → header_text (some header) ≡ some header
unfolding header_text
header_text-filled [] h = absurd (h refl)
header_text-filled (c ∷ s) h = refl

get-signed_claim :
    (fields : PaymentClaimFields) (sign : Str → Bytes)
    → (is_object (signed_claim fields sign) ≡ true)
      × (get (signed_claim fields sign) (code_units "payment_ref") ≡ some (str fields.payment_ref))
      × (get (signed_claim fields sign) (code_units "amount") ≡ some (str fields.amount))
      × (get (signed_claim fields sign) (code_units "route_id") ≡ some (str fields.route_id))
      × (get (signed_claim fields sign) (code_units "proxy_sig")
          ≡ some (str (to_base64url (sign (canonical_claim_payload fields)))))
unfolding signed_claim lookup_field ◌===◌
get-signed_claim fields sign = (refl, refl, refl, refl, refl)

-- Both sides have their own version of the text that is signed: it is the same.
canonical_claim_payload-agrees :
    (fields : PaymentClaimFields)
    → canonical_claim_payload fields
      ≡ ClaimSigning.canonical_claim_payload (record {
        payment_ref = fields.payment_ref;
        amount = fields.amount;
        route_id = fields.route_id;
      })
unfolding canonical_claim_payload ClaimSigning.canonical_claim_payload
canonical_claim_payload-agrees fields = refl

-- A claim with its three fields that the harness signs with the proxy's key, over the price of a
-- bundle, comes through: where the header decodes to the JSON it was made of, the issuer parses the
-- claim that was signed, and its verifier accepts it.
pub sign_payment_claim-admitted :
    (encode : Json → Str) (decode_json : Str → Option Json) (fields : PaymentClaimFields)
    (sign : Str → Bytes) (check : Bytes → Str → Bool) (bundle_price : Str)
    → fields.payment_ref ≢ []
    → fields.amount ≢ []
    → fields.route_id ≢ []
    → IsProxyKey sign check
    → decimal_equals fields.amount bundle_price ≡ true
    → sign_payment_claim encode fields sign ≢ []
    → decode_json (sign_payment_claim encode fields sign) ≡ some (signed_claim fields sign)
    → (parse_payment_claim decode_json (some (sign_payment_claim encode fields sign))
        ≡ ok (claim_of fields sign))
      × (verify bundle_price (some check) (claim_of fields sign) ≡ ok tt)
unfolding parse_payment_claim or_claim_invalid
sign_payment_claim-admitted encode decode_json fields sign check bundle_price named priced routed k
      equal header decoded =
    let (object, reference, amount, route, signature) = get-signed_claim fields sign in
    let text = canonical_claim_payload fields in
    let sent : check (from_base64 (to_base64 (from_base64 (to_base64url (sign text))))) text
        ≡ true =
      rw
        (
          from_base64-to_base64url (sign text) (k.bytes text),
          from_base64-to_base64 (sign text) (k.bytes text),
        )
        (k.agrees text) in
    (
      rw (
        header_text-filled _ header,
        decoded,
        object,
        reference,
        non_empty_string-str fields.payment_ref named,
        amount,
        route,
        signature,
      ),
      (verify_iff bundle_price (some check) (claim_of fields sign)).1 (record {
        verify_under_key = check;
        amount = fields.amount;
        route_id = fields.route_id;
        proxy_sig = to_base64url (sign text);
        key_loaded = refl;
        has_amount = non_empty_string-str fields.amount priced;
        has_route_id = non_empty_string-str fields.route_id routed;
        has_proxy_sig =
            non_empty_string-str _ (λ none_left.
              to_base64url-nonempty (sign text) (k.filled text) (ap length none_left));
        signed =
            unfold signature_bytes in
            subst
              (λ t.
                check (from_base64 (to_base64 (from_base64 (to_base64url (sign text))))) t ≡ true)
              (canonical_claim_payload-agrees fields) sent;
        priced = equal;
      }),
    )
