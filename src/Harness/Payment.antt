-- ===== src/Harness/Payment.antt =====
-- packages/buyer-harness/src/payment.ts. Headers are the list of their names and values. Parameters:
-- `encode` is `Buffer.from(JSON.stringify(_), 'utf8').toString('base64url')`; the random payer and
-- transaction of a receipt are arguments.
use credentials_issuer.Prelude.{
  Bool, true, false, Option, none, some, List, [], ◌∷◌, Str, code_units,
}
use credentials_issuer.Prelude.Json.{Json, Fields, str, obj, arr, cons, field, end, get}
use credentials_issuer.Harness.Outcome.{Outcome, returned, threw, payment_required_error}

abbrev pub Headers : Type 0
Headers = List (Str × Str)

pub record PaymentProvider : Type 0 where
  pub name : Str
  pub initial_headers : Headers
  pub pay : Json → Outcome Headers

unfoldable pub stub_claim_provider : Str → PaymentProvider
stub_claim_provider claim_header_value = record {
  name = code_units "stub-claim";
  initial_headers = (code_units "x-payment-claim", claim_header_value) ∷ [];
  pay = λ requirement. threw payment_required_error;
}

-- A property that is `undefined` is left out by `JSON.stringify`.
unfoldable pub optional_field : Str → Option Json → Fields → Fields
optional_field name none rest = rest
optional_field name (some value) rest = field name value rest

unfoldable pub receipt : Str → Str → Json → Json
unfolding optional_field
receipt payer tx_hash requirement = obj (
    field (code_units "payer") (str payer) (
      field (code_units "tx_hash") (str tx_hash) (
        optional_field (code_units "amount") (get requirement (code_units "amount")) (
          optional_field (code_units "route_id") (get requirement (code_units "route_id"))
            (optional_field (code_units "nonce") (get requirement (code_units "nonce")) end)))))

unfoldable pub stub_receipt_provider : (Json → Str) → Str → Str → PaymentProvider
stub_receipt_provider encode payer tx_hash = record {
  name = code_units "stub-receipt";
  initial_headers = [];
  pay = λ requirement.
      returned ((code_units "x-payment", encode (receipt payer tx_hash requirement)) ∷ []);
}

unfoldable pub no_payment_provider : PaymentProvider
no_payment_provider = record {
  name = code_units "none";
  initial_headers = [];
  pay = λ requirement. threw payment_required_error;
}

-- The argument is `null` where the body is no JSON.
pub object_or_empty : Option Json → Json
object_or_empty (some (obj fields)) = obj fields
object_or_empty (some (arr values)) = arr values
object_or_empty _ = obj end

unfoldable pub parse_payment_requirement : Json → Json
unfolding object_or_empty
parse_payment_requirement body = object_or_empty (get body (code_units "payment"))

-- `Object.keys(requirement).length !== 0`.
unfoldable pub has_keys : Json → Bool
has_keys (obj (field name value fields)) = true
has_keys (arr (cons value values)) = true
has_keys _ = false
