-- ===== src/Payment/Claim.antt =====
-- payment/payment-claim.ts. The fields beside `payment_ref` stay values of the parsed object.
-- `decode_json` stands for `JSON.parse(Buffer.from(header, 'base64url').toString('utf8'))`, with
-- `none` where it throws.
use credentials_issuer.Prelude.{Option, none, some, ◌∷◌, Str, code_units}
use credentials_issuer.Prelude.Json.{Json, is_object, get}
use credentials_issuer.Prelude.Result.{
  Result, ok, err, exception, claim_invalid, ◌>>=◌, ◌>>◌, require,
}
use credentials_issuer.Issuance.Request.{non_empty_string}

pub record PaymentClaim : Type 0 where
  pub payment_ref : Str
  pub amount : Option Json
  pub route_id : Option Json
  pub proxy_sig : Option Json

unfoldable pub or_claim_invalid {ℓ} : {A : Type ℓ} → Option A → Result A
or_claim_invalid (some a) = ok a
or_claim_invalid none = err (exception claim_invalid)

-- `if (!header)`: an absent header and an empty one.
unfoldable pub header_text : Option Str → Option Str
header_text (some (c ∷ s)) = some (c ∷ s)
header_text _ = none

unfoldable pub parse_payment_claim : (Str → Option Json) → Option Str → Result PaymentClaim
unfolding or_claim_invalid header_text non_empty_string
parse_payment_claim decode_json header = do
  text ← or_claim_invalid (header_text header)
  parsed ← or_claim_invalid (decode_json text)
  require (is_object parsed) (exception claim_invalid)
  payment_ref ← or_claim_invalid (non_empty_string (get parsed (code_units "payment_ref")))
  ok (record {
    payment_ref = payment_ref;
    amount = get parsed (code_units "amount");
    route_id = get parsed (code_units "route_id");
    proxy_sig = get parsed (code_units "proxy_sig");
  })
