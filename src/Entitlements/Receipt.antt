-- ===== src/Entitlements/Receipt.antt =====
-- entitlements/receipt-validator.service.ts.
use credentials_issuer.Prelude.{Option, some, [], ◌∷◌, Str}
use credentials_issuer.Prelude.Spaces.{trim}
use credentials_issuer.Prelude.Json.{Json, str}
use credentials_issuer.Prelude.Result.{Result, ok, err, exception, receipt_invalid}

non_blank : Str → Result Str
non_blank [] = err (exception receipt_invalid)
non_blank (c ∷ s) = ok (c ∷ s)

-- The subscription that a receipt proves.
unfoldable pub validate_receipt : Option Json → Result Str
unfolding trim non_blank
validate_receipt (some (str s)) = non_blank (trim s)
validate_receipt _ = err (exception receipt_invalid)
