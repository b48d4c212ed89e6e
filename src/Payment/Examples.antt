-- ===== src/Payment/Examples.antt =====
-- Tests of the payment claims on concrete inputs.
use credentials_issuer.Prelude.{
  ◌≡◌, ◌↔◌, ◌≤◌, ◌*◌, ◌^◌, refl, Bool, true, false, Option, some, [], ◌∷◌, Str, code_units,
  count_where, arith, List, ap, sym, subst, ◌∙◌, ◌===◌, ◌&&◌,
}
use credentials_issuer.Prelude.Json.{str}
use credentials_issuer.Prelude.Result.{ok}
use credentials_issuer.Errors.Base64.{Bytes}
use credentials_issuer.Issuance.Request.{non_empty_string}
use credentials_issuer.Payment.Claim.{PaymentClaim}
use credentials_issuer.Payment.ClaimSigning.{
  SignedClaimFields, canonical_claim_payload, canonical_claim_payload-injective,
}
use credentials_issuer.Payment.Decimal.{is_digit, decimal_equals, is_decimal}
use credentials_issuer.Payment.Decimal.Digits.{IsDigits, decimal_text}
use credentials_issuer.Payment.Decimal.Values.{
  SameSigned, numerator, decimal_equals_iff, decimal_equals_excess,
}
use credentials_issuer.Payment.RateLimiter.Window.{
  RateCall, allowed_of, in_window, allowed_in_window,
}
use credentials_issuer.Payment.Verifier.{verify, signature_bytes}
use credentials_issuer.Payment.Verifier.Admits.{IsAdmitted, IsSigned, verify_iff, verify-unsigned}
use credentials_issuer.Examples.{small_config}

abbrev a_claim : PaymentClaim
a_claim = record {
  payment_ref = code_units "p";
  amount = some (str (code_units "1.0"));
  route_id = some (str (code_units "r"));
  proxy_sig = some (str (code_units "AA"));
}

abbrev any_signature : Option (Bytes → Str → Bool)
any_signature = some (λ bytes payload. true)

verify_iff_example :
    (verify (code_units "1.00") any_signature a_claim ≡ ok tt)
    ↔ IsAdmitted (code_units "1.00") any_signature a_claim
verify_iff_example = verify_iff (code_units "1.00") any_signature a_claim

abbrev another_claim : SignedClaimFields
another_claim = record {
  payment_ref = code_units "q";
  amount = code_units "1.0";
  route_id = code_units "r";
}

-- A key under which one signature was ever made, over another claim.
abbrev one_signature : Bytes → Str → Bool
one_signature bytes payload =
    (bytes === (7 ∷ [])) && (payload === canonical_claim_payload another_claim)

a_claim_signature :
    (proxy_sig : Str)
    → non_empty_string a_claim.proxy_sig ≡ some proxy_sig
    → code_units "AA" ≡ proxy_sig
unfolding non_empty_string
a_claim_signature proxy_sig given = cc given

a_claim_bytes : signature_bytes (code_units "AA") ≡ 0 ∷ []
unfolding signature_bytes credentials_issuer.Errors.Base64.from_base64
    credentials_issuer.Errors.Base64.to_base64
a_claim_bytes = refl

a_claim-unsigned : ¬ IsSigned one_signature a_claim
unfolding credentials_issuer.Prelude.◌===◌
a_claim-unsigned (amount, route_id, proxy_sig, a, r, given, good) =
    let read : signature_bytes proxy_sig ≡ 0 ∷ [] =
      sym (ap signature_bytes (a_claim_signature proxy_sig given)) ∙ a_claim_bytes in
    let payload =
      canonical_claim_payload
        (record { payment_ref = a_claim.payment_ref; amount = amount; route_id = route_id }) in
    let forged : false ≡ true = subst (λ bytes. one_signature bytes payload ≡ true) read good in
    cc forged

verify-unsigned_example :
    verify (code_units "1") (some one_signature) a_claim
    ≡ verify (code_units "2") (some one_signature) a_claim
verify-unsigned_example =
    verify-unsigned (code_units "1") (code_units "2") one_signature a_claim a_claim-unsigned

abbrev some_fields : SignedClaimFields
some_fields = record {
  payment_ref = code_units "p";
  amount = code_units "1";
  route_id = code_units "\"r";
}

canonical_claim_payload-injective_example :
    (some_fields.payment_ref ≡ some_fields.payment_ref)
    × (some_fields.amount ≡ some_fields.amount)
    × (some_fields.route_id ≡ some_fields.route_id)
canonical_claim_payload-injective_example =
    canonical_claim_payload-injective some_fields some_fields
      (record { payment_ref = omega arith; amount = omega arith; route_id = omega arith })
      (record { payment_ref = omega arith; amount = omega arith; route_id = omega arith }) refl

abbrev a_history : List RateCall
a_history =
    record { reference = code_units "p"; at = 90000 }
    ∷ record { reference = code_units "q"; at = 40000 }
    ∷ record { reference = code_units "p"; at = 10000 }
    ∷ []

allowed_in_window_example :
    count_where (in_window 60000 90000) (allowed_of small_config (code_units "p") a_history) ≤ 3
allowed_in_window_example =
    allowed_in_window small_config (code_units "p") 90000 a_history (omega arith) (omega arith)

one-IsDigits : IsDigits (code_units "1")
unfolding is_digit
one-IsDigits = (refl, tt)

five-IsDigits : IsDigits (code_units "5")
unfolding is_digit
five-IsDigits = (refl, tt)

fifty-IsDigits : IsDigits (code_units "50")
unfolding is_digit
fifty-IsDigits = (refl, (refl, tt))

nineteen_zeros-IsDigits : IsDigits (code_units "0000000000000000000")
unfolding is_digit
nineteen_zeros-IsDigits = (
  refl,
  (
    refl,
    (
      refl,
      (
        refl,
        (
          refl,
          (
            refl,
            (
              refl,
              (
                refl,
                (
                  refl,
                  (
                    refl,
                    (refl, (refl, (refl, (refl, (refl, (refl, (refl, (refl, (refl, tt))))))))),
                  ),
                ),
              ),
            ),
          ),
        ),
      ),
    ),
  ),
)

decimal_equals_iff_example :
    (decimal_equals
        (decimal_text false (code_units "1") (code_units "5"))
        (decimal_text true (code_units "1") (code_units "50"))
      ≡ true)
    ↔ SameSigned false
        (numerator (code_units "1") (code_units "5") * 10 ^ 2)
        true
        (numerator (code_units "1") (code_units "50") * 10 ^ 1)
decimal_equals_iff_example =
    decimal_equals_iff false true (code_units "1") (code_units "5") (code_units "1")
      (code_units "50") (ground arith) (ground arith) one-IsDigits five-IsDigits one-IsDigits
      fifty-IsDigits (omega arith) (omega arith)

decimal_equals_excess_example :
    (is_decimal (decimal_text false (code_units "1") (code_units "0000000000000000000")) ≡ true)
    × (decimal_equals
          (decimal_text false (code_units "1") (code_units "0000000000000000000"))
          (decimal_text false (code_units "1") (code_units "0000000000000000000"))
        ≡ false)
decimal_equals_excess_example =
    decimal_equals_excess false (code_units "1") (code_units "0000000000000000000")
      (decimal_text false (code_units "1") (code_units "0000000000000000000")) (ground arith)
      one-IsDigits nineteen_zeros-IsDigits (omega arith)
