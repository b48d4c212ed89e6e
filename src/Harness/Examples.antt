-- ===== src/Harness/Examples.antt =====
-- Tests of the harness on concrete inputs.
use credentials_issuer.Prelude.{
  ℕ, ◌≡◌, ◌≢◌, ◌↔◌, ◌⊎◌, refl, subst, Bool, true, false, Option, some, none, List, [], ◌∷◌, Str,
  code_units, arith,
}
use credentials_issuer.Prelude.Json.{
  Json, null, str, obj, arr, cons, nil, field, end, from_list, get,
}
use credentials_issuer.Prelude.Result.{ok}
use credentials_issuer.Errors.Base64.{Bytes, decode_strict_base64}
use credentials_issuer.Database.{empty_stores}
use credentials_issuer.Issuance.Service.Committed.{KeepsLedger}
use credentials_issuer.Payment.Claim.{parse_payment_claim}
use credentials_issuer.Payment.Decimal.{decimal_equals}
use credentials_issuer.Payment.Verifier.{verify}
use credentials_issuer.Examples.{small_config, a_body, a_grant}
use credentials_issuer.Harness.Payment.{stub_receipt_provider}
use credentials_issuer.Harness.Client.{Action, Network, Response, IssuerClient, RequestInit}
use credentials_issuer.Harness.Conformance.{BundleParameters, check_bundle, check_signatures_verify}
use credentials_issuer.Harness.Conformance.Checks.{IsConforming, IsBlob, check_bundle_iff}
use credentials_issuer.Harness.Issued.{bundle_json, issue-check_bundle}
use credentials_issuer.Issuance.Service.Examples.{
  constant_services, constant_response, issued_constant,
}
use credentials_issuer.Harness.Claims.{PaymentClaimFields, signed_claim, sign_payment_claim}
use credentials_issuer.Harness.Claims.Admitted.{claim_of, IsProxyKey, sign_payment_claim-admitted}
use credentials_issuer.Harness.Blinding.{Blind, Suite, prepared_bundle}
use credentials_issuer.Harness.Blinding.Verifies.{
  AreSignaturesOf, AreCredentialsOf, check_signatures_verify-honest,
}
use credentials_issuer.Harness.Purchase.{PurchaseOptions, PurchaseTools, purchase_bundle}
use credentials_issuer.Harness.Purchase.Runs.{Costs, purchase_bundle-Costs}
use credentials_issuer.Harness.Cli.{CliTools, CliValues, main, exit_code, exit_ok}
use credentials_issuer.Harness.Cli.Exit.{KeysConform, BundleConforms, main-exit_ok}

-- A proxy that asks for a payment first, and then answers with a key document.
abbrev a_document : Json
a_document = obj (
    field (code_units "epoch_id") (str (code_units "e")) (
      field (code_units "not_before") (str (code_units "A")) (
        field (code_units "not_after") (str (code_units "Z")) (
          field (code_units "alg") (str (code_units "RSABSSA-SHA384-PSS-Randomized"))
            (field (code_units "pubkey") (str (code_units "AA==")) end)))))

abbrev a_demand : Json
a_demand = obj (
    field (code_units "payment") (obj (field (code_units "amount") (str (code_units "1")) end)) end)

abbrev a_network : Network
a_network (first ∷ []) = some (record { status = 402; body = some a_demand })
a_network _ = some (record { status = 200; body = some a_document })

abbrev encode : Json → Str
encode value = code_units "x"

abbrev a_client : IssuerClient
a_client = record {
  base_url = code_units "http://i/";
  idempotency_key = none;
  payment = stub_receipt_provider encode (code_units "0x1") (code_units "0x2");
  network = a_network;
}

abbrev a_get : RequestInit
a_get = record { headers = []; body = none }

abbrev a_blind : Blind
a_blind = record { prepared = 1 ∷ []; blinded_msg = 2 ∷ []; inv = 3 ∷ [] }

abbrev a_suite : Suite
a_suite = record {
  blind = λ n. some a_blind;
  finalize = λ message signature inv. some (4 ∷ []);
  verify = λ signature message. true;
}

abbrev small_parameters : BundleParameters
small_parameters = record { bundle_size = 1; blank_size_bytes = 1; signature_size_bytes = 1 }

abbrev instant_of : Str → Option ℕ
instant_of (c ∷ []) = some c
instant_of _ = none

abbrev purchase_tools : PurchaseTools
purchase_tools = record { date_parse = instant_of; import_key = λ spki. some a_suite }

purchase_bundle-Costs_example :
    Costs 2 4 []
      (purchase_bundle purchase_tools
        (record { client = a_client; parameters = small_parameters; epoch = none })
        []).done
purchase_bundle-Costs_example =
    purchase_bundle-Costs purchase_tools
      (record { client = a_client; parameters = small_parameters; epoch = none }) []

check_bundle_iff_example :
    ((check_bundle a_demand (some (str (code_units "e"))) small_parameters).passed ≡ true)
    ↔ IsConforming a_demand (code_units "e") small_parameters
check_bundle_iff_example = check_bundle_iff a_demand (code_units "e") small_parameters

one_byte : decode_strict_base64 (str (code_units "AA==")) ≡ some (0 ∷ [])
unfolding decode_strict_base64
one_byte = refl

constant_blobs :
    (e blank signature : Str)
    → constant_services.sign_blinded_blank e blank ≡ ok signature
    → IsBlob 1 (str signature)
constant_blobs e blank signature h =
    let same : code_units "AA==" ≡ signature = cc h in
    subst (λ s. IsBlob 1 (str s)) same (0 ∷ [], one_byte, refl)

keeps : KeepsLedger a_grant
keeps = record {
  idempotency_records = λ consume s e. cc e;
  issuance_records = λ consume s e. cc e;
  epoch_counters = λ consume s e. cc e;
}

asked : get a_body (code_units "epoch") ≡ some (str (code_units "e"))
unfolding credentials_issuer.Prelude.Json.lookup_field credentials_issuer.Prelude.◌===◌
asked = refl

issue-check_bundle_example :
    (check_bundle
      (bundle_json constant_response)
      (some (str (code_units "e")))
      (record { bundle_size = 2; blank_size_bytes = 1; signature_size_bytes = 1 })).passed
    ≡ true
issue-check_bundle_example =
    issue-check_bundle small_config constant_services a_grant none a_body empty_stores
      (record { bundle_size = 2; blank_size_bytes = 1; signature_size_bytes = 1 }) constant_response
      (code_units "e") keeps refl constant_blobs asked issued_constant

abbrev some_fields : PaymentClaimFields
some_fields = record {
  payment_ref = code_units "p";
  amount = code_units "1.00";
  route_id = code_units "r";
}

abbrev a_sign : Str → Bytes
a_sign text = 7 ∷ []

a_sign-IsProxyKey : IsProxyKey a_sign (λ signature text. true)
a_sign-IsProxyKey = record {
  bytes = λ text. omega arith;
  filled = λ text same. cc same;
  agrees = λ text. refl;
}

same_amount : decimal_equals (code_units "1.00") (code_units "1") ≡ true
unfolding decimal_equals credentials_issuer.Payment.Decimal.scaled
    credentials_issuer.Payment.Decimal.is_decimal credentials_issuer.Payment.Decimal.scaled_parts
    credentials_issuer.Payment.Decimal.digits_value
same_amount = refl

sent : sign_payment_claim encode some_fields a_sign ≢ []
unfolding sign_payment_claim
sent same = cc same

sign_payment_claim-admitted_example :
    (parse_payment_claim
        (λ s. some (signed_claim some_fields a_sign))
        (some (sign_payment_claim encode some_fields a_sign))
      ≡ ok (claim_of some_fields a_sign))
    × (verify (code_units "1") (some (λ signature text. true)) (claim_of some_fields a_sign)
        ≡ ok tt)
sign_payment_claim-admitted_example =
    sign_payment_claim-admitted encode (λ s. some (signed_claim some_fields a_sign)) some_fields
      a_sign (λ signature text. true) (code_units "1") (λ same. cc same) (λ same. cc same)
      (λ same. cc same) a_sign-IsProxyKey same_amount sent refl

honest : AreSignaturesOf a_suite (a_blind ∷ []) (str (code_units "AA==") ∷ [])
honest = (
  record {
    text = code_units "AA==";
    is_text = refl;
    signature = 4 ∷ [];
    finalized = refl;
    verified = refl;
    signature_bytes = omega arith;
    message_bytes = omega arith;
  },
  tt,
)

check_signatures_verify-honest_example :
    ((check_signatures_verify
        (prepared_bundle a_suite (a_blind ∷ []))
        (str (code_units "AA==") ∷ [])).0.passed
      ≡ true)
    × AreCredentialsOf a_suite
        (a_blind ∷ [])
        (check_signatures_verify
          (prepared_bundle a_suite (a_blind ∷ []))
          (str (code_units "AA==") ∷ [])).1
check_signatures_verify-honest_example =
    check_signatures_verify-honest a_suite (a_blind ∷ []) (str (code_units "AA==") ∷ []) honest

abbrev cli_tools : CliTools
cli_tools = record {
  purchase = purchase_tools;
  network = λ done. some (record { status = 200; body = some a_document });
  read_file = λ path. none;
  import_pkcs8 = λ der. none;
  encode = encode;
  to_integer = λ text. none;
  random_ref = code_units "r";
  payer = code_units "0x1";
  tx_hash = code_units "0x2";
}

abbrev cli_values : CliValues
cli_values = record {
  url = some (code_units "http://i");
  bundle_size = none;
  blank_size = none;
  signature_size = none;
  epoch = none;
  payment_ref = none;
  idempotency_key = none;
  payment = code_units "stub-claim";
  proxy_key = none;
  amount = none;
  route_id = none;
  keys_only = true;
  help = false;
}

exits : exit_code (main cli_tools cli_values) ≡ some exit_ok
unfolding exit_code main credentials_issuer.Harness.Purchase.check_keys
    credentials_issuer.Harness.Client.key_document credentials_issuer.Harness.Client.read_json
    credentials_issuer.Harness.Conformance.failures credentials_issuer.Harness.Conformance.report
    credentials_issuer.Harness.Conformance.check_key_document
    credentials_issuer.Issuance.Request.non_empty_string
    credentials_issuer.Prelude.Json.lookup_field credentials_issuer.Prelude.◌===◌
exits = refl

main-exit_ok_example :
    ((true ≡ true) × KeysConform cli_tools cli_values)
    ⊎ ((true ≡ false) × BundleConforms cli_tools cli_values)
main-exit_ok_example = main-exit_ok cli_tools cli_values refl exits
