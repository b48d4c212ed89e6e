-- ===== src/Harness/Cli/Exit.antt =====
-- When the command line says that an issuer conforms.
use credentials_issuer.Prelude.{
  ℕ, ◌≡◌, ◌∙◌, refl, sym, subst, true, false, not, Option, some, none, List, [], ◌∷◌, Str, arith,
  inl, inr, length, all, keep_where, ◌==◌, ◌⊎◌, Bool-cases,
}
use credentials_issuer.Harness.Outcome.{
  Outcome, Outcome-cases, returned, threw, issuer_request_error, payment_required_error, type_error,
  other_error,
}
use credentials_issuer.Harness.Client.{IssuerClient, key_document}
use credentials_issuer.Harness.Payment.{PaymentProvider, no_payment_provider}
use credentials_issuer.Harness.Conformance.{
  BundleParameters, CheckResult, ConformanceReport, report, failures, check_key_document,
}
use credentials_issuer.Harness.Conformance.Documents.{
  IsKeyDocument, check_key_document-IsKeyDocument, key_document_passed,
}
use credentials_issuer.Harness.Purchase.{PurchaseOptions, check_keys, purchase_bundle}
use credentials_issuer.Harness.Purchase.Conforms.{IsGoodPurchase, purchase_bundle-IsGoodPurchase}
use credentials_issuer.Prelude.Json.{Json}
use credentials_issuer.Harness.Cli.{
  CliTools, CliValues, main, with_url, run_keys_only, run_purchase, exit_code, payment_provider,
  claim_fields, parameters_of, exit_ok,
}

no_failures :
    (checks : List CheckResult)
    → length (keep_where (λ c. not c.passed) checks) ≡ 0
    → all (λ c. c.passed) checks ≡ true
no_failures [] h = refl
no_failures (c ∷ cs) h = elim (Bool-cases c.passed) [
  | inl good ↦ rw good (no_failures cs (ground arith))
  | inr bad ↦ ground arith
]

exit_code-ok : (o : Outcome ℕ) → exit_code o ≡ some exit_ok → o ≡ returned exit_ok
unfolding exit_code
exit_code-ok (returned code) h = let same : code ≡ 0 = cc h in rw same
exit_code-ok (threw (issuer_request_error status code)) h = cc h
exit_code-ok (threw payment_required_error) h = cc h
exit_code-ok (threw type_error) h = cc h
exit_code-ok (threw other_error) h = cc h

module _ (tools : CliTools) (values : CliValues) where
  abbrev keys_client : Str → IssuerClient
  keys_client url = record {
    base_url = url;
    idempotency_key = none;
    payment = no_payment_provider;
    network = tools.network;
  }

  -- The key document of the issuer at the URL was read, and is good.
  pub record KeysConform : Type 0 where
    pub url : Str
    pub document : Json
    pub given : values.url ≡ some url
    pub read : (key_document (keys_client url) []).outcome ≡ returned document
    pub good_document : IsKeyDocument tools.purchase.date_parse document

  abbrev options_for : Str → PaymentProvider → BundleParameters → PurchaseOptions
  options_for url payment parameters = record {
    client = record {
      base_url = url;
      idempotency_key = values.idempotency_key;
      payment = payment;
      network = tools.network;
    };
    parameters = parameters;
    epoch = values.epoch;
  }

  -- A bundle was bought from the issuer at the URL, with the payment and the sizes of the flags, and
  -- the purchase is good.
  pub record BundleConforms : Type 0 where
    pub url : Str
    pub payment : PaymentProvider
    pub parameters : BundleParameters
    pub given : values.url ≡ some url
    pub provided :
        payment_provider tools values.payment (claim_fields tools values) values.proxy_key
        ≡ returned payment
    pub sized : parameters_of tools values ≡ returned parameters
    pub good : IsGoodPurchase tools.purchase (options_for url payment parameters) []

  check_keys-IsKeyDocument :
      (url : Str) (conformance : ConformanceReport)
      → values.url ≡ some url
      → check_keys tools.purchase (keys_client url) [] ≡ returned conformance
      → length (failures conformance) ≡ 0
      → KeysConform
  unfolding check_keys failures report
  check_keys-IsKeyDocument url conformance given h none_failed =
      let date_parse = tools.purchase.date_parse in
      elim (Outcome-cases (key_document (keys_client url) []).outcome) [
        | inr (e, bad) ↦ ground arith
        | inl (document, read) ↦
            let made : report (check_key_document date_parse document).checks ≡ conformance =
              ground arith in
            record {
              url = url;
              document = document;
              given = given;
              read = read;
              good_document = check_key_document-IsKeyDocument date_parse document (
                  key_document_passed date_parse document (
                    no_failures (check_key_document date_parse document).checks (
                      subst (λ (r : ConformanceReport). length (failures r) ≡ 0) (sym made)
                        none_failed)));
            }
      ]

  run_keys_only-ok :
      (url : Str) → values.url ≡ some url → run_keys_only tools url ≡ returned exit_ok → KeysConform
  unfolding run_keys_only
  run_keys_only-ok url given h =
      elim (Outcome-cases (check_keys tools.purchase (keys_client url) [])) [
        | inr (e, bad) ↦ ground arith
        | inl (conformance, judged) ↦ elim (Bool-cases (length (failures conformance) == 0)) [
          | inr some_failed ↦ ground arith
          | inl none_failed ↦
              check_keys-IsKeyDocument url conformance given judged (ground (arith, none_failed))
        ]
      ]

  run_purchase-ok :
      (url : Str)
      → values.url ≡ some url
      → run_purchase tools values url ≡ returned exit_ok
      → BundleConforms
  unfolding run_purchase
  run_purchase-ok url given h =
      elim (Outcome-cases
        (payment_provider tools values.payment (claim_fields tools values) values.proxy_key)) [
          | inr (e, bad) ↦ ground arith
          | inl (payment, provided) ↦ elim (Outcome-cases (parameters_of tools values)) [
            | inr (e, bad) ↦ ground arith
            | inl (parameters, sized) ↦
                let options = options_for url payment parameters in
                elim (Outcome-cases (purchase_bundle tools.purchase options []).outcome) [
                  | inr (e, bad) ↦ ground arith
                  | inl (result, bought) ↦ elim (Bool-cases result.conformance.passed) [
                    | inr failed ↦ ground arith
                    | inl passed ↦ record {
                      url = url;
                      payment = payment;
                      parameters = parameters;
                      given = given;
                      provided = provided;
                      sized = sized;
                      good =
                          purchase_bundle-IsGoodPurchase tools.purchase options [] result bought
                            passed;
                    }
                  ]
                ]
          ]
        ]

  with_url-ok :
      (url : Option Str)
      → values.url ≡ url
      → with_url tools values url ≡ returned exit_ok
      → ((values.keys_only ≡ true) × KeysConform) ⊎ ((values.keys_only ≡ false) × BundleConforms)
  unfolding with_url
  with_url-ok none given h = ground arith
  with_url-ok (some []) given h = ground arith
  with_url-ok (some (c ∷ url)) given h = elim (Bool-cases values.keys_only) [
    | inl only ↦ inl (only, run_keys_only-ok (c ∷ url) given (ground arith))
    | inr full ↦ inr (full, run_purchase-ok (c ∷ url) given (ground arith))
  ]

  -- Unless help was asked for, the exit code 0 means that the issuer at the given URL conforms. With
  -- `--keys-only`: its key document was read, has all its fields, the suite and a window that is not
  -- empty. Without it: this holds as well, and a bundle was bought with the payment and the sizes of
  -- the flags, has as many signatures as configured, each of the configured size, and the epoch that
  -- was asked for, and its signatures, unblinded, all verify.
  pub main-exit_ok :
      values.help ≡ false
      → exit_code (main tools values) ≡ some exit_ok
      → ((values.keys_only ≡ true) × KeysConform) ⊎ ((values.keys_only ≡ false) × BundleConforms)
  unfolding main
  main-exit_ok no_help h =
      let ended = exit_code-ok (main tools values) h in
      let went : main tools values ≡ with_url tools values values.url = rw no_help refl in
      with_url-ok values.url refl (sym went ∙ ended)
