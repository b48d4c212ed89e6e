-- ===== src/Harness/Purchase.antt =====
-- packages/buyer-harness/src/purchase.ts: one full buy. The public key of a key document that has no
-- text for it makes `Buffer.from` throw, a `TypeError`; what the library throws is another error.
pub mod Conforms
pub mod Runs
use credentials_issuer.Prelude.{
  ℕ, Bool, true, false, Option, none, some, List, [], ◌∷◌, ◌++◌, Str, code_units, map,
}
use credentials_issuer.Prelude.Json.{Json, Fields, str, arr, obj, field, end, from_list, get}
use credentials_issuer.Errors.Base64.{Bytes}
use credentials_issuer.Issuance.Request.{array_of}
use credentials_issuer.Harness.Outcome.{Outcome, returned, threw, type_error, other_error}
use credentials_issuer.Harness.Payment.{optional_field}
use credentials_issuer.Harness.Client.{
  Action, Call, IssuerClient, PaymentFlow, direct, retry_402, key_document, post_bundle,
}
use credentials_issuer.Harness.Conformance.{
  BundleParameters, CheckResult, ConformanceReport, IssuedCredential, PreparedBundle, report,
  check_bundle, check_credentials, check_key_document, check_signatures_verify,
}
use credentials_issuer.Harness.Blinding.{Suite, prepare}

pub record PurchaseOptions : Type 0 where
  pub client : IssuerClient
  pub parameters : BundleParameters
  pub epoch : Option Str

pub record PurchaseTools : Type 0 where
  pub date_parse : Str → Option ℕ
  pub import_key : Bytes → Option Suite

pub record PurchaseResult : Type 0 where
  pub epoch : Option Json
  pub payment_flow : PaymentFlow
  pub response : Json
  pub credentials : List IssuedCredential
  pub conformance : ConformanceReport

-- `checkKeys`.
unfoldable pub check_keys : PurchaseTools → IssuerClient → List Action → Outcome ConformanceReport
check_keys tools client done = elim (key_document client done).outcome [
  | threw e ↦ threw e
  | returned document ↦ returned (report (check_key_document tools.date_parse document).checks)
]

-- `options.epoch ?? keyDocument.epoch_id`.
unfoldable pub epoch_to_ask : Option Str → Json → Option Json
epoch_to_ask (some epoch) document = some (str epoch)
epoch_to_ask none document = get document (code_units "epoch_id")

-- `blinder.prepare(bundleSize, keyDocument.pubkey)`.
pub prepare_for : PurchaseTools → ℕ → Option Json → Outcome PreparedBundle
prepare_for tools count (some (str pubkey)) = elim (prepare tools.import_key count pubkey) [
  | none ↦ threw other_error
  | some prepared ↦ returned prepared
]
prepare_for tools count _ = threw type_error

unfoldable pub bundle_request : Option Json → PreparedBundle → Json
unfolding optional_field
bundle_request epoch prepared = obj (
    optional_field (code_units "epoch") epoch
      (field (code_units "blinded_blanks") (arr (from_list (map str prepared.blinded_blanks))) end))

-- The client remembers a payment of either call.
pub either_flow : PaymentFlow → PaymentFlow → PaymentFlow
either_flow direct later = later
either_flow retry_402 later = retry_402

-- `finalize` throws on a response that has no list of signatures.
pub check_signatures_of : PreparedBundle → Option (List Json) → CheckResult × List IssuedCredential
check_signatures_of prepared none = check_credentials prepared none
check_signatures_of prepared (some blobs) = check_signatures_verify prepared blobs

pub judged :
    PurchaseTools → PurchaseOptions → Json → PreparedBundle → PaymentFlow → Json → PurchaseResult
unfolding check_signatures_of
judged tools options document prepared flow response =
    let epoch = epoch_to_ask options.epoch document in
    let (check, credentials) =
      check_signatures_of prepared (array_of (get response (code_units "blind_signatures"))) in
    (record {
      epoch = epoch;
      payment_flow = flow;
      response = response;
      credentials = credentials;
      conformance = report (
          (check_key_document tools.date_parse document).checks
          ++ ((check_bundle response epoch options.parameters).checks ++ (check ∷ [])));
    })

-- From the prepared bundle on.
pub buy : PurchaseTools → PurchaseOptions → Json → Call Json → PreparedBundle → Call PurchaseResult
unfolding judged either_flow
buy tools options document first prepared =
    let second =
      post_bundle options.client (bundle_request (epoch_to_ask options.epoch document) prepared)
        first.done in
    let flow = either_flow first.flow second.flow in
    (record {
      outcome = elim second.outcome [
        | threw e ↦ threw e
        | returned response ↦ returned (judged tools options document prepared flow response)
      ];
      done = second.done;
      flow = flow;
    })

pub purchase_bundle : PurchaseTools → PurchaseOptions → List Action → Call PurchaseResult
unfolding buy prepare_for
purchase_bundle tools options done =
    let first = key_document options.client done in
    elim first.outcome [
      | threw e ↦ record { outcome = threw e; done = first.done; flow = first.flow }
      | returned document ↦
          elim (prepare_for tools options.parameters.bundle_size
            (get document (code_units "pubkey"))) [
              | threw e ↦ record { outcome = threw e; done = first.done; flow = first.flow }
              | returned prepared ↦ buy tools options document first prepared
            ]
    ]
