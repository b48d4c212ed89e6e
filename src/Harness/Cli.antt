-- ===== src/Harness/Cli.antt =====
-- packages/buyer-harness/src/cli.ts, from the parsed flags to the exit code. Parameters: `read_file` is
-- the text of a file, `to_integer` is what `Number` makes of a text, if that is an integer, and the
-- random reference and receipt are arguments. What is printed is left out.
pub mod Exit
use credentials_issuer.Prelude.{
  ℕ, Bool, true, false, Option, none, some, List, [], ◌∷◌, Str, code_units, length, leb, ltb, ◌==◌,
  ◌===◌, if◌then◌else◌,
}
use credentials_issuer.Prelude.Int.{ℤ, pos, negsuc}
use credentials_issuer.Prelude.Json.{Json}
use credentials_issuer.Prelude.Result.{Result, ok, err}
use credentials_issuer.Config.{get_or}
use credentials_issuer.Errors.Base64.{Bytes}
use credentials_issuer.Harness.Outcome.{
  HarnessError, Outcome, returned, threw, issuer_request_error, payment_required_error, type_error,
  other_error, ◌>>=◌,
}
use credentials_issuer.Harness.Payment.{
  PaymentProvider, stub_claim_provider, stub_receipt_provider, no_payment_provider,
}
use credentials_issuer.Harness.Claims.{
  PaymentClaimFields, import_proxy_signing_key, sign_payment_claim,
}
use credentials_issuer.Harness.Client.{Action, IssuerClient, Network}
use credentials_issuer.Harness.Conformance.{BundleParameters, ConformanceReport, failures}
use credentials_issuer.Harness.Purchase.{
  PurchaseOptions, PurchaseResult, PurchaseTools, check_keys, purchase_bundle,
}

abbrev pub exit_ok : ℕ
exit_ok = 0

abbrev pub exit_nonconforming : ℕ
exit_nonconforming = 1

abbrev pub exit_unusable : ℕ
exit_unusable = 2

pub record CliValues : Type 0 where
  pub url : Option Str
  pub bundle_size : Option Str
  pub blank_size : Option Str
  pub signature_size : Option Str
  pub epoch : Option Str
  pub payment_ref : Option Str
  pub idempotency_key : Option Str
  pub payment : Str
  pub proxy_key : Option Str
  pub amount : Option Str
  pub route_id : Option Str
  pub keys_only : Bool
  pub help : Bool

pub record CliTools : Type 0 where
  pub purchase : PurchaseTools
  pub network : Network
  pub read_file : Str → Option Str
  pub import_pkcs8 : Bytes → Option (Str → Bytes)
  pub encode : Json → Str
  pub to_integer : Str → Option ℤ
  pub random_ref : Str
  pub payer : Str
  pub tx_hash : Str

pub default_bundle_parameters : BundleParameters
default_bundle_parameters = record {
  bundle_size = 10;
  blank_size_bytes = 256;
  signature_size_bytes = 256;
}

-- `Number.isInteger(parsed) && parsed > 0`, or a `TypeError`.
pub positive : Option ℤ → Outcome ℕ
positive none = threw type_error
positive (some (negsuc n)) = threw type_error
positive (some (pos n)) = if ltb 0 n then returned n else threw type_error

pub positive_int_flag : CliTools → Option Str → ℕ → Outcome ℕ
unfolding positive
positive_int_flag tools none fallback = returned fallback
positive_int_flag tools (some value) fallback = positive (tools.to_integer value)

-- `createStubClaimProvider`, on the text of the key's file.
pub create_stub_claim_provider : CliTools → PaymentClaimFields → Str → Outcome PaymentProvider
create_stub_claim_provider tools fields pem =
    elim (import_proxy_signing_key tools.import_pkcs8 pem) [
      | err failure ↦ threw other_error
      | ok sign ↦ returned (stub_claim_provider (sign_payment_claim tools.encode fields sign))
    ]

-- The mode `stub-claim`: an absent path and an empty one are refused.
pub stub_claim : CliTools → PaymentClaimFields → Option Str → Outcome PaymentProvider
unfolding create_stub_claim_provider
stub_claim tools fields none = threw type_error
stub_claim tools fields (some []) = threw type_error
stub_claim tools fields (some (c ∷ path)) = elim (tools.read_file (c ∷ path)) [
  | none ↦ threw other_error
  | some pem ↦ create_stub_claim_provider tools fields pem
]

unfoldable pub payment_provider :
    CliTools → Str → PaymentClaimFields → Option Str → Outcome PaymentProvider
unfolding stub_claim
payment_provider tools mode fields proxy_key_path =
    if mode === code_units "stub-claim"
    then stub_claim tools fields proxy_key_path
    else if mode === code_units "stub-receipt"
    then returned (stub_receipt_provider tools.encode tools.payer tools.tx_hash)
    else if mode === code_units "none"
    then returned no_payment_provider
    else threw type_error

unfoldable pub parameters_of : CliTools → CliValues → Outcome BundleParameters
unfolding positive_int_flag default_bundle_parameters
parameters_of tools values = do
  bundle_size ← positive_int_flag tools values.bundle_size default_bundle_parameters.bundle_size
  blank_size_bytes ←
      positive_int_flag tools values.blank_size default_bundle_parameters.blank_size_bytes
  signature_size_bytes ←
      positive_int_flag tools values.signature_size default_bundle_parameters.signature_size_bytes
  returned (record {
    bundle_size = bundle_size;
    blank_size_bytes = blank_size_bytes;
    signature_size_bytes = signature_size_bytes;
  })

-- The claim of the flags, with the defaults of those that are absent.
unfoldable pub claim_fields : CliTools → CliValues → PaymentClaimFields
claim_fields tools values = record {
  payment_ref = get_or values.payment_ref tools.random_ref;
  amount = get_or values.amount (code_units "1.00");
  route_id = get_or values.route_id (code_units "route-1");
}

pub run_keys_only : CliTools → Str → Outcome ℕ
run_keys_only tools url = do
  conformance ←
      check_keys tools.purchase
        (record {
          base_url = url;
          idempotency_key = none;
          payment = no_payment_provider;
          network = tools.network;
        })
        []
  returned (if length (failures conformance) == 0 then exit_ok else exit_nonconforming)

pub run_purchase : CliTools → CliValues → Str → Outcome ℕ
run_purchase tools values url = do
  payment ← payment_provider tools values.payment (claim_fields tools values) values.proxy_key
  parameters ← parameters_of tools values
  result ←
      (purchase_bundle tools.purchase
        (record {
          client = record {
            base_url = url;
            idempotency_key = values.idempotency_key;
            payment = payment;
            network = tools.network;
          };
          parameters = parameters;
          epoch = values.epoch;
        })
        []).outcome
  returned (if result.conformance.passed then exit_ok else exit_nonconforming)

pub with_url : CliTools → CliValues → Option Str → Outcome ℕ
unfolding run_keys_only run_purchase
with_url tools values none = returned exit_unusable
with_url tools values (some []) = returned exit_unusable
with_url tools values (some (c ∷ url)) =
    if values.keys_only then run_keys_only tools (c ∷ url) else run_purchase tools values (c ∷ url)

unfoldable pub main : CliTools → CliValues → Outcome ℕ
unfolding with_url
main tools values = if values.help then returned exit_ok else with_url tools values values.url

-- The `catch` around `main`: `none` where the error goes on to the runtime.
unfoldable pub exit_code : Outcome ℕ → Option ℕ
exit_code (returned code) = some code
exit_code (threw (issuer_request_error status code)) = some exit_unusable
exit_code (threw payment_required_error) = some exit_unusable
exit_code (threw type_error) = some exit_unusable
exit_code (threw other_error) = none
