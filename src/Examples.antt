-- ===== src/Examples.antt =====
-- Concrete inputs for the examples of the other modules: a bundle has two blanks of one byte.
use credentials_issuer.Prelude.{true, none, [], code_units}
use credentials_issuer.Prelude.Json.{Json, str, arr, obj, nil, cons, end, field}
use credentials_issuer.Prelude.Result.{ok}
use credentials_issuer.Config.{IssuerConfig}
use credentials_issuer.Issuance.Service.{Services, IssuanceGrant}

abbrev pub small_config : IssuerConfig
small_config = record {
  bundle_size = 2;
  blank_size_bytes = 1;
  signature_size_bytes = 1;
  keyring_path = [];
  keyring_reload_seconds = 30;
  rate_limit_max = 3;
  rate_limit_window_seconds = 60;
  proxy_public_key_path = [];
  bundle_price = code_units "1.00";
  reconciliation_interval_seconds = 60;
  signing_workers = 0;
  use_native_rsa = true;
  signing_timeout_ms = 10000;
  entitlement_drip_interval_seconds = 100;
}

abbrev pub some_services : Services
some_services = record {
  usable = λ epoch. true;
  sign_blinded_blank = λ epoch blank. ok blank;
  sha256 = λ text. text;
  now = 1000000;
  redis_now = 1000000;
}

abbrev pub a_body : Json
a_body = obj (
    field (code_units "epoch") (str (code_units "e")) (
      field (code_units "blinded_blanks")
        (arr (cons (str (code_units "AA==")) (cons (str (code_units "AQ==")) nil))) end))

abbrev pub a_grant : IssuanceGrant
a_grant = record { reference = code_units "p"; consume = none }
