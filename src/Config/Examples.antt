-- ===== src/Config/Examples.antt =====
-- A test of the configuration: the empty environment.
use credentials_issuer.Prelude.{◌≡◌, refl, true, Option, none, Str, code_units}
use credentials_issuer.Prelude.Int.{ℤ}
use credentials_issuer.Prelude.Result.{ok}
use credentials_issuer.Config.{IssuerConfig, Env, load_issuer_config}
use credentials_issuer.Config.Valid.{IsValid, load_issuer_config-IsValid}

abbrev empty_env : Env
empty_env name = none

abbrev no_number : Str → Option ℤ
no_number text = none

abbrev defaults : IssuerConfig
defaults = record {
  bundle_size = 10;
  blank_size_bytes = 256;
  signature_size_bytes = 256;
  keyring_path = code_units "config/keys/keyring.json";
  keyring_reload_seconds = 30;
  rate_limit_max = 60;
  rate_limit_window_seconds = 60;
  proxy_public_key_path = code_units "config/keys/proxy.pub.pem";
  bundle_price = code_units "1.00";
  reconciliation_interval_seconds = 60;
  signing_workers = 4;
  use_native_rsa = true;
  signing_timeout_ms = 10000;
  entitlement_drip_interval_seconds = 86400;
}

defaults_test : load_issuer_config no_number empty_env ≡ ok defaults
unfolding load_issuer_config credentials_issuer.Config.positive_var
    credentials_issuer.Config.positive_int credentials_issuer.Config.non_negative_int
    credentials_issuer.Prelude.◌===◌
defaults_test = refl

load_issuer_config-IsValid_example : IsValid defaults
load_issuer_config-IsValid_example =
    load_issuer_config-IsValid no_number empty_env defaults defaults_test
