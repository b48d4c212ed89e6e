-- ===== src/Config.antt =====
-- apps/backend/src/config/issuer.config.ts: the configuration, read from the environment.
-- `Number` on a text is a parameter: the integer that the text denotes, if it denotes one.
mod Examples
pub mod Valid
use credentials_issuer.Prelude.{
  ℕ, ◌+◌, ◌*◌, ◌≡◌, ◌<◌, Bool, true, false, not, Option, none, some, Str, [], ◌∷◌, code_units, leb,
  ltb, ◌===◌, if◌then◌else◌,
}
use credentials_issuer.Prelude.Int.{ℤ, pos, negsuc}
use credentials_issuer.Prelude.Result.{Result, ok, err, Failure, error, ◌>>=◌}

-- `value ?? fallback`
abbrev pub get_or {ℓ} : {A : Type ℓ} → Option A → A → A
get_or none d = d
get_or (some a) d = a

pub record IssuerConfig : Type 0 where
  pub bundle_size : ℕ
  pub blank_size_bytes : ℕ
  pub signature_size_bytes : ℕ
  pub keyring_path : Str
  pub keyring_reload_seconds : ℕ
  pub rate_limit_max : ℕ
  pub rate_limit_window_seconds : ℕ
  pub proxy_public_key_path : Str
  pub bundle_price : Str
  pub reconciliation_interval_seconds : ℕ
  pub signing_workers : ℕ
  pub use_native_rsa : Bool
  pub signing_timeout_ms : ℕ
  pub entitlement_drip_interval_seconds : ℕ

-- `process.env`: the variables that are set.
abbrev pub Env : Type 0
Env = Str → Option Str

-- `Number(value)`: the integer that a text denotes, `none` where it denotes another number or NaN.
module _ (to_integer : Str → Option ℤ) where
  -- `Number.isInteger(parsed) && parsed >= least`, or the error that names the variable.
  at_least : ℕ → Str → Option ℤ → Result ℕ
  at_least least name none = err (error name)
  at_least least name (some (negsuc n)) = err (error name)
  at_least least name (some (pos n)) = if leb least n then ok n else err (error name)

  non_negative_int : Option Str → ℕ → Str → Result ℕ
  unfolding at_least
  non_negative_int none fallback name = ok fallback
  non_negative_int (some []) fallback name = ok fallback
  non_negative_int (some (c ∷ s)) fallback name = at_least 0 name (to_integer (c ∷ s))

  positive_int : Option Str → ℕ → Str → Result ℕ
  unfolding at_least
  positive_int none fallback name = ok fallback
  positive_int (some []) fallback name = ok fallback
  positive_int (some (c ∷ s)) fallback name = at_least 1 name (to_integer (c ∷ s))

  positive_var : Env → Str → ℕ → Result ℕ
  positive_var env name fallback = positive_int (env name) fallback name

  pub load_issuer_config : Env → Result IssuerConfig
  load_issuer_config env = do
    bundle_size ← positive_var env (code_units "BUNDLE_SIZE") 10
    blank_size_bytes ← positive_var env (code_units "BLANK_SIZE_BYTES") 256
    signature_size_bytes ← positive_var env (code_units "SIGNATURE_SIZE_BYTES") 256
    keyring_reload_seconds ← positive_var env (code_units "KEYRING_RELOAD_SECONDS") 30
    rate_limit_max ← positive_var env (code_units "RATE_LIMIT_MAX") 60
    rate_limit_window_seconds ← positive_var env (code_units "RATE_LIMIT_WINDOW_SECONDS") 60
    reconciliation_interval_seconds ←
        positive_var env (code_units "RECONCILIATION_INTERVAL_SECONDS") 60
    signing_workers ←
        non_negative_int (env (code_units "SIGNING_WORKERS")) 4 (code_units "SIGNING_WORKERS")
    signing_timeout_ms ← positive_var env (code_units "SIGNING_TIMEOUT_MS") 10000
    entitlement_drip_interval_seconds ←
        positive_var env (code_units "ENTITLEMENT_DRIP_INTERVAL_SECONDS") 86400
    ok (record {
      bundle_size = bundle_size;
      blank_size_bytes = blank_size_bytes;
      signature_size_bytes = signature_size_bytes;
      keyring_path =
          get_or (env (code_units "KEYRING_PATH")) (code_units "config/keys/keyring.json");
      keyring_reload_seconds = keyring_reload_seconds;
      rate_limit_max = rate_limit_max;
      rate_limit_window_seconds = rate_limit_window_seconds;
      proxy_public_key_path =
          get_or (env (code_units "PROXY_PUBLIC_KEY_PATH"))
            (code_units "config/keys/proxy.pub.pem");
      bundle_price = get_or (env (code_units "BUNDLE_PRICE")) (code_units "1.00");
      reconciliation_interval_seconds = reconciliation_interval_seconds;
      signing_workers = signing_workers;
      use_native_rsa = not (
          get_or (env (code_units "SIGNING_NATIVE_RSA")) (code_units "true")
          === code_units "false");
      signing_timeout_ms = signing_timeout_ms;
      entitlement_drip_interval_seconds = entitlement_drip_interval_seconds;
    })
