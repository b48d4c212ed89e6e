-- ===== src/Config/Valid.antt =====
-- What the rest of the program relies on in a configuration that was loaded.
use credentials_issuer.Prelude.{
  ℕ, ◌<◌, ◌≡◌, Option, none, some, [], ◌∷◌, Str, arith, subst, code_units,
}
use credentials_issuer.Prelude.Int.{ℤ}
use credentials_issuer.Prelude.Result.{Result, ok, err, ◌>>=◌}
use credentials_issuer.Config.{IssuerConfig, Env, positive_int, positive_var, load_issuer_config}

pub record IsValid (c : IssuerConfig) : Type 0 where
  pub bundle_size : 0 < c.bundle_size
  pub blank_size_bytes : 0 < c.blank_size_bytes
  pub signature_size_bytes : 0 < c.signature_size_bytes
  pub keyring_reload_seconds : 0 < c.keyring_reload_seconds
  pub rate_limit_max : 0 < c.rate_limit_max
  pub rate_limit_window_seconds : 0 < c.rate_limit_window_seconds
  pub reconciliation_interval_seconds : 0 < c.reconciliation_interval_seconds
  pub signing_timeout_ms : 0 < c.signing_timeout_ms
  pub entitlement_drip_interval_seconds : 0 < c.entitlement_drip_interval_seconds

abbrev IsPositive : Result ℕ → Type 0
IsPositive (ok n) = 0 < n
IsPositive (err e) = Unit

module _ (to_integer : Str → Option ℤ) where
  positive_int-IsPositive :
      (value : Option Str) (fallback : ℕ) (name : Str)
      → 0 < fallback
      → IsPositive (positive_int to_integer value fallback name)
  unfolding positive_int
  positive_int-IsPositive none fallback name h = h
  positive_int-IsPositive (some []) fallback name h = h
  positive_int-IsPositive (some (c ∷ s)) fallback name h = ground arith

  positive_var-IsPositive :
      (env : Env) (name : Str) (fallback : ℕ)
      → 0 < fallback
      → IsPositive (positive_var to_integer env name fallback)
  unfolding positive_var
  positive_var-IsPositive env name fallback h = positive_int-IsPositive (env name) fallback name h

-- A result that, if it is a configuration, is a valid one.
abbrev LoadsValid : Result IssuerConfig → Type 0
LoadsValid (ok c) = IsValid c
LoadsValid (err e) = Unit

read_positive :
    (r : Result ℕ) (f : ℕ → Result IssuerConfig)
    → IsPositive r
    → ((n : ℕ) → 0 < n → LoadsValid (f n))
    → LoadsValid (r >>= f)
read_positive (ok n) f h k = k n h
read_positive (err e) f h k = tt

read_any :
    (r : Result ℕ) (f : ℕ → Result IssuerConfig)
    → ((n : ℕ) → LoadsValid (f n))
    → LoadsValid (r >>= f)
read_any (ok n) f k = k n
read_any (err e) f k = tt

load_issuer_config-LoadsValid :
    (to_integer : Str → Option ℤ) (env : Env) → LoadsValid (load_issuer_config to_integer env)
unfolding load_issuer_config
load_issuer_config-LoadsValid to_integer env =
    let var = positive_var-IsPositive to_integer env in
    read_positive _ _ (var (code_units "BUNDLE_SIZE") 10 (omega arith)) λ k hk.
      read_positive _ _ (var (code_units "BLANK_SIZE_BYTES") 256 (omega arith)) λ b hb.
        read_positive _ _ (var (code_units "SIGNATURE_SIZE_BYTES") 256 (omega arith)) λ s hs.
          read_positive _ _ (var (code_units "KEYRING_RELOAD_SECONDS") 30 (omega arith)) λ r hr.
            read_positive _ _ (var (code_units "RATE_LIMIT_MAX") 60 (omega arith)) λ m hm.
              read_positive _ _ (var (code_units "RATE_LIMIT_WINDOW_SECONDS") 60 (omega arith))
                λ w hw.
                  read_positive _ _
                    (var (code_units "RECONCILIATION_INTERVAL_SECONDS") 60 (omega arith))
                    λ i hi. read_any _ _ λ workers.
                      read_positive _ _ (var (code_units "SIGNING_TIMEOUT_MS") 10000 (omega arith))
                        λ t ht.
                          read_positive _ _
                            (var (code_units "ENTITLEMENT_DRIP_INTERVAL_SECONDS") 86400
                              (omega arith))
                            λ d hd. record {
                              bundle_size = hk;
                              blank_size_bytes = hb;
                              signature_size_bytes = hs;
                              keyring_reload_seconds = hr;
                              rate_limit_max = hm;
                              rate_limit_window_seconds = hw;
                              reconciliation_interval_seconds = hi;
                              signing_timeout_ms = ht;
                              entitlement_drip_interval_seconds = hd;
                            }

-- Every count, size and interval of a configuration that loads is positive; only the number of
-- signing workers may be zero.
pub load_issuer_config-IsValid :
    (to_integer : Str → Option ℤ) (env : Env) (c : IssuerConfig)
    → load_issuer_config to_integer env ≡ ok c
    → IsValid c
load_issuer_config-IsValid to_integer env c h =
    subst LoadsValid h (load_issuer_config-LoadsValid to_integer env)
