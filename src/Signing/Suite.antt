-- ===== src/Signing/Suite.antt =====
-- signing/suite.ts. A suite is the third-party package's `blindSign`, on a PKCS#8 key and a message.
-- The two suites, the probe and the patch of the platform are parameters; the texts of the reasons
-- are left out. `hex` and `to_hex` are the conversions of `Buffer`.
pub mod Known
use credentials_issuer.Prelude.{ℕ, Bool, true, false, Option, none, some, Str, ◌===◌, if◌then◌else◌}
use credentials_issuer.Prelude.Result.{Result, ok, err}
use credentials_issuer.Errors.Base64.{Bytes}

abbrev pub BlindRsa : Type 0
BlindRsa = Bytes → Bytes → Result Bytes

pub record KnownAnswer : Type 0 where
  pub private_key_pkcs8_hex : Str
  pub blinded_msg_hex : Str
  pub blind_sig_hex : Str

pub record SuiteSelection : Type 0 where
  pub suite : BlindRsa
  pub fast_path : Bool

pub record SuiteTools : Type 0 where
  pub slow : BlindRsa
  pub fast : BlindRsa
  pub hex : Str → Bytes
  pub to_hex : Bytes → Str

pub choose : SuiteTools → KnownAnswer → Result Bytes → SuiteSelection
choose tools known (err failure) = record { suite = tools.slow; fast_path = false }
choose tools known (ok produced) =
    if tools.to_hex produced === known.blind_sig_hex
    then record { suite = tools.fast; fast_path = true }
    else (record { suite = tools.slow; fast_path = false })

pub select_signing_suite : SuiteTools → KnownAnswer → Bool → SuiteSelection
unfolding choose
select_signing_suite tools known false = record { suite = tools.slow; fast_path = false }
select_signing_suite tools known true =
    choose tools known
      (tools.fast (tools.hex known.private_key_pkcs8_hex) (tools.hex known.blinded_msg_hex))
