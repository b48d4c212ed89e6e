-- ===== src/Signing/BlindSigner/Agreement.antt =====
-- The worker and the inline mode sign alike, and a blank that is no blinded message is refused.
use credentials_issuer.Prelude.{
  ◌≡◌, ◌≤◌, ℕ, refl, sym, ◌∙◌, ap, Option, some, List, Str, true, code_units, arith,
}
use credentials_issuer.Prelude.Result.{ok, err, error, exception, blank_format}
use credentials_issuer.Errors.Base64.{Bytes, from_base64}
use credentials_issuer.Keys.Pem.{base64_to_bytes, bytes_to_base64}
use credentials_issuer.Keys.Service.{EpochKeyMaterial}
use credentials_issuer.Signing.RsaRaw.{RsaKey, as_integer, modulus_of, out_of_range, raw_sign}
use credentials_issuer.Signing.RsaRaw.Checked.{raw_sign-out_of_range}
use credentials_issuer.Signing.Suite.{BlindRsa, SuiteSelection}
use credentials_issuer.Signing.BlindSigner.{
  contains, on_sign_error, sign_blinded_blank, import_private_key, key_for, named_key, worker_sign,
  sign_inline,
}

sign_inline-worker_sign :
    (import_key : Bytes → Option Bytes) (selection : SuiteSelection) (ks : List EpochKeyMaterial)
    (epoch blank : Str)
    → sign_inline import_key (some selection) ks epoch blank
      ≡ worker_sign import_key selection.suite ks epoch blank
unfolding sign_inline worker_sign base64_to_bytes bytes_to_base64
sign_inline-worker_sign import_key selection ks epoch blank = refl

recognised : on_sign_error (error out_of_range) ≡ exception blank_format
unfolding on_sign_error contains credentials_issuer.Prelude.◌===◌
recognised = refl

worker_sign-out_of_range :
    (import_key : Bytes → Option Bytes) (suite : BlindRsa) (ks : List EpochKeyMaterial)
    (epoch blank pem : Str) (key : Bytes) (raw : RsaKey) (modulus : ℕ)
    → key_for epoch ks ≡ some pem
    → import_private_key import_key pem ≡ ok key
    → suite key (from_base64 blank) ≡ raw_sign raw (from_base64 blank)
    → modulus_of raw ≡ ok modulus
    → modulus ≤ as_integer (from_base64 blank)
    → worker_sign import_key suite ks epoch blank ≡ err (error out_of_range)
unfolding worker_sign named_key
worker_sign-out_of_range import_key suite ks epoch blank pem key raw modulus named imported step
      known large =
    rw (
      named,
      named_key,
      imported,
      step,
      raw_sign-out_of_range raw modulus (from_base64 blank) known large,
    )

-- Where the suite's step on a blank is the raw one, under the key of the epoch: a blank that is not
-- below the modulus fails with BLANK_FORMAT, whether a worker signs or the process itself.
pub sign_blinded_blank-out_of_range :
    (import_key : Bytes → Option Bytes) (selection : SuiteSelection) (ks : List EpochKeyMaterial)
    (epoch blank pem : Str) (key : Bytes) (raw : RsaKey) (modulus : ℕ)
    → key_for epoch ks ≡ some pem
    → import_private_key import_key pem ≡ ok key
    → selection.suite key (from_base64 blank) ≡ raw_sign raw (from_base64 blank)
    → modulus_of raw ≡ ok modulus
    → modulus ≤ as_integer (from_base64 blank)
    → (sign_blinded_blank (worker_sign import_key selection.suite ks) epoch blank
        ≡ err (exception blank_format))
      × (sign_blinded_blank (sign_inline import_key (some selection) ks) epoch blank
          ≡ err (exception blank_format))
unfolding sign_blinded_blank
sign_blinded_blank-out_of_range import_key selection ks epoch blank pem key raw modulus named
      imported step known large =
    let failed =
      worker_sign-out_of_range import_key selection.suite ks epoch blank pem key raw modulus named
        imported step known large in
    let failed_too = sign_inline-worker_sign import_key selection ks epoch blank ∙ failed in
    (rw (sign_blinded_blank, failed, recognised), rw (sign_blinded_blank, failed_too, recognised))
