-- ===== src/Issuance/Request.antt =====
-- issuance/bundle-request.ts.
pub mod Accepted
use credentials_issuer.Prelude.{
  ℕ, Bool, false, Option, none, some, List, [], ◌∷◌, Str, code_units, length, ◌==◌, if◌then◌else◌,
}
use credentials_issuer.Prelude.Json.{Json, str, arr, items, is_object, get}
use credentials_issuer.Prelude.Result.{
  Result, ok, err, Failure, exception, request_invalid, bundle_size, blank_format, ◌>>=◌, ◌>>◌,
  require,
}
use credentials_issuer.Config.{IssuerConfig}
use credentials_issuer.Errors.Base64.{Bytes, decode_strict_base64}

pub record BundleRequest : Type 0 where
  pub epoch : Str
  pub blinded_blanks : List Str

-- `typeof epoch !== 'string' || epoch.length === 0`
unfoldable pub non_empty_string : Option Json → Option Str
non_empty_string (some (str (c ∷ s))) = some (c ∷ s)
non_empty_string _ = none

unfoldable pub array_of : Option Json → Option (List Json)
array_of (some (arr vs)) = some (items vs)
array_of _ = none

-- `decoded === null || decoded.byteLength !== config.blankSizeBytes`
has_size : ℕ → Option Bytes → Bool
has_size size none = false
has_size size (some bytes) = length bytes == size

-- The text of a blank that passes the test of the loop.
pub blank_text : ℕ → Json → Option Str
unfolding has_size
blank_text size (str s) = if has_size size (decode_strict_base64 (str s)) then some s else none
blank_text size _ = none

unfoldable pub blank_texts : ℕ → List Json → Result (List Str)
unfolding blank_text
blank_texts size [] = ok []
blank_texts size (v ∷ vs) = elim (blank_text size v) [
  | none ↦ err (exception blank_format)
  | some s ↦ (blank_texts size vs >>= λ ss. ok (s ∷ ss))
]

expect {ℓ} : {A : Type ℓ} → Option A → Failure → Result A
expect (some a) e = ok a
expect none e = err e

-- The checks in their order: the object, the epoch, the array, the count, the format of each blank.
unfoldable pub validate_bundle_request : IssuerConfig → Json → Result BundleRequest
unfolding expect non_empty_string array_of
validate_bundle_request config body = do
  require (is_object body) (exception request_invalid)
  epoch ← expect (non_empty_string (get body (code_units "epoch"))) (exception request_invalid)
  blanks ← expect (array_of (get body (code_units "blinded_blanks"))) (exception blank_format)
  require (length blanks == config.bundle_size) (exception bundle_size)
  texts ← blank_texts config.blank_size_bytes blanks
  ok (record { epoch = epoch; blinded_blanks = texts })
