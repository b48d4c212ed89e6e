-- ===== src/Issuance/Signing.antt =====
-- issuance/issuance.service.ts: the parts that touch no store, `signBundle` and
-- `fingerprintRequest`. SHA-256 is a parameter, on the text whose UTF-8 bytes are hashed.
pub mod Counts
use credentials_issuer.Prelude.{List, [], ◌∷◌, ◌++◌, Str}
use credentials_issuer.Prelude.Result.{Result, ok, ◌>>=◌}
use credentials_issuer.Issuance.Request.{BundleRequest}

pub record BundleResponse : Type 0 where
  pub epoch : Str
  pub blind_signatures : List Str

-- `Promise.all` over the blanks; where several fail, the first in the list stands for the failure.
pub sign_all : (Str → Result Str) → List Str → Result (List Str)
sign_all sign [] = ok []
sign_all sign (blank ∷ blanks) = do
  signature ← sign blank
  signatures ← sign_all sign blanks
  ok (signature ∷ signatures)

unfoldable pub sign_bundle : (Str → Str → Result Str) → BundleRequest → Result BundleResponse
unfolding sign_all
sign_bundle sign request = do
  signatures ← sign_all (sign request.epoch) request.blinded_blanks
  ok (record { epoch = request.epoch; blind_signatures = signatures })

-- `hash.update('\0').update(blank)` for each blank.
pub separated : List Str → Str
separated [] = []
separated (blank ∷ blanks) = 0 ∷ (blank ++ separated blanks)

-- What is hashed.
pub fingerprint_text : Str → BundleRequest → Str
unfolding separated
fingerprint_text reference request =
    reference ++ (0 ∷ (request.epoch ++ separated request.blinded_blanks))

unfoldable pub fingerprint_request : (Str → Str) → Str → BundleRequest → Str
unfolding fingerprint_text
fingerprint_request sha256 reference request = sha256 (fingerprint_text reference request)
