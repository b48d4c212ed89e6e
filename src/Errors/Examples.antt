-- ===== src/Errors/Examples.antt =====
-- A test of the strict decoder.
use credentials_issuer.Prelude.{◌≡◌, ◌≢◌, ◌↔◌, some, [], ◌∷◌, code_units}
use credentials_issuer.Prelude.Json.{str}
use credentials_issuer.Errors.Base64.{Bytes, to_base64, decode_strict_base64}
use credentials_issuer.Errors.Base64.Canonical.{IsBytes, decode_strict_base64_iff}

abbrev one_byte : Bytes
one_byte = 1 ∷ []

decode_strict_base64_iff_example :
    (decode_strict_base64 (str (code_units "AR==")) ≡ some one_byte)
    ↔ ((str (code_units "AR==") ≡ str (to_base64 one_byte)) × (one_byte ≢ []) × IsBytes one_byte)
decode_strict_base64_iff_example = decode_strict_base64_iff (str (code_units "AR==")) one_byte
