-- ===== src/Signing/RsaRaw.antt =====
-- signing/rsa-raw.ts, `rawSign` and what it uses. A key is what node:crypto computes with it: the
-- modulus of its public half (`none` where the export has none), the private operation without
-- padding, and the public one.
pub mod Checked
use credentials_issuer.Prelude.{
  ℕ, ◌+◌, ◌*◌, not, Option, none, some, List, [], ◌∷◌, Str, code_units, length, leb, ◌===◌,
  if◌then◌else◌,
}
use credentials_issuer.Prelude.Result.{Result, ok, err, error, ◌>>=◌, ◌>>◌, require}
use credentials_issuer.Errors.Base64.{Bytes, from_base64}

-- What `privateDecrypt` gives: bytes, the error of an input that is not below the modulus, or another.
pub data Decrypted : Type 0 where
  decrypted : Bytes → Decrypted
  data_too_large : Decrypted
  failed : Str → Decrypted

pub record RsaKey : Type 0 where
  pub modulus_base64url : Option Str
  pub private_decrypt : Bytes → Decrypted
  pub public_encrypt : Bytes → Bytes

-- The number that the bytes write, the first byte first, behind those before.
pub integer_from : ℕ → Bytes → ℕ
integer_from before [] = before
integer_from before (b ∷ bytes) = integer_from (before * 256 + b) bytes

unfoldable pub as_integer : Bytes → ℕ
unfolding integer_from
as_integer bytes = integer_from 0 bytes

-- `if (!n) throw`: an absent modulus and an empty one.
unfoldable pub modulus_of : RsaKey → Result ℕ
modulus_of key = elim key.modulus_base64url [
  | none ↦ err (error (code_units "RSA public key has no modulus"))
  | some n ↦ elim n [
    | [] ↦ err (error (code_units "RSA public key has no modulus"))
    | ◌∷◌ c s ↦ ok (as_integer (from_base64 (c ∷ s)))
  ]
]

abbrev pub out_of_range : Str
out_of_range = code_units "signature representative out of range"

pub decrypted_or_error : Decrypted → Result Bytes
decrypted_or_error (decrypted signature) = ok signature
decrypted_or_error data_too_large = err (error out_of_range)
decrypted_or_error (failed message) = err (error message)

unfoldable pub raw_sign : RsaKey → Bytes → Result Bytes
unfolding decrypted_or_error
raw_sign key message = do
  modulus ← modulus_of key
  require (not (leb modulus (as_integer message))) (error out_of_range)
  signature ← decrypted_or_error (key.private_decrypt message)
  require (key.public_encrypt signature === message) (error (code_units "signing failure"))
  ok signature
