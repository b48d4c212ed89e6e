-- ===== src/Signing/BlindSigner.antt =====
-- signing/blind-signer.service.ts, the worker of signing/blind-sign.worker.ts, and the inline mode of
-- signing/signer-pool.ts. `import_key` is WebCrypto's import of a private key's bytes, `none` where it
-- fails. What arrives at a worker is the message of the pool, and what it posts is the reply.
pub mod Agreement
use credentials_issuer.Prelude.{
  ℕ, zero, suc, ◌+◌, Bool, true, false, ◌&&◌, ◌||◌, Option, none, some, List, [], ◌∷◌, Str,
  code_units, length, take, leb, ◌===◌, map, if◌then◌else◌,
}
use credentials_issuer.Prelude.Result.{
  Result, ok, err, Failure, error, exception, claim_rejected, unique_violation, blank_format, ◌>>=◌,
}
use credentials_issuer.Errors.Base64.{Bytes, from_base64, to_base64}
use credentials_issuer.Keys.Pem.{base64_to_bytes, bytes_to_base64, pkcs8_pem_to_der}
use credentials_issuer.Keys.Service.{EpochKeyMaterial}
use credentials_issuer.Signing.Suite.{BlindRsa, SuiteSelection}

-- `/[A-Z]/i`: the letters without their case.
pub lower : ℕ → ℕ
lower c = if leb 65 c && leb c 90 then c + 32 else c

pub starts_at : Str → Str → Bool
unfolding lower
starts_at pattern s = take (length pattern) (map lower s) === pattern

-- `/pattern/i.test(s)`, for a pattern of lower-case letters and spaces.
pub contains : Str → Str → Bool
unfolding starts_at
contains pattern [] = starts_at pattern []
contains pattern (c ∷ s) = let rest = contains pattern s in starts_at pattern (c ∷ s) || rest

-- The `catch` of `signBlindedBlank`; the other failures are errors with messages of their own.
pub on_sign_error : Failure → Failure
unfolding contains
on_sign_error (error message) =
    if contains (code_units "out of range") message then exception blank_format else error message
on_sign_error failure = failure

pub sign_blinded_blank : (Str → Str → Result Str) → Str → Str → Result Str
unfolding on_sign_error
sign_blinded_blank sign epoch blinded_blank_base64 = elim (sign epoch blinded_blank_base64) [
  | ok signature ↦ ok signature
  | err failure ↦ err (on_sign_error failure)
]

-- `importPrivateKey` of keys/epoch-key.ts, with the bytes of the key for the imported one.
unfoldable pub import_private_key : (Bytes → Option Bytes) → Str → Result Bytes
import_private_key import_key pem = do
  der ← pkcs8_pem_to_der pem
  elim (import_key der) [
    | none ↦ err (error (code_units "the private key cannot be imported"))
    | some key ↦ ok key
  ]

-- `map.get(epoch)`, where the last entry of an epoch counts.
unfoldable pub key_for : Str → List EpochKeyMaterial → Option Str
key_for epoch [] = none
key_for epoch (k ∷ ks) =
    or_else (key_for epoch ks) (if k.epoch === epoch then some k.private_key_pem else none)
  where
    or_else : Option Str → Option Str → Option Str
    or_else none other = other
    or_else (some pem) other = some pem

pub named_key : Option Str → Result Str
named_key none = err (error (code_units "no signing key for epoch"))
named_key (some pem) = ok pem

-- The commands and replies of the worker.
pub data SignCommand : Type 0 where
  keys : List EpochKeyMaterial → SignCommand
  sign : ℕ → Str → Str → SignCommand

pub data SignReply : Type 0 where
  signed_reply : ℕ → Str → SignReply
  refused_reply : ℕ → Failure → SignReply

module _ (import_key : Bytes → Option Bytes) (suite : BlindRsa) where
  -- What the worker computes for a `sign` command.
  pub worker_sign : List EpochKeyMaterial → Str → Str → Result Str
  unfolding import_private_key key_for named_key
  worker_sign signing_keys epoch blinded_blank = do
    pem ← named_key (key_for epoch signing_keys)
    key ← import_private_key import_key pem
    signature ← suite key (from_base64 blinded_blank)
    ok (to_base64 signature)

  pub reply_of : ℕ → Result Str → SignReply
  reply_of id (ok signature) = signed_reply id signature
  reply_of id (err failure) = refused_reply id failure

  -- `port.on('message', ..)`: the keys afterwards, and the reply if there is one.
  unfoldable pub on_message :
      List EpochKeyMaterial → SignCommand → List EpochKeyMaterial × Option SignReply
  unfolding worker_sign reply_of
  on_message signing_keys (keys material) = (material, none)
  on_message signing_keys (sign id epoch blinded_blank) =
      (signing_keys, some (reply_of id (worker_sign signing_keys epoch blinded_blank)))

-- `signInline`, before and after the selection of the suite.
pub sign_inline :
    (Bytes → Option Bytes) → Option SuiteSelection → List EpochKeyMaterial → Str → Str → Result Str
unfolding import_private_key key_for named_key base64_to_bytes bytes_to_base64
sign_inline import_key none inline_keys epoch blinded_blank =
    err (error (code_units "signing suite not selected"))
sign_inline import_key (some selection) inline_keys epoch blinded_blank = do
  pem ← named_key (key_for epoch inline_keys)
  key ← import_private_key import_key pem
  signature ← selection.suite key (base64_to_bytes blinded_blank)
  ok (bytes_to_base64 signature)
