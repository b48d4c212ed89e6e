-- ===== src/Harness/Blinding.antt =====
-- packages/buyer-harness/src/blinding.ts. Parameters: `import_key` is WebCrypto's import of the epoch
-- key, which gives what the blind signature library computes under it: blinding (with the random
-- serial of the nth blank), finalizing and verifying, with `none` where these throw.
pub mod Verifies
use credentials_issuer.Prelude.{
  ℕ, zero, suc, Bool, true, false, Option, none, some, List, [], ◌∷◌, Str, length, map, ◌==◌,
  if◌then◌else◌,
}
use credentials_issuer.Prelude.Json.{Json, str}
use credentials_issuer.Errors.Base64.{Bytes}
use credentials_issuer.Keys.Pem.{base64_to_bytes, bytes_to_base64}
use credentials_issuer.Harness.Conformance.{IssuedCredential, PreparedBundle}

-- What is kept of a blank: the prepared message, its blinded form and how to undo it.
pub record Blind : Type 0 where
  pub prepared : Bytes
  pub blinded_msg : Bytes
  pub inv : Bytes

pub record Suite : Type 0 where
  pub blind : ℕ → Option Blind
  pub finalize : Bytes → Bytes → Bytes → Option Bytes
  pub verify : Bytes → Bytes → Bool

-- Both or none.
pub both {ℓ} : {A : Type ℓ} → Option A → Option (List A) → Option (List A)
both (some a) (some rest) = some (a ∷ rest)
both _ _ = none

-- `Promise.all` over the blanks, from the nth on.
pub blinds_from : Suite → ℕ → ℕ → Option (List Blind)
unfolding both
blinds_from suite n zero = some []
blinds_from suite n (suc count) = both (suite.blind n) (blinds_from suite (suc n) count)

pub credential_of : Blind → Option Bytes → Option IssuedCredential
credential_of blind none = none
credential_of blind (some signature) =
    some
      (record { message = bytes_to_base64 blind.prepared; signature = bytes_to_base64 signature })

-- One signature; a value that is no text makes `Buffer.from` throw.
pub finalize_one : Suite → Blind → Json → Option IssuedCredential
unfolding credential_of
finalize_one suite blind (str s) =
    credential_of blind (suite.finalize blind.prepared (base64_to_bytes s) blind.inv)
finalize_one suite blind _ = none

pub finalize_each : Suite → List Blind → List Json → Option (List IssuedCredential)
unfolding finalize_one both
finalize_each suite (blind ∷ blinds) (signature ∷ signatures) =
    both (finalize_one suite blind signature) (finalize_each suite blinds signatures)
finalize_each suite _ _ = some []

-- As many signatures as blanks, or an error.
pub finalize_all : Suite → List Blind → List Json → Option (List IssuedCredential)
unfolding finalize_each
finalize_all suite blinds signatures =
    if length signatures == length blinds then finalize_each suite blinds signatures else none

pub verify_credential : Suite → IssuedCredential → Bool
verify_credential suite credential =
    suite.verify (base64_to_bytes credential.signature) (base64_to_bytes credential.message)

pub prepared_bundle : Suite → List Blind → PreparedBundle
unfolding finalize_all verify_credential
prepared_bundle suite blinds = record {
  blinded_blanks = map (λ b. bytes_to_base64 b.blinded_msg) blinds;
  finalize = finalize_all suite blinds;
  verify = verify_credential suite;
}

pub prepare_with : ℕ → Option Suite → Option PreparedBundle
unfolding blinds_from prepared_bundle
prepare_with count none = none
prepare_with count (some suite) = elim (blinds_from suite 0 count) [
  | none ↦ none
  | some blinds ↦ some (prepared_bundle suite blinds)
]

-- `prepare(count, publicKeySpkiBase64)`.
unfoldable pub prepare : (Bytes → Option Suite) → ℕ → Str → Option PreparedBundle
unfolding prepare_with
prepare import_key count public_key_spki_base64 =
    prepare_with count (import_key (base64_to_bytes public_key_spki_base64))
