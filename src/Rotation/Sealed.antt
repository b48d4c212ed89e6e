-- ===== src/Rotation/Sealed.antt =====
-- Entries that the rotation seals carry a signature that the issuer's check accepts.
use credentials_issuer.Prelude.{◌≡◌, ◌≢◌, refl, true, Bool, some, List, [], ◌∷◌, Str, All}
use credentials_issuer.Prelude.Result.{ok}
use credentials_issuer.Errors.Base64.{Bytes}
use credentials_issuer.Errors.Base64.Canonical.{IsBytes, from_base64-to_base64}
use credentials_issuer.Errors.Base64.Canonical.Url.{from_base64-to_base64url}
use credentials_issuer.Keys.Pem.{base64_to_bytes, bytes_to_base64}
use credentials_issuer.Keys.Keyring.{EpochEntry, PublishedDocument, Keyring, published_document}
use credentials_issuer.Keys.Document.{canonical_key_document}
use credentials_issuer.Keys.Service.{
  KeyTools, verify_key_document, verify_root, verify_entries, verify_keyring_signatures, or_error,
}
use credentials_issuer.Rotation.NextKeyring.{RootKey, sign_key_document, sealed}

-- A key pair as WebCrypto makes it: signatures and the public half are bytes, there is at least one,
-- and what the private half signs the public half accepts.
pub record IsRootKey (tools : KeyTools) (root_key : RootKey) : Type 0 where
  pub check : Bytes → Str → Bool
  pub imported : tools.import_spki root_key.spki ≡ some check
  pub spki_bytes : IsBytes root_key.spki
  pub spki_filled : root_key.spki ≢ []
  pub signature_bytes : (text : Str) → IsBytes (root_key.sign text)
  pub signature_filled : (text : Str) → root_key.sign text ≢ []
  pub agrees : (text : Str) → check (root_key.sign text) text ≡ true

abbrev pub IsVerified : (Bytes → Str → Bool) → EpochEntry → Type 0
IsVerified check e = verify_key_document check (published_document e) e.root_sig ≡ true

module _ (tools : KeyTools) (root_key : RootKey) (r : IsRootKey tools root_key) where
  pub sealed-IsVerified :
      (document : PublishedDocument) (pem : Str) → IsVerified r.check (sealed document pem root_key)
  unfolding verify_key_document sealed sign_key_document published_document canonical_key_document
      base64_to_bytes bytes_to_base64
  sealed-IsVerified document pem =
      let text = canonical_key_document document in
      let bytes = root_key.sign text in
      rw
        (
          from_base64-to_base64url bytes (r.signature_bytes text),
          from_base64-to_base64 bytes (r.signature_bytes text),
        )
        (r.agrees text)

  verify_entries-IsVerified :
      (es : List EpochEntry)
      → All (IsVerified r.check) es
      → verify_entries (verify_key_document r.check) es ≡ ok tt
  unfolding verify_entries
  verify_entries-IsVerified [] h = refl
  verify_entries-IsVerified (e ∷ es) (he, h) = rw (he, verify_entries-IsVerified es h)

  pub verify_keyring_signatures-IsVerified :
      (k : Keyring)
      → k.root_public_key_spki ≡ bytes_to_base64 root_key.spki
      → All (IsVerified r.check) k.epochs
      → verify_keyring_signatures tools k ≡ ok tt
  unfolding verify_keyring_signatures verify_root or_error base64_to_bytes bytes_to_base64
  verify_keyring_signatures-IsVerified k root h = rw (
    root,
    verify_root,
    from_base64-to_base64 root_key.spki r.spki_bytes,
    r.imported,
    verify_entries-IsVerified k.epochs h,
  )
