-- ===== src/Keys/Service.antt =====
-- keys/keys.service.ts and `verifyKeyringSignatures` of keys/root-key.ts. Parameters: `decode_json`
-- is `JSON.parse`, `sha256` hashes the text of the file, `import_spki` is WebCrypto's import of an
-- Ed25519 key from its bytes (`none` where it fails), which gives its check of a signature of a text,
-- and the two conversions of dates are those of Keys.Keyring. What the service keeps is a state;
-- `announced` are the calls of the listeners, the latest first. The log is left out.
pub mod Reloads
use credentials_issuer.Prelude.{
  ℕ, Bool, true, false, not, Option, none, some, List, [], ◌∷◌, Str, code_units, map, ◌===◌,
  if◌then◌else◌,
}
use credentials_issuer.Prelude.Json.{Json}
use credentials_issuer.Prelude.Result.{Result, ok, err, Failure, error, ◌>>=◌, ◌>>◌, require}
use credentials_issuer.Errors.Base64.{Bytes, from_base64}
use credentials_issuer.Keys.Pem.{base64_to_bytes, bytes_to_base64}
use credentials_issuer.Keys.Document.{canonical_key_document}
use credentials_issuer.Keys.Keyring.{
  EpochEntry, PublishedDocument, published_document, Keyring, parse_keyring, usable_epoch,
  current_epoch,
}

pub record EpochKeyMaterial : Type 0 where
  pub epoch : Str
  pub private_key_pem : Str

pub record KeysState : Type 0 where
  pub keyring : Option Keyring
  pub fingerprint : Option Str
  pub announced : List (List EpochKeyMaterial)

abbrev pub unloaded : KeysState
unloaded = record { keyring = none; fingerprint = none; announced = [] }

pub record KeyTools : Type 0 where
  pub date_parse : Str → Option ℕ
  pub to_iso_string : ℕ → Str
  pub decode_json : Str → Option Json
  pub sha256 : Str → Str
  pub import_spki : Bytes → Option (Bytes → Str → Bool)

pub material_of : EpochEntry → EpochKeyMaterial
material_of e = record { epoch = e.epoch_id; private_key_pem = e.private_key_pkcs8_pem }

unfoldable pub verify_entries :
    (PublishedDocument → Str → Bool) → List EpochEntry → Result (Unit {0})
verify_entries verify [] = ok tt
verify_entries verify (e ∷ es) = do
  require (verify (published_document e) e.root_sig)
      (error (code_units "root_sig does not verify under the root key"))
  verify_entries verify es

-- `verifyKeyDocument`: the signature is read in either alphabet, and copied by way of base64.
unfoldable pub verify_key_document : (Bytes → Str → Bool) → PublishedDocument → Str → Bool
unfolding base64_to_bytes bytes_to_base64
verify_key_document check document root_sig =
    check (base64_to_bytes (bytes_to_base64 (from_base64 root_sig)))
      (canonical_key_document document)

-- `importRootPublicKey`, with what its result is used for.
unfoldable pub verify_root : KeyTools → Str → Option (PublishedDocument → Str → Bool)
unfolding base64_to_bytes
verify_root tools spki_base64 = elim (tools.import_spki (base64_to_bytes spki_base64)) [
  | none ↦ none
  | some check ↦ some (verify_key_document check)
]

unfoldable pub or_error {ℓ} : {A : Type ℓ} → Str → Option A → Result A
or_error message none = err (error message)
or_error message (some a) = ok a

unfoldable pub verify_keyring_signatures : KeyTools → Keyring → Result (Unit {0})
unfolding or_error verify_entries
verify_keyring_signatures tools keyring = do
  verify ←
      or_error (code_units "the root key cannot be imported")
        (verify_root tools keyring.root_public_key_spki)
  verify_entries verify keyring.epochs

-- `parseKeyring` and the check of the signatures, in a row.
unfoldable pub accept_json : KeyTools → Json → Result Keyring
accept_json tools parsed = do
  keyring ← parse_keyring tools.date_parse tools.to_iso_string parsed
  verify_keyring_signatures tools keyring
  ok keyring

-- The text of the file becomes a keyring, or the reason why it does not.
unfoldable pub accept : KeyTools → Str → Result Keyring
unfolding or_error accept_json
accept tools raw = do
  parsed ← or_error (code_units "not JSON") (tools.decode_json raw)
  accept_json tools parsed

same_fingerprint : Str → Option Str → Bool
same_fingerprint print none = false
same_fingerprint print (some loaded) = print === loaded

-- Only the first load may fail.
give_up : Bool → Failure → KeysState → Result (Unit {0}) × KeysState
give_up true e s = (err e, s)
give_up false e s = (ok tt, s)

adopt : Bool → Str → Result Keyring → KeysState → Result (Unit {0}) × KeysState
unfolding give_up material_of
adopt initial print (err e) s = give_up initial e s
adopt initial print (ok keyring) s = (
  ok tt,
  record {
    keyring = some keyring;
    fingerprint = some print;
    announced = map material_of keyring.epochs ∷ s.announced;
  },
)

-- `reload(initial)`, where the file is unreadable (`none`) or has a text.
unfoldable pub reload : KeyTools → Bool → Option Str → KeysState → Result (Unit {0}) × KeysState
unfolding give_up adopt same_fingerprint
reload tools initial none s = give_up initial (error (code_units "unable to read keyring")) s
reload tools initial (some raw) s =
    if same_fingerprint (tools.sha256 raw) s.fingerprint
    then (ok tt, s)
    else adopt initial (tools.sha256 raw) (accept tools raw) s

unfoldable pub loaded : KeysState → Result Keyring
unfolding or_error
loaded s = or_error (code_units "keyring not loaded") s.keyring

-- `current()`.
pub current : KeysState → Result PublishedDocument
current s = do keyring ← loaded s; entry ← current_epoch keyring; ok (published_document entry)

-- `usable(epochId)`, at a time.
unfoldable pub usable : KeyTools → KeysState → Str → ℕ → Result (Option EpochEntry)
usable tools s epoch_id now = do
  keyring ← loaded s
  ok (usable_epoch tools.date_parse tools.to_iso_string keyring epoch_id now)

unfoldable pub key_material : KeysState → Result (List EpochKeyMaterial)
unfolding material_of
key_material s = do keyring ← loaded s; ok (map material_of keyring.epochs)
