-- ===== src/Rotation/NextKeyring.antt =====
-- The rotation itself and its file (scripts/rotate-epoch.ts). Parameters: `import_pkcs8` is WebCrypto's
-- import of an Ed25519 private key (`none` where it fails) with its signing and the SPKI bytes of its
-- public half; `increment` is `String(Number(_) + 1)` and `is_number` says that `Number` of a text
-- is not NaN; `encode_json` is `JSON.stringify(_, null, 2)`. The fresh RSA key pair and the clock are
-- arguments. The schedule is in whole seconds, and instants after the last date are left out.
use credentials_issuer.Prelude.{
  ℕ, ◌+◌, ◌*◌, Bool, false, Option, none, some, List, [], ◌∷◌, ◌++◌, Str, code_units, leb, map,
  if◌then◌else◌,
}
use credentials_issuer.Prelude.Json.{Json, str, arr, obj, field, end, from_list}
use credentials_issuer.Prelude.Result.{Result, ok, err, error, ◌>>=◌, ◌>>◌, require}
use credentials_issuer.Errors.Base64.{Bytes}
use credentials_issuer.Errors.Base64.Canonical.Url.{to_base64url}
use credentials_issuer.Keys.Pem.{bytes_to_base64, der_to_pkcs8_pem, pkcs8_pem_to_der}
use credentials_issuer.Keys.Keyring.{
  EpochEntry, PublishedDocument, Keyring, blind_signature_suite, parse_keyring,
}
use credentials_issuer.Keys.Document.{canonical_key_document}
use credentials_issuer.Keys.Service.{KeyTools, verify_keyring_signatures}

pub record RootKey : Type 0 where
  pub sign : Str → Bytes
  pub spki : Bytes

pub record GeneratedKey : Type 0 where
  pub spki : Bytes
  pub pkcs8 : Bytes

pub record RotationTools : Type 0 where
  pub keys : KeyTools
  pub import_pkcs8 : Bytes → Option RootKey
  pub increment : Str → Str
  pub is_number : Str → Bool
  pub encode_json : Json → Str

pub record RotateSchedule : Type 0 where
  pub epoch_seconds : ℕ
  pub grace_seconds : ℕ
  pub now : ℕ

pub or_throw {ℓ} : {A : Type ℓ} → Str → Option A → Result A
or_throw message none = err (error message)
or_throw message (some a) = ok a

-- `importRootSigningKey`, with what its result is used for.
unfoldable pub import_root_signing_key : RotationTools → Str → Result RootKey
unfolding or_throw
import_root_signing_key tools pem = do
  der ← pkcs8_pem_to_der pem
  or_throw (code_units "the root key cannot be imported") (tools.import_pkcs8 der)

-- `rootPublicKeySpki`, which imports the key again.
unfoldable pub root_public_key_spki : RotationTools → Str → Result Str
root_public_key_spki tools pem = do
  signing ← import_root_signing_key tools pem
  ok (bytes_to_base64 signing.spki)

unfoldable pub sign_key_document : PublishedDocument → RootKey → Str
sign_key_document document root_key = to_base64url (root_key.sign (canonical_key_document document))

-- The `root_sig` of the argument is not read: its type in the source leaves it out.
unfoldable pub sealed : PublishedDocument → Str → RootKey → EpochEntry
sealed document private_key_pem root_key = record {
  epoch_id = document.epoch_id;
  not_before = document.not_before;
  not_after = document.not_after;
  alg = document.alg;
  pubkey = document.pubkey;
  root_sig = sign_key_document document root_key;
  private_key_pkcs8_pem = private_key_pem;
}

-- Also `Number.isNaN(Number(nextId))`.
unfoldable pub next_id : RotationTools → Option Keyring → Result Str
next_id tools none = ok (code_units "0")
next_id tools (some keyring) = do
  require (tools.is_number (tools.increment keyring.current_epoch))
      (error (code_units "cannot derive the next epoch"))
  ok (tools.increment keyring.current_epoch)

unfoldable pub fresh_epoch :
    RotationTools → RotateSchedule → GeneratedKey → RootKey → Str → EpochEntry
fresh_epoch tools schedule generated root_key id =
    sealed
      (record {
        epoch_id = id;
        not_before = tools.keys.to_iso_string schedule.now;
        not_after = tools.keys.to_iso_string (schedule.now + schedule.epoch_seconds * 1000);
        alg = blind_signature_suite;
        pubkey = bytes_to_base64 generated.spki;
        root_sig = [];
      })
      (der_to_pkcs8_pem generated.pkcs8) root_key

unfoldable pub min : ℕ → ℕ → ℕ
min a b = if leb a b then a else b

-- `new Date(Math.min(Date.parse(not_after), graceUntil)).toISOString()`, which throws on NaN.
unfoldable pub shortened : KeyTools → ℕ → Str → Result Str
unfolding min
shortened keys grace_until not_after = elim (keys.date_parse not_after) [
  | none ↦ err (error (code_units "invalid date"))
  | some ends ↦ ok (keys.to_iso_string (min ends grace_until))
]

-- `Date.parse(notAfter) <= now`: a comparison with NaN is false.
unfoldable pub already_expired : KeyTools → ℕ → Str → Bool
already_expired keys now not_after = elim (keys.date_parse not_after) [
  | none ↦ false
  | some ends ↦ leb ends now
]

unfoldable pub resealed : EpochEntry → Str → RootKey → EpochEntry
resealed epoch not_after root_key =
    sealed
      (record {
        epoch_id = epoch.epoch_id;
        not_before = epoch.not_before;
        not_after = not_after;
        alg = epoch.alg;
        pubkey = epoch.pubkey;
        root_sig = [];
      })
      epoch.private_key_pkcs8_pem root_key

-- The loop over the outgoing epochs.
unfoldable pub retain : KeyTools → ℕ → ℕ → RootKey → List EpochEntry → Result (List EpochEntry)
unfolding shortened already_expired resealed
retain keys now grace_until root_key [] = ok []
retain keys now grace_until root_key (epoch ∷ epochs) = do
  not_after ← shortened keys grace_until epoch.not_after
  retained ← retain keys now grace_until root_key epochs
  ok (
      if already_expired keys now not_after
      then retained
      else resealed epoch not_after root_key ∷ retained)

abbrev pub epochs_of : Option Keyring → List EpochEntry
epochs_of none = []
epochs_of (some keyring) = keyring.epochs

-- The issuer's own check, before anything is published.
unfoldable pub checked : KeyTools → Keyring → Result Keyring
checked keys keyring = do verify_keyring_signatures keys keyring; ok keyring

unfoldable pub next_keyring :
    RotationTools → Option Keyring → Str → RotateSchedule → GeneratedKey → Result Keyring
next_keyring tools existing root_pem schedule generated = do
  root_key ← import_root_signing_key tools root_pem
  root_public_spki ← root_public_key_spki tools root_pem
  id ← next_id tools existing
  retained ←
      retain tools.keys schedule.now (schedule.now + schedule.grace_seconds * 1000) root_key
        (epochs_of existing)
  checked tools.keys (record {
    current_epoch = id;
    root_public_key_spki = root_public_spki;
    epochs = fresh_epoch tools schedule generated root_key id ∷ retained;
  })

-- The properties in the order of the object literals.
unfoldable pub epoch_json : EpochEntry → Json
epoch_json e = obj (
    field (code_units "epoch_id") (str e.epoch_id) (
      field (code_units "not_before") (str e.not_before) (
        field (code_units "not_after") (str e.not_after) (
          field (code_units "alg") (str e.alg) (
            field (code_units "pubkey") (str e.pubkey) (
              field (code_units "root_sig") (str e.root_sig)
                (field (code_units "private_key_pkcs8_pem") (str e.private_key_pkcs8_pem) end)))))))

unfoldable pub keyring_json : Keyring → Json
keyring_json k = obj (
    field (code_units "current_epoch") (str k.current_epoch) (
      field (code_units "root_public_key_spki") (str k.root_public_key_spki)
        (field (code_units "epochs") (arr (from_list (map epoch_json k.epochs))) end)))

-- What is there already: nothing, or a text that has to be a keyring.
unfoldable pub existing_keyring : RotationTools → Option Str → Result (Option Keyring)
unfolding or_throw
existing_keyring tools none = ok none
existing_keyring tools (some text) = do
  raw ← or_throw (code_units "not JSON") (tools.keys.decode_json text)
  keyring ← parse_keyring tools.keys.date_parse tools.keys.to_iso_string raw
  ok (some keyring)

-- `rotateEpoch`, with the file's text before and after it: it is renamed into place at the end.
unfoldable pub rotate_epoch :
    RotationTools → Option Str → Str → RotateSchedule → GeneratedKey → Result Keyring × Option Str
rotate_epoch tools file root_pem schedule generated =
    elim (do
      existing ← existing_keyring tools file
      next_keyring tools existing root_pem schedule generated) [
        | err failure ↦ (err failure, file)
        | ok keyring ↦ (ok keyring, some (tools.encode_json (keyring_json keyring) ++ (10 ∷ [])))
      ]
