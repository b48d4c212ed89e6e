-- ===== src/Rotation/Vault.antt =====
-- scripts/vault-kv.ts and `rotateInVault` of scripts/rotate-epoch.ts. Parameters: `fetch_get` and
-- `fetch_post` are `fetch` of a URL, the latter with the JSON value of the body, and `utf8` with
-- `from_utf8` are the encoding of texts in `Buffer`. An answer whose secret is not an object is
-- refused, also where the source would go on with another truthy value, and a field that is no text
-- counts as absent. The rendering of errors is left out.
pub mod Writes
use credentials_issuer.Prelude.{
  ℕ, Bool, true, false, Option, none, some, List, [], ◌∷◌, ◌++◌, Str, code_units, ◌==◌, ◌===◌,
  if◌then◌else◌,
}
use credentials_issuer.Prelude.Json.{Json, Fields, str, number, obj, field, end, get, lookup_field}
use credentials_issuer.Prelude.Result.{Result, ok, err, error, ◌>>=◌, ◌>>◌, require}
use credentials_issuer.Prelude.Spaces.{drop_slashes, drop_last_slashes}
use credentials_issuer.Errors.Base64.{Bytes, from_base64}
use credentials_issuer.Keys.Pem.{bytes_to_base64}
use credentials_issuer.Keys.Keyring.{Keyring}
use credentials_issuer.Rotation.NextKeyring.{
  RotationTools, RotateSchedule, GeneratedKey, existing_keyring, keyring_json, next_keyring,
  or_throw,
}

pub record Response : Type 0 where
  pub is_ok : Bool
  pub body : Option Json

pub record VaultSecret : Type 0 where
  pub fields : Fields
  pub version : Str

pub record VaultOptions : Type 0 where
  pub addr : Str
  pub secret : Str

pub record VaultTools : Type 0 where
  pub fetch_get : Str → Response
  pub fetch_post : Str → Json → Response
  pub utf8 : Str → Bytes
  pub from_utf8 : Bytes → Str

-- `split('/')`: the first part and the others.
pub split_slashes : Str → Str × List Str
split_slashes [] = ([], [])
split_slashes (c ∷ s) =
    let (part, parts) = split_slashes s in
    if c == b'/' then ([], part ∷ parts) else (c ∷ part, parts)

-- `join('/')` of a part and the others.
pub join_slashes : Str → List Str → Str
join_slashes part [] = part
join_slashes part (next ∷ parts) = part ++ (b'/' ∷ join_slashes next parts)

-- The path has to have a mount and something below it.
pub data_path : Str × List Str → Result Str
data_path ([], parts) = err (error (code_units "vault secret must look like <mount>/<path>"))
data_path (c ∷ mount, []) = err (error (code_units "vault secret must look like <mount>/<path>"))
data_path (c ∷ mount, part ∷ parts) =
    ok ((c ∷ mount) ++ (code_units "/data/" ++ join_slashes part parts))

unfoldable pub data_url : VaultOptions → Result Str
unfolding split_slashes join_slashes data_path
data_url options = do
  path ← data_path (split_slashes (drop_slashes options.secret))
  ok (drop_last_slashes options.addr ++ (code_units "/v1/" ++ path))

-- `a?.k`.
pub chained : Option Json → Str → Option Json
chained none name = none
chained (some value) name = get value name

pub secret_of : Option Json → Option Json → Result VaultSecret
secret_of (some (obj entries)) (some (number version)) =
    ok (record { fields = entries; version = version })
secret_of _ _ = err (error (code_units "vault read returned no KV v2 data"))

unfoldable pub read_secret : VaultTools → VaultOptions → Result VaultSecret
unfolding chained secret_of
read_secret vault options = do
  url ← data_url options
  require (vault.fetch_get url).is_ok (error (code_units "vault read failed"))
  body ← or_throw (code_units "not JSON") (vault.fetch_get url).body
  secret_of (chained (get body (code_units "data")) (code_units "data")) (
      chained (chained (get body (code_units "data")) (code_units "metadata"))
        (code_units "version"))

-- `{ data, options: { cas } }`.
pub write_body : Fields → Str → Json
write_body entries cas = obj (
    field (code_units "data") (obj entries)
      (field (code_units "options") (obj (field (code_units "cas") (number cas) end)) end))

-- What was written, with the URL, and whether it was taken.
pub write_secret : VaultTools → VaultOptions → Fields → Str → Result (Unit {0}) × List (Str × Json)
unfolding write_body
write_secret vault options entries cas = elim (data_url options) [
  | err failure ↦ (err failure, [])
  | ok url ↦ (
    require (vault.fetch_post url (write_body entries cas)).is_ok
        (error (code_units "vault write failed")),
    (url, write_body entries cas) ∷ [],
  )
]

-- `{ ...data, [name]: value }`.
pub set_field : Str → Json → Fields → Fields
set_field name value end = field name value end
set_field name value (field j v fields) =
    let rest = set_field name value fields in
    if j === name then field j value fields else field j v rest

-- The text that `data[field]` encodes, if it is there and not empty.
pub stored_text : VaultTools → Option Json → Option Str
stored_text vault (some (str (c ∷ s))) = some (vault.from_utf8 (from_base64 (c ∷ s)))
stored_text vault _ = none

pub keyring_text : RotationTools → VaultTools → Keyring → Json
keyring_text tools vault keyring =
    str (bytes_to_base64 (vault.utf8 (tools.encode_json (keyring_json keyring))))

pub store :
    RotationTools
    → VaultTools
    → VaultOptions
    → Str
    → VaultSecret
    → Result Keyring
    → Result Keyring × List (Str × Json)
store tools vault options name secret (err failure) = (err failure, [])
store tools vault options name secret (ok keyring) =
    let (written, sent) =
      write_secret vault options (set_field name (keyring_text tools vault keyring) secret.fields)
        secret.version in
    (written >>= (λ done. ok keyring), sent)

-- `rotateInVault`: the keyring, and the writes that were sent.
pub rotate_in_vault :
    RotationTools
    → VaultTools
    → VaultOptions
    → Str
    → Str
    → RotateSchedule
    → GeneratedKey
    → Result Keyring × List (Str × Json)
unfolding store
rotate_in_vault tools vault options name root_pem schedule generated =
    elim (read_secret vault options) [
      | err failure ↦ (err failure, [])
      | ok secret ↦ store tools vault options name secret (do
        existing ← existing_keyring tools (stored_text vault (lookup_field name secret.fields))
        next_keyring tools existing root_pem schedule generated)
    ]
