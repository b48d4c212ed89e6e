-- ===== src/Keys/Keyring.antt =====
-- keys/keyring.ts and the check of keys/root-key.ts. Instants are milliseconds from the earliest date
-- that `Date` can hold. Parameters: `date_parse` is `Date.parse` (`none` for NaN), `to_iso_string` is
-- `new Date(instant).toISOString()`. The messages of the errors leave out the index and the values.
pub mod Valid
pub mod Usable
use credentials_issuer.Prelude.{
  ℕ, Bool, true, false, not, ◌||◌, ◌&&◌, Option, none, some, List, [], ◌∷◌, Str, code_units, ltb,
  leb, any, find, ◌===◌, map,
}
use credentials_issuer.Prelude.Json.{Json, str, arr, cons, items, is_object, get}
use credentials_issuer.Prelude.Result.{Result, ok, err, error, ◌>>=◌, ◌>>◌, require}
use credentials_issuer.Errors.Base64.{decode_strict_base64}
use credentials_issuer.Issuance.Request.{non_empty_string}

-- An entry of the keyring; the published document is its fields but the private key.
pub record EpochEntry : Type 0 where
  pub epoch_id : Str
  pub not_before : Str
  pub not_after : Str
  pub alg : Str
  pub pubkey : Str
  pub root_sig : Str
  pub private_key_pkcs8_pem : Str

pub record PublishedDocument : Type 0 where
  pub epoch_id : Str
  pub not_before : Str
  pub not_after : Str
  pub alg : Str
  pub pubkey : Str
  pub root_sig : Str

pub record Keyring : Type 0 where
  pub current_epoch : Str
  pub root_public_key_spki : Str
  pub epochs : List EpochEntry

abbrev pub blind_signature_suite : Str
blind_signature_suite = code_units "RSABSSA-SHA384-PSS-Randomized"

unfoldable pub published_document : EpochEntry → PublishedDocument
published_document entry = record {
  epoch_id = entry.epoch_id;
  not_before = entry.not_before;
  not_after = entry.not_after;
  alg = entry.alg;
  pubkey = entry.pubkey;
  root_sig = entry.root_sig;
}

unfoldable pub some_or {ℓ} : {A : Type ℓ} → Str → Option A → Result A
some_or message none = err (error message)
some_or message (some a) = ok a

-- `typeof value === 'string' && value.length > 0`
unfoldable pub text_field : Json → Str → Result Str
unfolding some_or
text_field entry field = some_or field (non_empty_string (get entry field))

unfoldable pub is_base64 : Str → Bool
is_base64 s = elim (decode_strict_base64 (str s)) [ none ↦ false | some bytes ↦ true ]

unfoldable pub string_of : Option Json → Option Str
string_of (some (str s)) = some s
string_of _ = none

-- `Array.isArray(keyring.epochs) && keyring.epochs.length > 0`
unfoldable pub epoch_list : Option Json → Result (List Json)
epoch_list (some (arr (cons v vs))) = ok (v ∷ items vs)
epoch_list _ = err (error (code_units "keyring.epochs must be a non-empty array"))

-- `epochs.some((epoch) => epoch.epoch_id === id)`
unfoldable pub has_epoch : Str → EpochEntry → Bool
has_epoch id entry = entry.epoch_id === id

-- `ids.size === epochs.length`
unfoldable pub all_distinct : List EpochEntry → Bool
unfolding has_epoch
all_distinct [] = true
all_distinct (e ∷ es) = not (any (has_epoch e.epoch_id) es) && all_distinct es

unfoldable pub root_key_text : Option Json → Result Str
unfolding some_or string_of is_base64
root_key_text value = do
  text ←
      some_or (code_units "keyring.root_public_key_spki must be base64-encoded SPKI")
        (string_of value)
  require (is_base64 text)
      (error (code_units "keyring.root_public_key_spki must be base64-encoded SPKI"))
  ok text

unfoldable pub current_epoch : Keyring → Result EpochEntry
unfolding some_or has_epoch
current_epoch keyring =
    some_or (code_units "keyring has no entry for its current epoch")
      (find (has_epoch keyring.current_epoch) keyring.epochs)

module _ (date_parse : Str → Option ℕ) (to_iso_string : ℕ → Str) where
  unfoldable pub iso_check : Str → Option ℕ → Option ℕ
  iso_check value none = none
  iso_check value (some instant) = elim (to_iso_string instant === value) [
    | true ↦ some instant
    | false ↦ none
  ]

  -- `isIsoInstant(value)`, with the text and the instant that it denotes.
  unfoldable pub iso_instant : Option Json → Result (Str × ℕ)
  unfolding some_or string_of iso_check
  iso_instant value = do
    text ← some_or (code_units "validity window must use ISO-8601 UTC instants") (string_of value)
    instant ←
        some_or (code_units "validity window must use ISO-8601 UTC instants")
          (iso_check text (date_parse text))
    ok (text, instant)

  -- The fields are checked in the order of the loop.
  unfoldable pub parse_epoch : Json → Result EpochEntry
  unfolding text_field iso_instant is_base64
  parse_epoch raw = do
    require (is_object raw) (error (code_units "epoch is not an object"))
    epoch_id ← text_field raw (code_units "epoch_id")
    alg ← text_field raw (code_units "alg")
    pubkey ← text_field raw (code_units "pubkey")
    root_sig ← text_field raw (code_units "root_sig")
    private_key_pkcs8_pem ← text_field raw (code_units "private_key_pkcs8_pem")
    require (alg === blind_signature_suite) (error (code_units "epoch alg"))
    (not_before, begins) ← iso_instant (get raw (code_units "not_before"))
    (not_after, ends) ← iso_instant (get raw (code_units "not_after"))
    require (ltb begins ends) (error (code_units "not_before must precede not_after"))
    require (is_base64 pubkey) (error (code_units "pubkey must be base64-encoded SPKI"))
    ok (record {
      epoch_id = epoch_id;
      not_before = not_before;
      not_after = not_after;
      alg = alg;
      pubkey = pubkey;
      root_sig = root_sig;
      private_key_pkcs8_pem = private_key_pkcs8_pem;
    })

  unfoldable pub parse_epochs : List Json → Result (List EpochEntry)
  unfolding parse_epoch
  parse_epochs [] = ok []
  parse_epochs (raw ∷ raws) = do
    entry ← parse_epoch raw
    entries ← parse_epochs raws
    ok (entry ∷ entries)

  unfoldable pub parse_keyring : Json → Result Keyring
  unfolding text_field root_key_text epoch_list parse_epochs all_distinct has_epoch
  parse_keyring raw = do
    require (is_object raw) (error (code_units "keyring is not an object"))
    current_epoch ← text_field raw (code_units "current_epoch")
    root_public_key_spki ← root_key_text (get raw (code_units "root_public_key_spki"))
    raws ← epoch_list (get raw (code_units "epochs"))
    epochs ← parse_epochs raws
    require (any (has_epoch current_epoch) epochs)
        (error (code_units "keyring.current_epoch is not among the epochs"))
    require (all_distinct epochs) (error (code_units "keyring has duplicate epoch_ids"))
    ok (record {
      current_epoch = current_epoch;
      root_public_key_spki = root_public_key_spki;
      epochs = epochs;
    })

  -- `now >= Date.parse(entry.not_before) && now < Date.parse(entry.not_after)`: a comparison with NaN
  -- is false.
  unfoldable pub in_force : EpochEntry → ℕ → Bool
  in_force entry now = in_period now (date_parse entry.not_before) (date_parse entry.not_after)
    where
      in_period : ℕ → Option ℕ → Option ℕ → Bool
      in_period now (some begins) (some ends) = leb begins now && ltb now ends
      in_period now _ _ = false

  unfoldable pub if_in_force : ℕ → Option EpochEntry → Option EpochEntry
  if_in_force now none = none
  if_in_force now (some entry) = elim (in_force entry now) [ true ↦ some entry | false ↦ none ]

  unfoldable pub usable_epoch : Keyring → Str → ℕ → Option EpochEntry
  unfolding has_epoch if_in_force
  usable_epoch keyring epoch_id now = if_in_force now (find (has_epoch epoch_id) keyring.epochs)
