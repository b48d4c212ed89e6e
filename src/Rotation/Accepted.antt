-- ===== src/Rotation/Accepted.antt =====
-- The issuer reads a keyring back from the JSON of the rotation.
use credentials_issuer.Prelude.{
  ℕ, ◌≡◌, ◌≢◌, refl, true, false, Option, some, List, [], ◌∷◌, Str, All, any, map, ◌===◌, eq-text,
  eq-text_refl, eq-text-ne, code_units, lt→ltb,
}
use credentials_issuer.Prelude.Json.{Json, str, arr, items, from_list, lookup_field, get, is_object}
use credentials_issuer.Errors.Base64.{Bytes, decode_strict_base64}
use credentials_issuer.Prelude.Result.{ok}
use credentials_issuer.Issuance.Request.Accepted.{non_empty_string-str}
use credentials_issuer.Keys.Keyring.{
  EpochEntry, Keyring, has_epoch, parse_epoch, parse_epochs, parse_keyring, text_field, iso_instant,
  iso_check, some_or, string_of, root_key_text, epoch_list, all_distinct, is_base64,
  blind_signature_suite,
}
use credentials_issuer.Keys.Keyring.Valid.{IsKeyring, IsEpoch, Distinct}
use credentials_issuer.Rotation.NextKeyring.{epoch_json, keyring_json}

-- The texts that an entry must not leave empty.
pub record IsFilled (e : EpochEntry) : Type 0 where
  pub epoch_id : e.epoch_id ≢ []
  pub pubkey : e.pubkey ≢ []
  pub root_sig : e.root_sig ≢ []
  pub private_key_pkcs8_pem : e.private_key_pkcs8_pem ≢ []

text_field-str :
    (raw : Json) (name s : Str) → get raw name ≡ some (str s) → s ≢ [] → text_field raw name ≡ ok s
unfolding text_field some_or
text_field-str raw name s h filled = rw (h, non_empty_string-str s filled)

is_object-epoch_json : (e : EpochEntry) → is_object (epoch_json e) ≡ true
unfolding epoch_json
is_object-epoch_json e = refl

-- The properties that the reader looks up.
get-epoch_json :
    (e : EpochEntry)
    → (get (epoch_json e) (code_units "epoch_id") ≡ some (str e.epoch_id))
      × (get (epoch_json e) (code_units "alg") ≡ some (str e.alg))
      × (get (epoch_json e) (code_units "pubkey") ≡ some (str e.pubkey))
      × (get (epoch_json e) (code_units "root_sig") ≡ some (str e.root_sig))
      × (get (epoch_json e) (code_units "private_key_pkcs8_pem")
          ≡ some (str e.private_key_pkcs8_pem))
      × (get (epoch_json e) (code_units "not_before") ≡ some (str e.not_before))
      × (get (epoch_json e) (code_units "not_after") ≡ some (str e.not_after))
unfolding epoch_json lookup_field ◌===◌
get-epoch_json e = (refl, refl, refl, refl, refl, refl, refl)

pub base64_is_base64 :
    (s : Str) (bytes : Bytes) → decode_strict_base64 (str s) ≡ some bytes → is_base64 s ≡ true
unfolding is_base64
base64_is_base64 s bytes h = rw (is_base64, h)

module _ (date_parse : Str → Option ℕ) (to_iso_string : ℕ → Str) where
  iso_instant-str :
      (value : Option Json) (s : Str) (t : ℕ)
      → value ≡ some (str s)
      → date_parse s ≡ some t
      → to_iso_string t ≡ s
      → iso_instant date_parse to_iso_string value ≡ ok (s, t)
  unfolding iso_instant some_or string_of iso_check
  iso_instant-str value s t h parsed printed = rw (h, iso_check, parsed, printed, eq-text_refl s)

  parse_epoch-epoch_json :
      (e : EpochEntry)
      → IsEpoch date_parse to_iso_string e
      → IsFilled e
      → parse_epoch date_parse to_iso_string (epoch_json e) ≡ ok e
  unfolding parse_epoch
  parse_epoch-epoch_json e h f =
      let (id, alg, key, sig, pem, before, after) = get-epoch_json e in
      let alg_filled : e.alg ≢ [] = λ none_left. cc (none_left, h.suite) in
      rw (
        is_object-epoch_json e,
        text_field-str (epoch_json e) _ e.epoch_id id f.epoch_id,
        text_field-str (epoch_json e) _ e.alg alg alg_filled,
        text_field-str (epoch_json e) _ e.pubkey key f.pubkey,
        text_field-str (epoch_json e) _ e.root_sig sig f.root_sig,
        text_field-str (epoch_json e) _ e.private_key_pkcs8_pem pem f.private_key_pkcs8_pem,
        (eq-text e.alg blind_signature_suite).1 h.suite,
        iso_instant-str _ e.not_before h.begins before h.not_before.0 h.not_before.1,
        iso_instant-str _ e.not_after h.ends after h.not_after.0 h.not_after.1,
        lt→ltb h.begins h.ends h.ordered,
        base64_is_base64 e.pubkey h.bytes h.pubkey,
      )

  parse_epochs-epoch_json :
      (es : List EpochEntry)
      → All (IsEpoch date_parse to_iso_string) es
      → All IsFilled es
      → parse_epochs date_parse to_iso_string (items (from_list (map epoch_json es))) ≡ ok es
  unfolding parse_epochs
  parse_epochs-epoch_json [] h f = refl
  parse_epochs-epoch_json (e ∷ es) (he, h) (fe, f) =
      rw (parse_epoch-epoch_json e he fe, parse_epochs-epoch_json es h f)

  pub any_absent :
      (id : Str) (es : List EpochEntry)
      → All (λ d. d.epoch_id ≢ id) es
      → any (has_epoch id) es ≡ false
  unfolding has_epoch
  any_absent id [] h = refl
  any_absent id (e ∷ es) (other, h) = rw (eq-text-ne other, any_absent id es h)

  Distinct-all_distinct :
      (es : List EpochEntry) → Distinct date_parse to_iso_string es → all_distinct es ≡ true
  unfolding all_distinct
  Distinct-all_distinct [] h = refl
  Distinct-all_distinct (e ∷ es) (others, h) =
      rw (any_absent e.epoch_id es others, Distinct-all_distinct es h)

  is_object-keyring_json : (k : Keyring) → is_object (keyring_json k) ≡ true
  unfolding keyring_json
  is_object-keyring_json k = refl

  get-keyring_json :
      (k : Keyring)
      → (get (keyring_json k) (code_units "current_epoch") ≡ some (str k.current_epoch))
        × (get (keyring_json k) (code_units "root_public_key_spki")
            ≡ some (str k.root_public_key_spki))
        × (get (keyring_json k) (code_units "epochs")
            ≡ some (arr (from_list (map epoch_json k.epochs))))
  unfolding keyring_json lookup_field ◌===◌
  get-keyring_json k = (refl, refl, refl)

  epoch_list-arr :
      (id : Str) (es : List EpochEntry)
      → any (has_epoch id) es ≡ true
      → epoch_list (some (arr (from_list (map epoch_json es))))
        ≡ ok (items (from_list (map epoch_json es)))
  unfolding epoch_list
  epoch_list-arr id [] h = cc
  epoch_list-arr id (e ∷ es) h = refl

  -- The issuer reads a valid keyring whose texts are not empty back from the JSON that the rotation
  -- writes, unchanged.
  pub parse_keyring-keyring_json :
      (k : Keyring)
      → IsKeyring date_parse to_iso_string k
      → k.current_epoch ≢ []
      → All IsFilled k.epochs
      → parse_keyring date_parse to_iso_string (keyring_json k) ≡ ok k
  unfolding parse_keyring root_key_text some_or string_of
  parse_keyring-keyring_json k h named filled =
      let (id, root, epochs) = get-keyring_json k in
      rw (
        is_object-keyring_json k,
        text_field-str (keyring_json k) _ k.current_epoch id named,
        root,
        h.root_key,
        epochs,
        epoch_list-arr k.current_epoch k.epochs h.current,
        parse_epochs-epoch_json k.epochs h.epochs filled,
        h.current,
        Distinct-all_distinct k.epochs h.distinct,
      )
