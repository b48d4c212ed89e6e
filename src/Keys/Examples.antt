-- ===== src/Keys/Examples.antt =====
-- Tests of the keyring on concrete inputs: instants are one letter, `A` before `Z`.
use credentials_issuer.Prelude.{
  ℕ, ◌≡◌, arith, ◌↔◌, refl, Bool, true, false, Option, some, none, List, [], ◌∷◌, Str, code_units,
}
use credentials_issuer.Prelude.Json.{Json, obj, str, arr, cons, nil, field, end}
use credentials_issuer.Prelude.Result.{ok, err, Failure}
use credentials_issuer.Keys.Keyring.{
  EpochEntry, Keyring, PublishedDocument, published_document, blind_signature_suite, parse_keyring,
  usable_epoch,
}
use credentials_issuer.Keys.Keyring.Valid.{IsKeyring, parse_keyring-IsKeyring}
use credentials_issuer.Keys.Keyring.Usable.{IsIn, IsInForce, usable_epoch_iff}
use credentials_issuer.Keys.Pem.{
  pkcs8_pem_to_der, der_to_pkcs8_pem, spki_pem_to_der, der_to_spki_pem,
}
use credentials_issuer.Keys.Pem.RoundTrip.{pem_to_der-der_to_pem}
use credentials_issuer.Keys.Document.{
  canonical_key_document, IsTextDocument, canonical_key_document-injective,
}
use credentials_issuer.Keys.Service.{
  KeyTools, KeysState, unloaded, accept, reload, current, material_of,
}
use credentials_issuer.Prelude.Int.{pos}
use credentials_issuer.Keys.Health.{SigningHealth, health, healthy}
use credentials_issuer.Keys.Health.Answers.{health_iff}
use credentials_issuer.Keys.Service.Reloads.{IsServing, reloads, reloads-current}

abbrev pub instant_of : Str → Option ℕ
instant_of (c ∷ []) = some c
instant_of _ = none

abbrev pub iso_of : ℕ → Str
iso_of n = n ∷ []

abbrev pub an_entry : EpochEntry
an_entry = record {
  epoch_id = code_units "e";
  not_before = code_units "A";
  not_after = code_units "Z";
  alg = blind_signature_suite;
  pubkey = code_units "AA==";
  root_sig = code_units "s";
  private_key_pkcs8_pem = code_units "k";
}

abbrev pub a_keyring : Keyring
a_keyring = record {
  current_epoch = code_units "e";
  root_public_key_spki = code_units "AA==";
  epochs = an_entry ∷ [];
}

abbrev entry_json : Json
entry_json = obj (
    field (code_units "epoch_id") (str (code_units "e")) (
      field (code_units "not_before") (str (code_units "A")) (
        field (code_units "not_after") (str (code_units "Z")) (
          field (code_units "alg") (str blind_signature_suite) (
            field (code_units "pubkey") (str (code_units "AA==")) (
              field (code_units "root_sig") (str (code_units "s"))
                (field (code_units "private_key_pkcs8_pem") (str (code_units "k")) end)))))))

abbrev pub keyring_json_value : Json
keyring_json_value = obj (
    field (code_units "current_epoch") (str (code_units "e")) (
      field (code_units "root_public_key_spki") (str (code_units "AA=="))
        (field (code_units "epochs") (arr (cons entry_json nil)) end)))

abbrev pub decode_file : Str → Option Json
decode_file [] = none
decode_file (c ∷ s) = some keyring_json_value

abbrev some_tools : KeyTools
some_tools = record {
  date_parse = instant_of;
  to_iso_string = iso_of;
  decode_json = decode_file;
  sha256 = λ text. text;
  import_spki = λ spki. some (λ signature text. true);
}

pub parsed : parse_keyring instant_of iso_of keyring_json_value ≡ ok a_keyring
unfolding parse_keyring credentials_issuer.Issuance.Request.non_empty_string
    credentials_issuer.Prelude.Json.lookup_field credentials_issuer.Prelude.◌===◌
    credentials_issuer.Errors.Base64.decode_strict_base64
parsed = refl

parse_keyring-IsKeyring_example : IsKeyring instant_of iso_of a_keyring
parse_keyring-IsKeyring_example =
    parse_keyring-IsKeyring instant_of iso_of keyring_json_value a_keyring parsed

usable_epoch_iff_example :
    (usable_epoch instant_of iso_of a_keyring (code_units "e") 70 ≡ some an_entry) ↔ (
      IsIn an_entry a_keyring.epochs
      × (an_entry.epoch_id ≡ code_units "e")
      × IsInForce instant_of iso_of an_entry 70)
usable_epoch_iff_example =
    usable_epoch_iff instant_of iso_of a_keyring (code_units "e") 70 an_entry
      (parse_keyring-IsKeyring instant_of iso_of keyring_json_value a_keyring parsed)

abbrev serving : KeysState
serving = record {
  keyring = some a_keyring;
  fingerprint = some (code_units "f");
  announced = (record { epoch = code_units "e"; private_key_pem = code_units "k" } ∷ []) ∷ [];
}

loaded_first : reload some_tools true (some (code_units "f")) unloaded ≡ (ok tt, serving)
unfolding reload accept parse_keyring credentials_issuer.Issuance.Request.non_empty_string
    credentials_issuer.Prelude.Json.lookup_field credentials_issuer.Prelude.◌===◌
    credentials_issuer.Errors.Base64.decode_strict_base64
    credentials_issuer.Keys.Service.verify_keyring_signatures
    credentials_issuer.Keys.Service.verify_root credentials_issuer.Keys.Service.verify_key_document
loaded_first = refl

reloads-current_example :
    (h : IsServing some_tools (reloads some_tools (none ∷ some [] ∷ []) serving)) × (e : EpochEntry)
    × (current (reloads some_tools (none ∷ some [] ∷ []) serving) ≡ ok (published_document e))
    × (e.epoch_id ≡ h.k.current_epoch)
    × (h.trusted.verify (published_document e) e.root_sig ≡ true)
reloads-current_example =
    reloads-current some_tools (some (code_units "f")) (none ∷ some [] ∷ []) serving loaded_first

never_read : (raw : Str) → none ≡ some raw → (f : Failure) × (accept some_tools raw ≡ err f)
never_read raw h = cc h

abbrev a_document : PublishedDocument
a_document = record {
  epoch_id = code_units "e";
  not_before = code_units "A";
  not_after = code_units "Z";
  alg = code_units "x";
  pubkey = code_units "AA==";
  root_sig = code_units "s";
}

abbrev another_signature : PublishedDocument
another_signature = record a_document { root_sig = code_units "t" }

a_document-IsTextDocument : IsTextDocument a_document
a_document-IsTextDocument = record {
  alg = omega arith;
  epoch_id = omega arith;
  not_after = omega arith;
  not_before = omega arith;
  pubkey = omega arith;
}

another_signature-IsTextDocument : IsTextDocument another_signature
another_signature-IsTextDocument = record {
  alg = omega arith;
  epoch_id = omega arith;
  not_after = omega arith;
  not_before = omega arith;
  pubkey = omega arith;
}

same_text : canonical_key_document a_document ≡ canonical_key_document another_signature
unfolding canonical_key_document
same_text = refl

canonical_key_document-injective_example :
    (a_document.alg ≡ another_signature.alg)
    × (a_document.epoch_id ≡ another_signature.epoch_id)
    × (a_document.not_after ≡ another_signature.not_after)
    × (a_document.not_before ≡ another_signature.not_before)
    × (a_document.pubkey ≡ another_signature.pubkey)
canonical_key_document-injective_example =
    canonical_key_document-injective a_document another_signature a_document-IsTextDocument
      another_signature-IsTextDocument same_text

pem_to_der-der_to_pem_example :
    (pkcs8_pem_to_der (der_to_pkcs8_pem (48 ∷ 1 ∷ [])) ≡ ok (48 ∷ 1 ∷ []))
    × (spki_pem_to_der (der_to_spki_pem (48 ∷ 1 ∷ [])) ≡ ok (48 ∷ 1 ∷ []))
pem_to_der-der_to_pem_example = pem_to_der-der_to_pem (48 ∷ 1 ∷ []) (omega arith)

serving-IsServing : IsServing some_tools serving
serving-IsServing = (reloads-current some_tools (some (code_units "f")) [] serving loaded_first).0

health_iff_example :
    (e : EpochEntry) × IsIn e serving-IsServing.k.epochs
    × (e.epoch_id ≡ serving-IsServing.k.current_epoch)
    × (((q : SigningHealth) × (health some_tools serving 70 ≡ ok (healthy q)))
        ↔ IsInForce instant_of iso_of e 70)
health_iff_example = health_iff some_tools serving 70 serving-IsServing

health_ok :
    health some_tools serving 70
    ≡ ok (
        healthy
          (record { epoch = code_units "e"; usable = true; expires_in_seconds = some (pos 0) }))
unfolding health credentials_issuer.Keys.Health.signing_health
    credentials_issuer.Keys.Service.loaded credentials_issuer.Keys.Keyring.current_epoch
    credentials_issuer.Prelude.◌===◌ usable_epoch credentials_issuer.Keys.Keyring.in_force
health_ok = refl
