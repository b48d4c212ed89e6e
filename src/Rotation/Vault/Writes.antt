-- ===== src/Rotation/Vault/Writes.antt =====
-- What a rotation writes to Vault.
use credentials_issuer.Prelude.{
  ◌≡◌, ◌≢◌, refl, sym, ◌∙◌, ap, subst, true, false, Option, some, List, [], ◌∷◌, Str, arith,
  code_units, Bool, ◌⊎◌, ◌↔◌, length, inl, inr, Bool-cases, ◌===◌, eq-text, eq-text_refl,
  eq-text-ne,
}
use credentials_issuer.Prelude.Json.{Json, Fields, str, number, field, end, lookup_field}
use credentials_issuer.Prelude.Result.{
  Result, ok, err, Result-cases, require, error, Failure, ◌>>=◌,
}
use credentials_issuer.Errors.Base64.{to_base64, from_base64}
use credentials_issuer.Errors.Base64.Canonical.{IsBytes, from_base64-to_base64, to_base64-nonempty}
use credentials_issuer.Keys.Pem.{bytes_to_base64}
use credentials_issuer.Keys.Keyring.{Keyring}
use credentials_issuer.Rotation.NextKeyring.{
  RotationTools, RotateSchedule, GeneratedKey, existing_keyring, keyring_json, next_keyring,
}
use credentials_issuer.Rotation.Vault.{
  VaultSecret, VaultOptions, VaultTools, chained, read_secret, write_body, write_secret, data_url,
  set_field, stored_text, keyring_text, store, rotate_in_vault,
}

set_field-same :
    (name : Str) (value : Json) (fields : Fields)
    → lookup_field name (set_field name value fields) ≡ some value
unfolding set_field lookup_field
set_field-same name value end = rw (eq-text_refl name)
set_field-same name value (field j v fields) = elim (Bool-cases (j === name)) [
  | inl same ↦ rw (same, lookup_field, same)
  | inr other ↦ rw (other, lookup_field, other) (set_field-same name value fields)
]

set_field-other :
    (name other : Str) (value : Json) (fields : Fields)
    → other ≢ name
    → lookup_field other (set_field name value fields) ≡ lookup_field other fields
unfolding set_field lookup_field
set_field-other name other value end ne = rw (eq-text-ne (λ (same : name ≡ other). ne (sym same)))
set_field-other name other value (field j v fields) ne =
    ground (arith, set_field-other name other value fields ne, eq-text j name, eq-text j other, ne)

taken_iff {ℓ} :
    {A : Type ℓ} (taken : Bool) (f : Failure) (a : A)
    → ((require taken f >>= (λ done. ok a)) ≡ ok a) ↔ (taken ≡ true)
taken_iff true f a = (λ h. refl, λ h. refl)
taken_iff false f a = (λ h. cc h, λ h. cc h)

-- What is read back of the body of a write.
get-write_body :
    (entries : Fields) (cas other : Str)
    → (chained (chained (some (write_body entries cas)) (code_units "options")) (code_units "cas")
        ≡ some (number cas))
      × (chained (chained (some (write_body entries cas)) (code_units "data")) other
          ≡ lookup_field other entries)
unfolding chained write_body lookup_field ◌===◌
get-write_body entries cas other = (refl, refl)

-- A write on top of a secret: it names the version that was read, keeps the other fields, and holds
-- a keyring where the old one was.
pub record IsWrite (tools : RotationTools) (vault : VaultTools) (name : Str) (secret : VaultSecret)
    (made : Keyring) (w : Str × Json) : Type 0 where
  pub cas :
      chained (chained (some w.1) (code_units "options")) (code_units "cas")
      ≡ some (number secret.version)
  pub others :
      (other : Str)
      → other ≢ name
      → chained (chained (some w.1) (code_units "data")) other ≡ lookup_field other secret.fields
  pub keyring :
      stored_text vault (chained (chained (some w.1) (code_units "data")) name)
      ≡ some (tools.encode_json (keyring_json made))

-- The encoding of JSON texts as documented.
pub record IsUtf8 (tools : RotationTools) (vault : VaultTools) : Type 0 where
  pub bytes : (j : Json) → IsBytes (vault.utf8 (tools.encode_json j))
  pub filled : (j : Json) → vault.utf8 (tools.encode_json j) ≢ []
  pub decodes :
      (j : Json) → vault.from_utf8 (vault.utf8 (tools.encode_json j)) ≡ tools.encode_json j

module _ (tools : RotationTools) (vault : VaultTools) (u : IsUtf8 tools vault) where
  stored_text-base64 :
      (text : Str)
      → text ≢ []
      → stored_text vault (some (str text)) ≡ some (vault.from_utf8 (from_base64 text))
  unfolding stored_text
  stored_text-base64 [] h = absurd (h refl)
  stored_text-base64 (c ∷ s) h = refl

  stored_text-keyring_text :
      (made : Keyring)
      → stored_text vault (some (keyring_text tools vault made))
        ≡ some (tools.encode_json (keyring_json made))
  unfolding keyring_text bytes_to_base64
  stored_text-keyring_text made =
      let text = tools.encode_json (keyring_json made) in
      let bytes = vault.utf8 text in
      stored_text-base64 (to_base64 bytes)
        (λ none_left. to_base64-nonempty bytes (u.filled (keyring_json made)) (ap length none_left))
      ∙ ap (λ b. some (vault.from_utf8 b))
          (from_base64-to_base64 bytes (u.bytes (keyring_json made)))
      ∙ ap some (u.decodes (keyring_json made))

  write_body-IsWrite :
      (name url : Str) (secret : VaultSecret) (made : Keyring)
      → IsWrite tools vault name secret made (
        url,
        write_body (set_field name (keyring_text tools vault made) secret.fields) secret.version,
      )
  write_body-IsWrite name url secret made =
      let value = keyring_text tools vault made in
      let body = set_field name value secret.fields in
      record {
        cas = (get-write_body body secret.version name).0;
        others = λ other ne.
            (get-write_body body secret.version other).1
            ∙ set_field-other name other value secret.fields ne;
        keyring =
            ap (stored_text vault) (
              (get-write_body body secret.version name).1 ∙ set_field-same name value secret.fields)
            ∙ stored_text-keyring_text made;
      }

  -- Nothing is sent and the rotation fails; or a keyring has been made from the one that was read,
  -- one write on top of the secret is sent, and the rotation succeeds exactly if it is taken.
  abbrev pub Outcome :
      VaultOptions
      → Str
      → Str
      → RotateSchedule
      → GeneratedKey
      → Result Keyring × List (Str × Json)
      → Type 0
  Outcome options name root_pem schedule generated r =
      ((r.1 ≡ []) × (f : Failure) × (r.0 ≡ err f))
      ⊎ ((secret : VaultSecret) × (existing : Option Keyring) × (made : Keyring) × (w : Str × Json)
          × (read_secret vault options ≡ ok secret)
          × (existing_keyring tools (stored_text vault (lookup_field name secret.fields))
              ≡ ok existing)
          × (next_keyring tools existing root_pem schedule generated ≡ ok made)
          × (r.1 ≡ w ∷ [])
          × IsWrite tools vault name secret made w
          × ((r.0 ≡ ok made) ↔ ((vault.fetch_post w.0 w.1).is_ok ≡ true)))

  store-Outcome :
      (options : VaultOptions) (name root_pem : Str) (schedule : RotateSchedule)
      (generated : GeneratedKey) (secret : VaultSecret) (existing : Option Keyring)
      → read_secret vault options ≡ ok secret
      → existing_keyring tools (stored_text vault (lookup_field name secret.fields)) ≡ ok existing
      → Outcome options name root_pem schedule generated (
          store tools vault options name secret
            (next_keyring tools existing root_pem schedule generated))
  unfolding store write_secret
  store-Outcome options name root_pem schedule generated secret existing read there =
      elim (Result-cases (next_keyring tools existing root_pem schedule generated)) [
        | inr (f, bad) ↦
            subst
              (λ n.
                Outcome options name root_pem schedule generated
                  (store tools vault options name secret n))
              (sym bad) (inl (refl, f, refl))
        | inl (made, good) ↦
            let value = keyring_text tools vault made in
            let entries = set_field name value secret.fields in
            subst
              (λ n.
                Outcome options name root_pem schedule generated
                  (store tools vault options name secret n))
              (sym good)
              (elim (Result-cases (data_url options)) [
                | inr (f, bad) ↦
                    let failed : store tools vault options name secret (ok made) ≡ (err f, []) =
                      rw (store, write_secret, bad) refl in
                    subst (Outcome options name root_pem schedule generated) (sym failed)
                      (inl (refl, f, refl))
                | inl (url, located) ↦
                    let w : Str × Json = (url, write_body entries secret.version) in
                    let sent : store tools vault options name secret (ok made) ≡ (
                      require (vault.fetch_post w.0 w.1).is_ok
                            (error (code_units "vault write failed"))
                          >>= (λ done. ok made),
                      w ∷ [],
                    ) =
                      rw (store, write_secret, located) refl in
                    subst (Outcome options name root_pem schedule generated) (sym sent) (
                      inr (
                        secret,
                        existing,
                        made,
                        w,
                        read,
                        there,
                        good,
                        refl,
                        write_body-IsWrite name url secret made,
                        taken_iff _ _ made,
                      ))
              ])
      ]

  -- Where texts are encoded as documented, a rotation in Vault either sends nothing and fails; or
  -- makes a keyring from the one it read and sends one write, which names the version that was read,
  -- keeps every other field and holds the keyring, and it succeeds exactly if that is taken.
  pub rotate_in_vault-Outcome :
      (options : VaultOptions) (name root_pem : Str) (schedule : RotateSchedule)
      (generated : GeneratedKey)
      → Outcome options name root_pem schedule generated
          (rotate_in_vault tools vault options name root_pem schedule generated)
  unfolding rotate_in_vault store
  rotate_in_vault-Outcome options name root_pem schedule generated =
      elim (Result-cases (read_secret vault options)) [
        | inr (f, bad) ↦
            let fails : rotate_in_vault tools vault options name root_pem schedule generated
                ≡ (err f, []) =
              rw (rotate_in_vault, bad) refl in
            subst (Outcome options name root_pem schedule generated) (sym fails)
              (inl (refl, f, refl))
        | inl (secret, read) ↦
            elim (Result-cases
              (existing_keyring tools (stored_text vault (lookup_field name secret.fields)))) [
                | inr (f, bad) ↦
                    let fails : rotate_in_vault tools vault options name root_pem schedule generated
                        ≡ (err f, []) =
                      rw (rotate_in_vault, read, bad, store) refl in
                    subst (Outcome options name root_pem schedule generated) (sym fails)
                      (inl (refl, f, refl))
                | inl (existing, there) ↦
                    let stores : rotate_in_vault tools vault options name root_pem schedule
                          generated
                        ≡ store tools vault options name secret
                            (next_keyring tools existing root_pem schedule generated) =
                      rw (rotate_in_vault, read, there) refl in
                    subst (Outcome options name root_pem schedule generated) (sym stores) (
                      store-Outcome options name root_pem schedule generated secret existing read
                        there)
              ]
      ]
