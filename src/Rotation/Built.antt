-- ===== src/Rotation/Built.antt =====
-- The parts of a keyring that `nextKeyring` returns.
use credentials_issuer.Prelude.{◌≡◌, refl, subst, ◌+◌, ◌*◌, Option, List, ◌∷◌, Str, arith, inl, inr}
use credentials_issuer.Prelude.Result.{ok, Result-cases}
use credentials_issuer.Keys.Keyring.{EpochEntry, Keyring}
use credentials_issuer.Keys.Pem.{bytes_to_base64}
use credentials_issuer.Keys.Service.{verify_keyring_signatures}
use credentials_issuer.Rotation.NextKeyring.{
  RotationTools, RotateSchedule, GeneratedKey, RootKey, retain, next_keyring, checked, next_id,
  fresh_epoch, import_root_signing_key, root_public_key_spki, epochs_of,
}

pub record IsBuilt (tools : RotationTools) (existing : Option Keyring) (root_pem : Str)
    (schedule : RotateSchedule) (generated : GeneratedKey) (made : Keyring) : Type 0 where
  pub root_key : RootKey
  pub retained : List EpochEntry
  pub imported : import_root_signing_key tools root_pem ≡ ok root_key
  pub named : next_id tools existing ≡ ok made.current_epoch
  pub root : made.root_public_key_spki ≡ bytes_to_base64 root_key.spki
  pub kept :
      retain tools.keys schedule.now
        (schedule.now + schedule.grace_seconds * 1000)
        root_key
        (epochs_of existing)
      ≡ ok retained
  pub epochs :
      made.epochs ≡ fresh_epoch tools schedule generated root_key made.current_epoch ∷ retained
  pub verified : verify_keyring_signatures tools.keys made ≡ ok tt

pub next_keyring-IsBuilt :
    (tools : RotationTools) (existing : Option Keyring) (root_pem : Str) (schedule : RotateSchedule)
    (generated : GeneratedKey) (made : Keyring)
    → next_keyring tools existing root_pem schedule generated ≡ ok made
    → IsBuilt tools existing root_pem schedule generated made
unfolding next_keyring checked root_public_key_spki
next_keyring-IsBuilt tools existing root_pem schedule generated made h =
    elim (Result-cases (import_root_signing_key tools root_pem)) [
      | inr (f, bad) ↦ ground arith
      | inl (root_key, imported) ↦ elim (Result-cases (next_id tools existing)) [
        | inr (f, bad) ↦ ground arith
        | inl (id, named) ↦
            elim (Result-cases (
              retain tools.keys schedule.now (schedule.now + schedule.grace_seconds * 1000) root_key
                (epochs_of existing))) [
                  | inr (f, bad) ↦ ground arith
                  | inl (retained, kept) ↦
                      let keyring : Keyring = record {
                        current_epoch = id;
                        root_public_key_spki = bytes_to_base64 root_key.spki;
                        epochs = fresh_epoch tools schedule generated root_key id ∷ retained;
                      } in
                      elim (Result-cases (verify_keyring_signatures tools.keys keyring)) [
                        | inr (f, bad) ↦ ground arith
                        | inl (u, verified) ↦
                            let same : keyring ≡ made = ground arith in
                            subst (IsBuilt tools existing root_pem schedule generated) same
                              (record {
                                root_key = root_key;
                                retained = retained;
                                imported = imported;
                                named = named;
                                root = refl;
                                kept = kept;
                                epochs = refl;
                                verified = verified;
                              })
                      ]
                ]
      ]
    ]
