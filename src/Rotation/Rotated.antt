-- ===== src/Rotation/Rotated.antt =====
-- A rotation of an accepted keyring succeeds, and the issuer accepts its outcome.
use credentials_issuer.Prelude.{
  ℕ, ◌+◌, ◌*◌, ◌≡◌, ◌≢◌, ◌≤◌, ◌<◌, refl, sym, ap, subst, true, Bool, some, List, [], ◌∷◌, Str,
  length, All, All-map_of, arith, eq-text,
}
use credentials_issuer.Prelude.Json.{str}
use credentials_issuer.Prelude.Result.{ok}
use credentials_issuer.Errors.Base64.{Bytes, to_base64}
use credentials_issuer.Errors.Base64.Canonical.{
  IsBytes, decode_strict_base64_iff, to_base64-nonempty,
}
use credentials_issuer.Errors.Base64.Canonical.Url.{to_base64url, to_base64url-nonempty}
use credentials_issuer.Keys.Pem.{bytes_to_base64, der_to_pkcs8_pem}
use credentials_issuer.Keys.Keyring.{EpochEntry, Keyring, has_epoch, is_base64}
use credentials_issuer.Keys.Keyring.Valid.{IsKeyring, IsEpoch, Distinct}
use credentials_issuer.Keys.Service.{accept_json}
use credentials_issuer.Rotation.NextKeyring.{
  RotationTools, RotateSchedule, GeneratedKey, RootKey, min, sealed, resealed, sign_key_document,
  next_keyring, checked, next_id, fresh_epoch, import_root_signing_key, root_public_key_spki,
  keyring_json,
}
use credentials_issuer.Rotation.Accepted.{IsFilled, parse_keyring-keyring_json, base64_is_base64}
use credentials_issuer.Rotation.Sealed.{
  IsRootKey, IsVerified, sealed-IsVerified, verify_keyring_signatures-IsVerified,
}
use credentials_issuer.Rotation.Retained.{Avoids, retain-IsRetained}

bytes_to_base64-is_base64 :
    (bytes : Bytes) → IsBytes bytes → bytes ≢ [] → is_base64 (bytes_to_base64 bytes) ≡ true
unfolding bytes_to_base64
bytes_to_base64-is_base64 bytes h filled =
    base64_is_base64 (to_base64 bytes) bytes
      ((decode_strict_base64_iff (str (to_base64 bytes)) bytes).1 (refl, filled, h))

module _ (tools : RotationTools) (schedule : RotateSchedule) (generated : GeneratedKey) where
  -- The tools as documented: dates are read back, and keys are keys.
  pub record IsReliable (root_pem : Str) : Type 0 where
    pub root_key : RootKey
    pub root_imported : import_root_signing_key tools root_pem ≡ ok root_key
    pub root : IsRootKey tools.keys root_key
    pub iso : (t : ℕ) → tools.keys.date_parse (tools.keys.to_iso_string t) ≡ some t
    pub key_bytes : IsBytes generated.spki
    pub key_filled : generated.spki ≢ []

  -- An accepted keyring whose epochs have all begun and none of which has the next identifier.
  pub record IsRotatable (k : Keyring) : Type 0 where
    pub valid : IsKeyring tools.keys.date_parse tools.keys.to_iso_string k
    pub filled : All IsFilled k.epochs
    pub begun :
        All
          (λ e.
            (h : IsEpoch tools.keys.date_parse tools.keys.to_iso_string e) × (h.begins
              ≤ schedule.now))
          k.epochs
    pub numbered : tools.is_number (tools.increment k.current_epoch) ≡ true
    pub named : tools.increment k.current_epoch ≢ []
    pub unused : Avoids (tools.increment k.current_epoch) k.epochs

  abbrev Good : (Bytes → Str → Bool) → EpochEntry → Type 0
  Good check e =
      IsEpoch tools.keys.date_parse tools.keys.to_iso_string e × IsFilled e × IsVerified check e

  sealed-filled :
      (root_pem : Str) (r : IsReliable root_pem) (text : Str)
      → to_base64url (r.root_key.sign text) ≢ []
  sealed-filled root_pem r text none_left =
      to_base64url-nonempty (r.root_key.sign text) (r.root.signature_filled text)
        (ap length none_left)

  resealed-Good :
      (root_pem : Str) (r : IsReliable root_pem) (e : EpochEntry) (grace_until : ℕ)
      → (h : IsEpoch tools.keys.date_parse tools.keys.to_iso_string e) → IsFilled e
      → h.begins < min h.ends grace_until
      → Good r.root.check
          (resealed e (tools.keys.to_iso_string (min h.ends grace_until)) r.root_key)
  resealed-Good root_pem r e grace_until h f ordered = (
    unfold resealed sealed in
        record {
          begins = h.begins;
          ends = min h.ends grace_until;
          suite = h.suite;
          not_before = h.not_before;
          not_after = (r.iso (min h.ends grace_until), refl);
          ordered = ordered;
          bytes = h.bytes;
          pubkey = h.pubkey;
        },
    unfold resealed sealed sign_key_document in
        record {
          epoch_id = f.epoch_id;
          pubkey = f.pubkey;
          root_sig = sealed-filled root_pem r _;
          private_key_pkcs8_pem = f.private_key_pkcs8_pem;
        },
    unfold resealed in sealed-IsVerified tools.keys r.root_key r.root _ _,
  )

  fresh_epoch-Good :
      (root_pem : Str) (r : IsReliable root_pem) (id : Str)
      → id ≢ []
      → 0 < schedule.epoch_seconds
      → Good r.root.check (fresh_epoch tools schedule generated r.root_key id)
  fresh_epoch-Good root_pem r id named lasting = (
    unfold fresh_epoch sealed bytes_to_base64 in
        record {
          begins = schedule.now;
          ends = schedule.now + schedule.epoch_seconds * 1000;
          suite = refl;
          not_before = (r.iso _, refl);
          not_after = (r.iso _, refl);
          ordered = omega arith;
          bytes = generated.spki;
          pubkey =
              (decode_strict_base64_iff (str (to_base64 generated.spki)) generated.spki).1
                (refl, r.key_filled, r.key_bytes);
        },
    unfold fresh_epoch sealed sign_key_document bytes_to_base64 der_to_pkcs8_pem in
        record {
          epoch_id = named;
          pubkey =
              λ none_left. to_base64-nonempty generated.spki r.key_filled (ap length none_left);
          root_sig = sealed-filled root_pem r _;
          private_key_pkcs8_pem = λ none_left. cc none_left;
        },
    unfold fresh_epoch in sealed-IsVerified tools.keys r.root_key r.root _ _,
  )

  all_ready :
      (root_pem : Str) (r : IsReliable root_pem) (grace_until : ℕ) (es : List EpochEntry)
      → All
          (λ e.
            (h : IsEpoch tools.keys.date_parse tools.keys.to_iso_string e) × (h.begins
              ≤ schedule.now))
          es
      → All IsFilled es
      → All
          (λ e.
            (h : IsEpoch tools.keys.date_parse tools.keys.to_iso_string e) × (schedule.now
                < min h.ends grace_until
              → Good r.root.check
                  (resealed e (tools.keys.to_iso_string (min h.ends grace_until)) r.root_key)))
          es
  all_ready root_pem r grace_until [] h f = tt
  all_ready root_pem r grace_until (e ∷ es) ((he, begun), h) (fe, f) = (
    (he, λ going. resealed-Good root_pem r e grace_until he fe (omega (arith, begun, going))),
    all_ready root_pem r grace_until es h f,
  )

  all-Good-accepted :
      (root_pem : Str) (r : IsReliable root_pem) (id : Str) (fresh : EpochEntry)
      (retained : List EpochEntry)
      → id ≢ []
      → fresh.epoch_id ≡ id
      → All (Good r.root.check) (fresh ∷ retained)
      → Avoids id retained
      → Distinct tools.keys.date_parse tools.keys.to_iso_string retained
      → let made : Keyring = record {
        current_epoch = id;
        root_public_key_spki = bytes_to_base64 r.root_key.spki;
        epochs = fresh ∷ retained;
      } in
        (checked tools.keys made ≡ ok made) × (accept_json tools.keys (keyring_json made) ≡ ok made)
  unfolding checked accept_json has_epoch
  all-Good-accepted root_pem r id fresh retained named same good unused distinct =
      let made : Keyring = record {
        current_epoch = id;
        root_public_key_spki = bytes_to_base64 r.root_key.spki;
        epochs = fresh ∷ retained;
      } in
      let verified =
        verify_keyring_signatures-IsVerified tools.keys r.root_key r.root made refl (
          All-map_of (Good r.root.check) (IsVerified r.root.check) made.epochs (λ e g. g.2) good) in
      let valid : IsKeyring tools.keys.date_parse tools.keys.to_iso_string made = record {
        epochs =
            All-map_of (Good r.root.check) (IsEpoch tools.keys.date_parse tools.keys.to_iso_string)
              made.epochs (λ e g. g.0) good;
        distinct = (subst (λ i. Avoids i retained) (sym same) unused, distinct);
        current = rw ((eq-text fresh.epoch_id id).1 same) refl;
        root_key = bytes_to_base64-is_base64 r.root_key.spki r.root.spki_bytes r.root.spki_filled;
      } in
      let read =
        parse_keyring-keyring_json tools.keys.date_parse tools.keys.to_iso_string made valid named
          (All-map_of (Good r.root.check) IsFilled made.epochs (λ e g. g.1) good) in
      (rw verified, rw (read, verified))

  -- With working tools and a lasting epoch, the rotation of an accepted keyring whose epochs have
  -- begun and do not use the next identifier succeeds, and the issuer reads the JSON it writes as the
  -- same keyring and accepts it.
  pub next_keyring-accepted :
      (k : Keyring) (root_pem : Str)
      → IsReliable root_pem
      → IsRotatable k
      → 0 < schedule.epoch_seconds
      → (made : Keyring) × (next_keyring tools (some k) root_pem schedule generated ≡ ok made)
        × (made.current_epoch ≡ tools.increment k.current_epoch)
        × (accept_json tools.keys (keyring_json made) ≡ ok made)
  unfolding next_keyring next_id root_public_key_spki
  next_keyring-accepted k root_pem r h lasting =
      let grace_until = schedule.now + schedule.grace_seconds * 1000 in
      let id = tools.increment k.current_epoch in
      let (retained, kept, rest) =
        retain-IsRetained tools.keys r.iso schedule.now grace_until r.root_key (Good r.root.check)
          k.epochs (all_ready root_pem r grace_until k.epochs h.begun h.filled) h.valid.distinct in
      let (made, accepted) =
        all-Good-accepted root_pem r id (fresh_epoch tools schedule generated r.root_key id)
          retained h.named (unfold fresh_epoch sealed in refl)
          (fresh_epoch-Good root_pem r id h.named lasting, rest.each) (rest.avoids id h.unused)
          rest.distinct in
      (_, rw (r.root_imported, h.numbered, kept, made), refl, accepted)
