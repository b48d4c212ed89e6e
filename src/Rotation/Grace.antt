-- ===== src/Rotation/Grace.antt =====
-- What a rotation leaves of the epochs that were there.
use credentials_issuer.Prelude.{
  ℕ, ◌+◌, ◌*◌, ◌≡◌, ◌≢◌, ◌≤◌, refl, sym, subst, true, Option, none, some, List, [], ◌∷◌, Str, All,
  find, ltb, leb, ◌&&◌, arith, inl, inr, Bool-cases, if◌then◌else◌, ◌===◌, eq-text-true, eq-text-ne,
  eq-text_refl,
}
use credentials_issuer.Prelude.Result.{ok, err, Result-cases}
use credentials_issuer.Keys.Keyring.{
  EpochEntry, Keyring, has_epoch, in_force, if_in_force, usable_epoch,
}
use credentials_issuer.Keys.Keyring.Valid.{IsKeyring, IsEpoch, Distinct}
use credentials_issuer.Keys.Pem.{bytes_to_base64, der_to_pkcs8_pem}
use credentials_issuer.Keys.Service.{KeyTools}
use credentials_issuer.Rotation.Built.{next_keyring-IsBuilt}
use credentials_issuer.Rotation.NextKeyring.{
  RotationTools, RotateSchedule, GeneratedKey, RootKey, min, sealed, resealed, shortened,
  already_expired, retain, next_keyring, fresh_epoch,
}

-- The two halves of an epoch's key.
abbrev pub key_of : Option EpochEntry → Option (Str × Str)
key_of none = none
key_of (some e) = some (e.pubkey, e.private_key_pkcs8_pem)

find_absent :
    (id : Str) (es : List EpochEntry)
    → All (λ d. d.epoch_id ≢ id) es
    → find (has_epoch id) es ≡ none
unfolding has_epoch
find_absent id [] h = refl
find_absent id (e ∷ es) (other, h) = rw (eq-text-ne other) (find_absent id es h)

module _ (keys : KeyTools) (iso : (t : ℕ) → keys.date_parse (keys.to_iso_string t) ≡ some t) where
  abbrev keys_at : ℕ → Str → List EpochEntry → Option (Str × Str)
  keys_at t id es =
      key_of (if_in_force keys.date_parse keys.to_iso_string t (find (has_epoch id) es))

  abbrev until : ℕ → ℕ → Option (Str × Str) → Option (Str × Str)
  until grace_until t key = if ltb t grace_until then key else none

  resealed-in_force :
      (e : EpochEntry) (t grace_until : ℕ) (root_key : RootKey)
      → (h : IsEpoch keys.date_parse keys.to_iso_string e)
      → in_force keys.date_parse keys.to_iso_string
          (resealed e (keys.to_iso_string (min h.ends grace_until)) root_key)
          t
        ≡ (leb h.begins t && ltb t (min h.ends grace_until))
  unfolding in_force resealed sealed
  resealed-in_force e t grace_until root_key h =
      let (begins, _) = h.not_before in rw (begins, iso (min h.ends grace_until))

  epoch-in_force :
      (e : EpochEntry) (t : ℕ)
      → (h : IsEpoch keys.date_parse keys.to_iso_string e)
      → in_force keys.date_parse keys.to_iso_string e t ≡ (leb h.begins t && ltb t h.ends)
  unfolding in_force
  epoch-in_force e t h =
      let (begins, _) = h.not_before in let (ends, _) = h.not_after in rw (begins, ends)

  -- One epoch that stays: its key is usable as before, but not beyond the grace.
  resealed-key :
      (e : EpochEntry) (t grace_until : ℕ) (root_key : RootKey)
      → (h : IsEpoch keys.date_parse keys.to_iso_string e)
      → key_of (
          if_in_force keys.date_parse keys.to_iso_string t
            (some (resealed e (keys.to_iso_string (min h.ends grace_until)) root_key)))
        ≡ until grace_until t (key_of (if_in_force keys.date_parse keys.to_iso_string t (some e)))
  unfolding if_in_force min resealed sealed
  resealed-key e t grace_until root_key h =
      ground (arith, resealed-in_force e t grace_until root_key h, epoch-in_force e t h)

  expired-key :
      (e : EpochEntry) (now t grace_until : ℕ)
      → (h : IsEpoch keys.date_parse keys.to_iso_string e) → now ≤ t
      → leb (min h.ends grace_until) now ≡ true
      → until grace_until t (key_of (if_in_force keys.date_parse keys.to_iso_string t (some e)))
        ≡ none
  unfolding if_in_force min
  expired-key e now t grace_until h later expired = ground (arith, epoch-in_force e t h)

  retain-first :
      (now grace_until : ℕ) (root_key : RootKey) (e : EpochEntry) (es retained : List EpochEntry)
      → (h : IsEpoch keys.date_parse keys.to_iso_string e)
      → retain keys now grace_until root_key (e ∷ es) ≡ ok retained
      → (rest : List EpochEntry) × (retain keys now grace_until root_key es ≡ ok rest)
        × ((if leb (min h.ends grace_until) now
              then rest
              else (resealed e (keys.to_iso_string (min h.ends grace_until)) root_key ∷ rest))
            ≡ retained)
  unfolding retain shortened already_expired
  retain-first now grace_until root_key e es retained h computed =
      let (ends, _) = h.not_after in
      elim (Result-cases (retain keys now grace_until root_key es)) [
        | inr (f, bad) ↦
            let fails : retain keys now grace_until root_key (e ∷ es) ≡ err f =
              rw (shortened, ends, bad) refl in
            cc (fails, computed)
        | inl (rest, good) ↦
            let gives : retain keys now grace_until root_key (e ∷ es)
                ≡ ok (
                    if leb (min h.ends grace_until) now
                    then rest
                    else (resealed e (keys.to_iso_string (min h.ends grace_until)) root_key
                        ∷ rest)) =
              rw (shortened, ends, good, already_expired, iso (min h.ends grace_until)) refl in
            (rest, good, cc (gives, computed))
      ]

  retain-keys_at :
      (now grace_until t : ℕ) (root_key : RootKey) (id : Str) (es retained : List EpochEntry)
      → All (IsEpoch keys.date_parse keys.to_iso_string) es
      → Distinct keys.date_parse keys.to_iso_string es
      → now ≤ t
      → retain keys now grace_until root_key es ≡ ok retained
      → keys_at t id retained ≡ until grace_until t (keys_at t id es)
  unfolding if_in_force has_epoch resealed sealed
  retain-keys_at now grace_until t root_key id [] retained valid distinct later h =
      let none_left : [] ≡ retained = unfold retain in cc h in
      subst (λ r. keys_at t id r ≡ until grace_until t (keys_at t id [])) none_left (ground arith)
  retain-keys_at now grace_until t root_key id (e ∷ es) retained (he, valid) (others, distinct)
        later h =
      let (rest, good, made) = retain-first now grace_until root_key e es retained he h in
      let hyp = retain-keys_at now grace_until t root_key id es rest valid distinct later good in
      subst (λ r. keys_at t id r ≡ until grace_until t (keys_at t id (e ∷ es))) made
        (elim (Bool-cases (e.epoch_id === id)) [
          | inr other ↦ ground (arith, hyp, other)
          | inl same ↦
              let absent =
                find_absent id es
                  (subst (λ i. All (λ d. d.epoch_id ≢ i) es) (eq-text-true same) others) in
              elim (Bool-cases (leb (min he.ends grace_until) now)) [
                | inl expired ↦
                    ground (arith, hyp, absent, expired-key e now t grace_until he later expired)
                | inr kept ↦ ground (arith, resealed-key e t grace_until root_key he)
              ]
        ])

-- After a rotation of an accepted keyring, from then on: every earlier epoch signs with the same key
-- as before until its own end or the end of the grace, whichever is first, and with no key
-- afterwards. An epoch that ends before the grace gets no more time.
pub next_keyring-grace :
    (tools : RotationTools)
    (iso : (t : ℕ) → tools.keys.date_parse (tools.keys.to_iso_string t) ≡ some t) (k made : Keyring)
    (root_pem : Str) (schedule : RotateSchedule) (generated : GeneratedKey) (id : Str) (t : ℕ)
    → IsKeyring tools.keys.date_parse tools.keys.to_iso_string k
    → next_keyring tools (some k) root_pem schedule generated ≡ ok made
    → id ≢ made.current_epoch
    → schedule.now ≤ t
    → key_of (usable_epoch tools.keys.date_parse tools.keys.to_iso_string made id t) ≡ (
        if ltb t (schedule.now + schedule.grace_seconds * 1000)
        then key_of (usable_epoch tools.keys.date_parse tools.keys.to_iso_string k id t)
        else none)
unfolding usable_epoch has_epoch fresh_epoch sealed
next_keyring-grace tools iso k made root_pem schedule generated id t valid h other later =
    let b = next_keyring-IsBuilt tools (some k) root_pem schedule generated made h in
    rw (b.epochs, eq-text-ne (λ (same : made.current_epoch ≡ id). other (sym same)))
      (retain-keys_at tools.keys iso schedule.now _ t b.root_key id k.epochs b.retained valid.epochs
        valid.distinct later b.kept)

-- The new epoch is the current one, and signs with the generated key from the rotation on until its
-- time has passed.
pub next_keyring-fresh :
    (tools : RotationTools)
    (iso : (t : ℕ) → tools.keys.date_parse (tools.keys.to_iso_string t) ≡ some t)
    (existing : Option Keyring) (made : Keyring) (root_pem : Str) (schedule : RotateSchedule)
    (generated : GeneratedKey) (t : ℕ)
    → next_keyring tools existing root_pem schedule generated ≡ ok made
    → key_of (usable_epoch tools.keys.date_parse tools.keys.to_iso_string made made.current_epoch t)
      ≡ (if leb schedule.now t && ltb t (schedule.now + schedule.epoch_seconds * 1000)
          then some (bytes_to_base64 generated.spki, der_to_pkcs8_pem generated.pkcs8)
          else none)
unfolding usable_epoch has_epoch if_in_force in_force fresh_epoch sealed
next_keyring-fresh tools iso existing made root_pem schedule generated t h =
    let b = next_keyring-IsBuilt tools existing root_pem schedule generated made h in
    rw
      (
        b.epochs,
        eq-text_refl made.current_epoch,
        if_in_force,
        in_force,
        iso schedule.now,
        iso (schedule.now + schedule.epoch_seconds * 1000),
      )
      (ground arith)
